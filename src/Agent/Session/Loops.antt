-- ===== src/Agent/Session/Loops.antt =====
-- What the loops of workers/src/aipanel_worker/call_session.py do over a whole call.
use aipanel.Base.{
  ℕ, zero, suc, ◌≤◌, ◌<◌, ◌≡◌, ◌⊎◌, inl, inr, refl, sym, ap, subst, ◌∙◌, String, Text, Bool, true,
  false, List, [], ◌∷◌, ◌++◌, Option, none, some, length, length-append, take, take-all,
  take-append, length-take, append_assoc, append-nil, ltb, nat_eq, if◌then◌else◌, if-true, if-false,
  either_way, arith, Bool-cases,
}
use aipanel.Sip.Frame.Wire.{Bytes}
use aipanel.Sip.Frame.{
  Encoded, ok, raised, frame_audio_in, frame_audio_out, frame_hangup, frame_dtmf,
}
use aipanel.Sip.Frame.Peer.{encode_frame}
use aipanel.Agent.AudioOut.{happen, barges_in, writer_takes, take_frame}
use aipanel.Agent.AudioOut.Queue.{IsSilent}
use aipanel.Agent.Recorder.{Recorder}
use aipanel.Agent.BargeIn.{should_barge_in}
use aipanel.Agent.Session.{
  CallSession, feed, record_inbound, decode_ascii, Read, frame, eof, end_call, take_audio,
  take_dtmf, sip_read_loop, popped, send_encoded, write_next, sip_write_step, SttPartial,
  BargeInConfig, heard, barge_in, since_when, barge_in_loop,
}

-- The audio and the digits that come before the end of the call, and whether it comes.
abbrev audio_of : List Read → List Bytes
audio_of [] = []
audio_of (eof ∷ reads) = []
audio_of (frame (t, payload) ∷ reads) =
    if nat_eq t frame_audio_in
    then payload ∷ audio_of reads
    else if nat_eq t frame_hangup
    then []
    else audio_of reads

abbrev digits_of : List Read → List (String × Text)
digits_of [] = []
digits_of (eof ∷ reads) = []
digits_of (frame (t, payload) ∷ reads) =
    if nat_eq t frame_hangup
    then []
    else if nat_eq t frame_dtmf
    then ("dtmf", decode_ascii payload) ∷ digits_of reads
    else digits_of reads

abbrev is_ended_by : List Read → Bool
is_ended_by [] = false
is_ended_by (eof ∷ reads) = true
is_ended_by (frame (t, payload) ∷ reads) = if nat_eq t frame_hangup then true else is_ended_by reads

abbrev record_all : List Bytes → Option Recorder → Option Recorder
record_all [] r = r
record_all (pcm ∷ audio) r = record_all audio (record_inbound pcm r)

take-take_append : (n : ℕ) (xs ys : List Bytes) → take n (take n xs ++ ys) ≡ take n (xs ++ ys)
take-take_append zero xs ys = refl
take-take_append (suc n) [] ys = refl
take-take_append (suc n) (x ∷ xs) ys = ap (λ rest. x ∷ rest) (take-take_append n xs ys)

feed-take :
    (pcm : Bytes) (frames : List Bytes)
    → length frames ≤ 200
    → feed pcm frames ≡ take 200 (frames ++ pcm ∷ [])
unfolding feed
feed-take pcm frames le = elim (Bool-cases (ltb (length frames) 200)) [
  | inl room ↦
      if-true (ltb (length frames) 200) _ _ room
      ∙ sym (
          take-all 200 (frames ++ pcm ∷ []) (ground (arith, room, length-append frames (pcm ∷ []))))
  | inr full ↦
      if-false (ltb (length frames) 200) _ _ full
      ∙ sym (take-append frames (pcm ∷ []) 200 (ground (arith, full, le)))
]

length-feed :
    (pcm : Bytes) (frames : List Bytes) → length frames ≤ 200 → length (feed pcm frames) ≤ 200
length-feed pcm frames le =
    omega (arith, ap length (feed-take pcm frames le), length-take 200 (frames ++ pcm ∷ []))

-- What the loop leaves of a call that goes on.
abbrev pub IsRead : List Read → CallSession → CallSession → Type 0
IsRead reads s s' =
    (s'.frames_in ≡ take 200 (s.frames_in ++ audio_of reads))
    × (s'.recorder ≡ record_all (audio_of reads) s.recorder)
    × (s'.transcripts ≡ s.transcripts ++ digits_of reads)
    × (s'.call_ended ≡ is_ended_by reads)

read_nothing :
    (s : CallSession)
    → length s.frames_in ≤ 200
    → (s.frames_in ≡ take 200 (s.frames_in ++ []))
      × (s.recorder ≡ s.recorder)
      × (s.transcripts ≡ s.transcripts ++ [])
      × (true ≡ true)
read_nothing s le = (
  sym (take-all 200 s.frames_in le) ∙ ap (take 200) (sym (append-nil s.frames_in)),
  refl,
  sym (append-nil s.transcripts),
  refl,
)

read-audio :
    (t : ℕ) (payload : Bytes) (reads : List Read) (s s' : CallSession)
    → nat_eq t frame_audio_in ≡ true
    → length s.frames_in ≤ 200
    → IsRead reads (take_audio payload s) s'
    → IsRead (frame (t, payload) ∷ reads) s s'
read-audio t payload reads s s' audio le (fed, kept, told, over) =
    let other : nat_eq t frame_hangup ≡ false = ground (arith, audio) in
    let other' : nat_eq t frame_dtmf ≡ false = ground (arith, audio) in
    rw audio (
      rw other (
        rw other' (
          fed
              ∙ ap (λ frames. take 200 (frames ++ audio_of reads))
                  (feed-take payload s.frames_in le)
              ∙ take-take_append 200 (s.frames_in ++ payload ∷ []) (audio_of reads)
              ∙ ap (take 200) (append_assoc s.frames_in (payload ∷ []) (audio_of reads)),
          kept,
          told,
          over,
        )))

read-hangup :
    (t : ℕ) (payload : Bytes) (reads : List Read) (s : CallSession)
    → nat_eq t frame_hangup ≡ true
    → length s.frames_in ≤ 200
    → IsRead (frame (t, payload) ∷ reads) s (end_call s)
read-hangup t payload reads s hangup le =
    let other : nat_eq t frame_audio_in ≡ false = ground (arith, hangup) in
    rw other (rw hangup (read_nothing s le))

read-dtmf :
    (t : ℕ) (payload : Bytes) (reads : List Read) (s s' : CallSession)
    → nat_eq t frame_dtmf ≡ true
    → IsRead reads (take_dtmf payload s) s'
    → IsRead (frame (t, payload) ∷ reads) s s'
read-dtmf t payload reads s s' dtmf (fed, kept, told, over) =
    let other : nat_eq t frame_audio_in ≡ false = ground (arith, dtmf) in
    let other' : nat_eq t frame_hangup ≡ false = ground (arith, dtmf) in
    rw other (
      rw other' (
        rw dtmf (
          fed,
          kept,
          told ∙ append_assoc s.transcripts (("dtmf", decode_ascii payload) ∷ []) (digits_of reads),
          over,
        )))

-- A call that goes on, whatever frames come: the audio before a hangup or the end of the file waits for
-- the transcription, in order and up to 200 frames, and is recorded; the digits before it are in the
-- transcript; and the call is over exactly if one of the two came.
pub sip_read_loop-IsRead :
    (reads : List Read) (s : CallSession)
    → s.call_ended ≡ false
    → length s.frames_in ≤ 200
    → IsRead reads s (sip_read_loop reads s)
unfolding sip_read_loop
sip_read_loop-IsRead [] s on le =
    let (fed, kept, told, over) = read_nothing s le in (fed, kept, told, on)
sip_read_loop-IsRead (eof ∷ reads) s on le = rw on (read_nothing s le)
sip_read_loop-IsRead (frame (t, payload) ∷ reads) s on le =
    elim (Bool-cases (nat_eq t frame_audio_in)) [
      | inl audio ↦
          subst (IsRead (frame (t, payload) ∷ reads) s)
            (sym (if-false s.call_ended _ _ on ∙ if-true (nat_eq t frame_audio_in) _ _ audio))
            (read-audio t payload reads s (sip_read_loop reads (take_audio payload s)) audio le (
              sip_read_loop-IsRead reads (take_audio payload s) on
                (length-feed payload s.frames_in le)))
      | inr no_audio ↦ elim (Bool-cases (nat_eq t frame_hangup)) [
        | inl hangup ↦
            subst (IsRead (frame (t, payload) ∷ reads) s)
              (sym (
                if-false s.call_ended _ _ on
                ∙ if-false (nat_eq t frame_audio_in) _ _ no_audio
                ∙ if-true (nat_eq t frame_hangup) _ _ hangup))
              (read-hangup t payload reads s hangup le)
        | inr no_hangup ↦ elim (Bool-cases (nat_eq t frame_dtmf)) [
          | inl dtmf ↦
              subst (IsRead (frame (t, payload) ∷ reads) s)
                (sym (
                  if-false s.call_ended _ _ on
                  ∙ if-false (nat_eq t frame_audio_in) _ _ no_audio
                  ∙ if-false (nat_eq t frame_hangup) _ _ no_hangup
                  ∙ if-true (nat_eq t frame_dtmf) _ _ dtmf))
                (read-dtmf t payload reads s (sip_read_loop reads (take_dtmf payload s)) dtmf
                  (sip_read_loop-IsRead reads (take_dtmf payload s) on le))
          | inr other ↦
              subst (IsRead (frame (t, payload) ∷ reads) s)
                (sym (
                  if-false s.call_ended _ _ on
                  ∙ if-false (nat_eq t frame_audio_in) _ _ no_audio
                  ∙ if-false (nat_eq t frame_hangup) _ _ no_hangup
                  ∙ if-false (nat_eq t frame_dtmf) _ _ other))
                (rw no_audio (rw no_hangup (rw other (sip_read_loop-IsRead reads s on le))))
        ]
      ]
    ]

-- What the loops do to the playout is what `Event` says.
barge_in-happen :
    (p : SttPartial) (s : CallSession) → (barge_in p s).playout ≡ happen barges_in s.playout
unfolding barge_in happen
barge_in-happen p s = refl

send_encoded-playout :
    (up : Bool) (pcm : Bytes) (e : Encoded) (s : CallSession)
    → (send_encoded up pcm e s).playout ≡ s.playout
send_encoded-playout up pcm (raised e) s = refl
send_encoded-playout true pcm (ok bytes) s = refl
send_encoded-playout false pcm (ok bytes) s = refl

write_next-happen :
    (up : Bool) (frames : List Bytes) (s : CallSession)
    → (write_next up frames s).playout ≡ take_frame s.playout frames
write_next-happen up [] s = refl
write_next-happen up (pcm ∷ frames) s =
    send_encoded-playout up pcm (encode_frame frame_audio_out pcm) (popped frames pcm s)

-- On a call that goes on, the writer and the monitor do to the playout what the pipeline of speech is
-- proved to cope with: the one takes a frame, the other cancels and drains.
steps-happen :
    (up : Bool) (p : SttPartial) (s : CallSession)
    → s.call_ended ≡ false
    → ((sip_write_step up s).playout ≡ happen writer_takes s.playout)
      × ((barge_in p s).playout ≡ happen barges_in s.playout)
unfolding sip_write_step happen
steps-happen up p s on = (
  ap (λ (q : CallSession). q.playout)
        (if-false s.call_ended s (write_next up s.playout.frames_out s) on)
      ∙ write_next-happen up s.playout.frames_out s,
  barge_in-happen p s,
)

-- The monitor has cancelled the speech and noted it, or has done nothing.
abbrev IsWatched : CallSession → CallSession → Type 0
IsWatched s s' = (IsSilent s'.playout × (s.barge_ins < s'.barge_ins)) ⊎ (s' ≡ s)

IsWatched-then : (s t u : CallSession) → IsWatched s t → IsWatched t u → IsWatched s u
IsWatched-then s t u (inl (silent, more)) (inl (silent', more')) =
    inl (silent', omega (arith, more, more'))
IsWatched-then s t u (inl done) (inr same) = subst (IsWatched s) (sym same) (inl done)
IsWatched-then s t u (inr same) second = subst (λ x. IsWatched x u) same second

watch-one :
    (cfg : BargeInConfig) (since : Option ℕ) (p : SttPartial) (s : CallSession)
    → IsWatched s (if (should_barge_in (heard cfg since p s)).cancel_tts then barge_in p s else s)
unfolding barge_in
watch-one cfg since p s =
    either_way (IsWatched s) (should_barge_in (heard cfg since p s)).cancel_tts (barge_in p s) s
      (inl ((refl, refl), omega arith)) (inr refl)

-- Whatever partials come: the monitor leaves the call as it was, or it has noted a barge-in, the speech
-- is cancelled, and no frame waits.
barge_in_loop-IsWatched :
    (cfg : BargeInConfig) (partials : List (Option SttPartial)) (since : Option ℕ) (s : CallSession)
    → IsWatched s (barge_in_loop cfg partials since s)
unfolding barge_in_loop
barge_in_loop-IsWatched cfg [] since s = inr refl
barge_in_loop-IsWatched cfg (none ∷ partials) since s =
    either_way (IsWatched s) s.call_ended s (barge_in_loop cfg partials none s) (inr refl)
      (barge_in_loop-IsWatched cfg partials none s)
barge_in_loop-IsWatched cfg (some p ∷ partials) since s =
    let now = if (should_barge_in (heard cfg since p s)).cancel_tts then barge_in p s else s in
    let later = since_when since p.received_at in
    either_way (IsWatched s) s.call_ended s (barge_in_loop cfg partials later now) (inr refl) (
      IsWatched-then s now (barge_in_loop cfg partials later now) (watch-one cfg since p s)
        (barge_in_loop-IsWatched cfg partials later now))
