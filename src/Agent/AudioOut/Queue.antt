-- ===== src/Agent/AudioOut/Queue.antt =====
-- What workers/src/aipanel_worker/audio_out.py leaves behind: the bound of its queue, the flag that says
-- that it speaks, and the silence after a barge-in.
use aipanel.Base.{
  ℕ, zero, suc, ◌≤◌, ◌≡◌, refl, sym, ap, subst, ◌∙◌, ◌⊎◌, Bool, true, false, ◌||◌, List, [], ◌∷◌,
  ◌++◌, Option, none, some, length, length-append, drop, take, ltb, leb, nat_eq, is_empty, if-true,
  if-false, arith, either_way, Bool-cases, inl, inr,
}
use aipanel.Sip.Frame.Wire.{Bytes}
use aipanel.Agent.AudioOut.Frames.{cut_frames-IsOn}
use aipanel.Agent.AudioOut.{
  Playout, Event, writer_takes, barges_in, stops, Body, Response, unreachable, answered,
  SpeechRequest, pcm_frame_bytes, frames_out_maxsize, drop_oldest, put_frame, take_frame,
  enqueue_frame, enqueue_pieces, enqueue_audio_bytes, cut_frames, pad, pad_out, happen, happen_all,
  stream_chunks, stream_tts, speak, run, start_speech,
}

abbrev IsBounded : Playout → Type 0
IsBounded p = length p.frames_out ≤ frames_out_maxsize

put_dropped :
    (frame : Bytes) (p : Playout) (frames : List Bytes)
    → frames ≡ p.frames_out
    → frames_out_maxsize ≤ length frames
    → length frames ≤ frames_out_maxsize
    → IsBounded (put_frame frame (drop_oldest p frames))
put_dropped frame p [] same full le = absurd (omega (arith, full))
put_dropped frame p (f ∷ fs) same full le = omega (arith, length-append fs (frame ∷ []), le)

enqueue_frame-IsBounded :
    (frame : Bytes) (p : Playout) → IsBounded p → IsBounded (enqueue_frame frame p)
unfolding enqueue_frame
enqueue_frame-IsBounded frame p le =
    elim (Bool-cases (ltb (length p.frames_out) frames_out_maxsize)) [
      | inl room ↦ rw room (ground (arith, length-append p.frames_out (frame ∷ []), room))
      | inr full ↦ rw full (put_dropped frame p p.frames_out refl (ground (arith, full)) le)
    ]

pieces-IsBounded :
    (fuel : ℕ) (pcm : Bytes) (p : Playout) → IsBounded p → IsBounded (enqueue_pieces fuel pcm p)
unfolding enqueue_pieces
pieces-IsBounded zero pcm p le = le
pieces-IsBounded (suc fuel) pcm p le =
    let next = enqueue_frame (pad (take pcm_frame_bytes pcm)) p in
    either_way IsBounded (is_empty pcm || p.cancelled || p.stopped) p
      (enqueue_pieces fuel (drop pcm_frame_bytes pcm) next) le
      (pieces-IsBounded fuel (drop pcm_frame_bytes pcm) next
        (enqueue_frame-IsBounded (pad (take pcm_frame_bytes pcm)) p le))

take_frame-IsBounded :
    (p : Playout) (frames : List Bytes)
    → frames ≡ p.frames_out
    → IsBounded p
    → IsBounded (take_frame p frames)
take_frame-IsBounded p [] same le = le
take_frame-IsBounded p (f ∷ fs) same le = omega (arith, le, ap length same)

happen-IsBounded : (e : Event) (p : Playout) → IsBounded p → IsBounded (happen e p)
unfolding happen
happen-IsBounded writer_takes p le = take_frame-IsBounded p p.frames_out refl le
happen-IsBounded barges_in p le = omega arith
happen-IsBounded stops p le = le

happen_all-IsBounded : (es : List Event) (p : Playout) → IsBounded p → IsBounded (happen_all es p)
unfolding happen_all
happen_all-IsBounded [] p le = le
happen_all-IsBounded (e ∷ es) p le = happen_all-IsBounded es (happen e p) (happen-IsBounded e p le)

abbrev IsBoundedCut : Bytes × Playout → Type 0
IsBoundedCut r = IsBounded r.1

cut-IsBounded :
    (fuel : ℕ) (b : Bytes) (p : Playout) → IsBounded p → IsBoundedCut (cut_frames fuel b p)
unfolding cut_frames
cut-IsBounded zero b p le = le
cut-IsBounded (suc fuel) b p le =
    let next = enqueue_frame (take pcm_frame_bytes b) p in
    either_way IsBoundedCut (leb pcm_frame_bytes (length b))
      (cut_frames fuel (drop pcm_frame_bytes b) next) (b, p)
      (cut-IsBounded fuel (drop pcm_frame_bytes b) next
        (enqueue_frame-IsBounded (take pcm_frame_bytes b) p le))
      le

abbrev IsBoundedResult : Bool × Playout → Type 0
IsBoundedResult r = IsBounded r.1

stream-IsBounded :
    (chunks : List (List Event × Bytes)) (body : Body) (leftover : Bytes) (p : Playout)
    → IsBounded p
    → IsBoundedResult (stream_chunks chunks body leftover p)
unfolding stream_chunks
stream-IsBounded [] body leftover p le =
    let now = happen_all body.last p in
    let fine = happen_all-IsBounded body.last p le in
    either_way IsBoundedResult body.fails (false, now) (pad_out leftover now) fine
      (either_way IsBounded (is_empty leftover) now (enqueue_frame (pad leftover) now) fine
        (enqueue_frame-IsBounded (pad leftover) now fine))
stream-IsBounded ((events, chunk) ∷ chunks) body leftover p le =
    let now = happen_all events p in
    let fine = happen_all-IsBounded events p le in
    let r = cut_frames (length (leftover ++ chunk)) (leftover ++ chunk) now in
    either_way IsBoundedResult (now.cancelled || now.stopped) (true, now)
      (stream_chunks chunks body r.0 r.1) fine
      (stream-IsBounded chunks body r.0 r.1
        (cut-IsBounded (length (leftover ++ chunk)) (leftover ++ chunk) now fine))

tts-IsBounded :
    (response : Response) (p : Playout) → IsBounded p → IsBoundedResult (stream_tts response p)
unfolding stream_tts
tts-IsBounded unreachable p le = le
tts-IsBounded (answered status body) p le =
    either_way IsBoundedResult (nat_eq status 200) (stream_chunks body.chunks body [] p) (false, p)
      (stream-IsBounded body.chunks body [] p le) le

speak-IsBounded : (req : SpeechRequest) (p : Playout) → IsBounded p → IsBounded (speak req p)
unfolding speak enqueue_audio_bytes
speak-IsBounded req p le =
    let started = start_speech p in
    either_way IsBounded (is_empty req.audio) (stream_tts req.response started).1
      (enqueue_audio_bytes req.audio started) (tts-IsBounded req.response started le)
      (pieces-IsBounded (length req.audio) req.audio started le)

-- Not speaking, with a queue within its bound.
abbrev pub IsQuiet : Playout → Type 0
IsQuiet p = IsBounded p × (p.is_speaking ≡ false)

take_frame-speaking :
    (p : Playout) (frames : List Bytes) → (take_frame p frames).is_speaking ≡ p.is_speaking
take_frame-speaking p [] = refl
take_frame-speaking p (f ∷ fs) = refl

take_frame-cancelled :
    (p : Playout) (frames : List Bytes) → (take_frame p frames).cancelled ≡ p.cancelled
take_frame-cancelled p [] = refl
take_frame-cancelled p (f ∷ fs) = refl

happen-speaking : (e : Event) (p : Playout) → (happen e p).is_speaking ≡ p.is_speaking
unfolding happen
happen-speaking writer_takes p = take_frame-speaking p p.frames_out
happen-speaking barges_in p = refl
happen-speaking stops p = refl

happen_all-IsQuiet : (es : List Event) (p : Playout) → IsQuiet p → IsQuiet (happen_all es p)
unfolding happen_all
happen_all-IsQuiet [] p q = q
happen_all-IsQuiet (e ∷ es) p (le, silent) =
    happen_all-IsQuiet es (happen e p) (happen-IsBounded e p le, happen-speaking e p ∙ silent)

speak-IsQuiet : (req : SpeechRequest) (p : Playout) → IsBounded p → IsQuiet (speak req p)
unfolding speak
speak-IsQuiet req p le = (speak-IsBounded req p le, refl)

-- Whatever is asked to be spoken, and whatever others do meanwhile: the queue of frames keeps its bound,
-- and in the end, as in the beginning, the agent is not marked as speaking.
run-IsQuiet :
    (items : List (List Event × Option SpeechRequest)) (p : Playout)
    → IsQuiet p
    → IsQuiet (run items p)
unfolding run
run-IsQuiet [] p q = q
run-IsQuiet ((events, none) ∷ items) p q =
    either_way IsQuiet p.stopped p (happen_all events p) q (happen_all-IsQuiet events p q)
run-IsQuiet ((events, some req) ∷ items) p q =
    let now = happen_all events p in
    either_way IsQuiet p.stopped p (run items (speak req now)) q
      (run-IsQuiet items (speak req now) (speak-IsQuiet req now (happen_all-IsQuiet events p q).0))

-- Cancelled, with nothing left to play.
abbrev pub IsSilent : Playout → Type 0
IsSilent p = (p.cancelled ≡ true) × (p.frames_out ≡ [])

take_frame-IsSilent :
    (p : Playout) (frames : List Bytes) → frames ≡ [] → IsSilent p → IsSilent (take_frame p frames)
take_frame-IsSilent p [] same q = q
take_frame-IsSilent p (f ∷ fs) same q = absurd (omega (arith, ap length same))

happen_all-IsSilent : (es : List Event) (p : Playout) → IsSilent p → IsSilent (happen_all es p)
unfolding happen_all happen
happen_all-IsSilent [] p q = q
happen_all-IsSilent (writer_takes ∷ es) p q =
    happen_all-IsSilent es (take_frame p p.frames_out) (take_frame-IsSilent p p.frames_out q.1 q)
happen_all-IsSilent (barges_in ∷ es) p q = happen_all-IsSilent es (happen barges_in p) (refl, refl)
happen_all-IsSilent (stops ∷ es) p q = happen_all-IsSilent es (happen stops p) q

barge-IsSilent :
    (before after : List Event) (p : Playout)
    → IsSilent (happen_all (before ++ barges_in ∷ after) p)
unfolding happen_all happen
barge-IsSilent [] after p = happen_all-IsSilent after (happen barges_in p) (refl, refl)
barge-IsSilent (e ∷ before) after p = barge-IsSilent before after (happen e p)

-- Cancelled, and silent or stopped.
abbrev IsInterrupted : Bool × Playout → Type 0
IsInterrupted r = (r.0 ≡ true) × ((r.1.frames_out ≡ []) ⊎ (r.1.stopped ≡ true))

happen_all-cancelled :
    (es : List Event) (p : Playout)
    → p.cancelled ≡ false
    → ((happen_all es p).cancelled ≡ false) ⊎ IsSilent (happen_all es p)
unfolding happen_all happen
happen_all-cancelled [] p on = inl on
happen_all-cancelled (writer_takes ∷ es) p on =
    happen_all-cancelled es (take_frame p p.frames_out) (take_frame-cancelled p p.frames_out ∙ on)
happen_all-cancelled (barges_in ∷ es) p on =
    inr (happen_all-IsSilent es (happen barges_in p) (refl, refl))
happen_all-cancelled (stops ∷ es) p on = happen_all-cancelled es (happen stops p) on

interrupt :
    (events : List Event) (chunk : Bytes) (chunks : List (List Event × Bytes)) (body : Body)
    (leftover : Bytes) (p : Playout)
    → ((happen_all events p).cancelled || (happen_all events p).stopped) ≡ true
    → stream_chunks ((events, chunk) ∷ chunks) body leftover p ≡ (true, happen_all events p)
unfolding stream_chunks
interrupt events chunk chunks body leftover p h = if-true _ _ _ h

silent :
    (events : List Event) (chunk : Bytes) (chunks : List (List Event × Bytes)) (body : Body)
    (leftover : Bytes) (p : Playout)
    → IsSilent (happen_all events p)
    → IsInterrupted (stream_chunks ((events, chunk) ∷ chunks) body leftover p)
silent events chunk chunks body leftover p (off, empty) =
    subst IsInterrupted (sym (interrupt events chunk chunks body leftover p (ground (arith, off))))
      (refl, inl empty)

proceed :
    (events : List Event) (chunk : Bytes) (chunks : List (List Event × Bytes)) (body : Body)
    (leftover : Bytes) (p : Playout)
    → (happen_all events p).cancelled ≡ false
    → (happen_all events p).stopped ≡ false
    → stream_chunks ((events, chunk) ∷ chunks) body leftover p ≡ (
        let r = cut_frames (length (leftover ++ chunk)) (leftover ++ chunk) (happen_all events p) in
        stream_chunks chunks body r.0 r.1)
unfolding stream_chunks
proceed events chunk chunks body leftover p on going =
    if-false ((happen_all events p).cancelled || (happen_all events p).stopped) _ _
      (ground (arith, on, going))

stream-IsInterrupted :
    (before after : List (List Event × Bytes)) (es later : List Event) (c : Bytes) (body : Body)
    (leftover : Bytes) (p : Playout)
    → p.cancelled ≡ false
    → IsInterrupted (stream_chunks (before ++ (es ++ barges_in ∷ later, c) ∷ after) body leftover p)
stream-IsInterrupted [] after es later c body leftover p on =
    silent (es ++ barges_in ∷ later) c after body leftover p (barge-IsSilent es later p)
stream-IsInterrupted ((events, chunk) ∷ before) after es later c body leftover p on =
    let rest = before ++ (es ++ barges_in ∷ later, c) ∷ after in
    let now = happen_all events p in
    elim (happen_all-cancelled events p on) [
      | inr off ↦ silent events chunk rest body leftover p off
      | inl still ↦ elim (Bool-cases now.stopped) [
        | inl stopped ↦
            subst IsInterrupted
              (sym (interrupt events chunk rest body leftover p (ground (arith, stopped))))
              (refl, inr stopped)
        | inr going ↦
            let fuel = length (leftover ++ chunk) in
            let r = cut_frames fuel (leftover ++ chunk) now in
            subst IsInterrupted (sym (proceed events chunk rest body leftover p still going)) (
              stream-IsInterrupted before after es later c body r.0 r.1
                (cut_frames-IsOn fuel (leftover ++ chunk) now (still, going)).0)
      ]
    ]

-- A speech that is synthesized, whose stream has a barge-in before one of its chunks.
abbrev pub barged_speech :
    List (List Event × Bytes)
    → List Event
    → List Event
    → Bytes
    → List (List Event × Bytes)
    → List Event
    → Bool
    → SpeechRequest
barged_speech before es later c after last fails = record {
  audio = [];
  response = answered 200 (record {
    chunks = before ++ (es ++ barges_in ∷ later, c) ∷ after;
    last = last;
    fails = fails;
  });
}

-- After a speech whose stream has a barge-in before one of its chunks, no frame waits to be played,
-- or the pipeline was stopped.
pub speak-silent :
    (before after : List (List Event × Bytes)) (es later last : List Event) (c : Bytes)
    (fails : Bool) (p : Playout)
    → ((speak (barged_speech before es later c after last fails) p).frames_out ≡ [])
      ⊎ ((speak (barged_speech before es later c after last fails) p).stopped ≡ true)
unfolding speak stream_tts
speak-silent before after es later last c fails p =
    let chunks = before ++ (es ++ barges_in ∷ later, c) ∷ after in
    let body : Body = record { chunks = chunks; last = last; fails = fails } in
    (stream-IsInterrupted before after es later c body [] (start_speech p) refl).1
