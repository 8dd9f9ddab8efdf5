-- ===== src/Sip/Bridge/Effects.antt =====
-- What the reader thread makes of the frames that the worker means to send.
use aipanel.Base.{
  ℕ, ◌+◌, ◌≤◌, ◌<◌, ◌≡◌, refl, sym, ap, subst, ◌∙◌, append-nil, Bool, not, ◌&&◌, false, List, [],
  ◌∷◌, ◌++◌, some, length, is_empty, nat_eq, if◌then◌else◌, arith, Bool-cases, inl, inr,
}
use aipanel.Sip.Frame.Wire.{Bytes}
use aipanel.Sip.Frame.Stream.{Socket, IsStream, content}
use aipanel.Sip.Frame.{Frame}
use aipanel.Sip.Bridge.{Bridge}
use aipanel.Sip.Bridge.Loops.{Next, again, return, escape, on_frame, on_read, read_loop}
use aipanel.Sip.Bridge.Reader.{
  Ended, Encodes, hangs_up, Next-cases, after_frame, rounds, read_loop-rounds,
}
use aipanel.Sip.Bridge.Heard.{
  payloads, newest, heard, heard-nil, heard-nothing, heard-more, deque_append-newest,
  count_drop_lem, parts_eq, newest-fits, length-newest,
}

-- A frame before others, where it ends the loop in this way or goes on.
abbrev ahead : Next → Frame → List Frame × Next → List Frame × Next
ahead again f (fs, next) = (f ∷ fs, next)
ahead return f rest = ([], return)
ahead escape f rest = ([], escape)

module _ (is_refused : Bytes → Bool) where
  -- How a frame of the protocol ends the loop, if it does.
  abbrev ending : Frame → Next
  ending (t, p) =
      if nat_eq t 0x11
      then return
      else if nat_eq t 0x10 && not (is_refused p)
      then escape
      else again

  -- The specification: the frames up to the first that ends the loop, and how it ends; the end of the file
  -- is a hangup.
  abbrev before_end : List Frame → List Frame × Next
  before_end [] = ([], return)
  before_end (f ∷ fs) = ahead (ending f) f (before_end fs)

  abbrev pub serve : List Frame → Bridge → Ended
  serve fs b = let (before, next) = before_end fs in (heard before (hangs_up next) b, next)

  audio-again :
      (p : Bytes) (b : Bridge)
      → length b.outbound ≤ 50
      → on_frame is_refused (0x02, p) b ≡ (heard ((0x02, p) ∷ []) 0 b, again)
  unfolding on_frame
  audio-again p b le = elim (Bool-cases (is_empty p)) [
    | inl empty ↦ rw empty (ap (λ c. (c, again)) (sym (heard-nothing b le)))
    | inr full ↦ rw full (
        ap (λ c. (c, again))
          (parts_eq b (deque_append-newest b.outbound p le) (count_drop_lem b.outbound b.dropped le)
            (sym (append-nil b.dtmf)) (omega arith)))
  ]

  dtmf-again :
      (p : Bytes) (b : Bridge)
      → length b.outbound ≤ 50
      → on_frame is_refused (0x12, p) b ≡ (heard ((0x12, p) ∷ []) 0 b, again)
  unfolding on_frame
  dtmf-again p b le =
      let kept = sym (ap newest (append-nil b.outbound) ∙ newest-fits b.outbound le) in
      elim (Bool-cases (is_empty p)) [
        | inl empty ↦ rw empty (ap (λ c. (c, again)) (sym (heard-nothing b le)))
        | inr full ↦
            rw full (ap (λ c. (c, again)) (parts_eq b kept (omega (arith, le)) refl (omega arith)))
      ]

  -- A frame that does not end the loop.
  on_frame-again :
      (f : Frame) (b : Bridge)
      → length b.outbound ≤ 50
      → ending f ≡ again
      → on_frame is_refused f b ≡ (heard (f ∷ []) 0 b, again)
  unfolding on_frame
  on_frame-again (t, p) b le on = elim (Bool-cases (nat_eq t 0x02)) [
    | inl audio ↦
        let two : 0x02 ≡ t = ground (arith, audio) in
        subst (λ u. on_frame is_refused (u, p) b ≡ (heard ((u, p) ∷ []) 0 b, again)) two
          (audio-again p b le)
    | inr speechless ↦ elim (Bool-cases (nat_eq t 0x12)) [
      | inl key ↦
          let dtmf : 0x12 ≡ t = ground (arith, key) in
          subst (λ u. on_frame is_refused (u, p) b ≡ (heard ((u, p) ∷ []) 0 b, again)) dtmf
            (dtmf-again p b le)
      | inr keyless ↦
          let quiet : on_frame is_refused (t, p) b ≡ (b, again) =
            ground (arith, speechless, keyless, on) in
          let nothing_heard : heard ((t, p) ∷ []) 0 b ≡ heard [] 0 b =
            rw (speechless, keyless) refl in
          quiet ∙ ap (λ c. (c, again)) (sym (nothing_heard ∙ heard-nothing b le))
    ]
  ]

  -- A frame that ends the loop.
  on_frame-return :
      (f : Frame) (b : Bridge)
      → ending f ≡ return
      → on_frame is_refused f b ≡ (record b { hangups = b.hangups + 1 }, return)
  unfolding on_frame
  on_frame-return (t, p) b off = ground (arith, off)

  on_frame-escape :
      (f : Frame) (b : Bridge) → ending f ≡ escape → on_frame is_refused f b ≡ (b, escape)
  unfolding on_frame
  on_frame-escape (t, p) b off = ground (arith, off)

  before_end-again :
      (f : Frame) (fs : List Frame)
      → ending f ≡ again
      → before_end (f ∷ fs) ≡ (f ∷ (before_end fs).0, (before_end fs).1)
  before_end-again f fs on = ap (λ n. ahead n f (before_end fs)) on

  before_end-return :
      (f : Frame) (fs : List Frame) → ending f ≡ return → before_end (f ∷ fs) ≡ ([], return)
  before_end-return f fs off = ap (λ n. ahead n f (before_end fs)) off

  before_end-escape :
      (f : Frame) (fs : List Frame) → ending f ≡ escape → before_end (f ∷ fs) ≡ ([], escape)
  before_end-escape f fs out = ap (λ n. ahead n f (before_end fs)) out

  rounds-serve :
      (fs : List Frame) (b : Bridge) → length b.outbound ≤ 50 → rounds is_refused fs b ≡ serve fs b
  unfolding rounds after_frame on_read
  rounds-serve [] b le = ap (λ c. (c, return)) (sym (heard-nil b 1 le))
  rounds-serve (f ∷ fs) b le =
      let after : Ended → Ended = λ e. after_frame is_refused e (rounds is_refused fs) in
      let served : List Frame × Next → Ended = λ e. (heard e.0 (hangs_up e.1) b, e.1) in
      elim (Next-cases is_refused (ending f)) [
        | inl on ↦
            let kept = length-newest (b.outbound ++ payloads 0x02 (f ∷ [])) in
            ap after (on_frame-again f b le on)
            ∙ rounds-serve fs (heard (f ∷ []) 0 b) (omega (arith, kept))
            ∙ ap (λ c. (c, (before_end fs).1))
                (heard-more f (before_end fs).0 (hangs_up (before_end fs).1) b le)
            ∙ ap served (sym (before_end-again f fs on))
        | inr (inl off) ↦
            ap after (on_frame-return f b off)
            ∙ ap (λ c. (c, return)) (sym (heard-nil b 1 le))
            ∙ ap served (sym (before_end-return f fs off))
        | inr (inr out) ↦
            ap after (on_frame-escape f b out)
            ∙ ap (λ c. (c, escape)) (sym (heard-nothing b le))
            ∙ ap served (sym (before_end-escape f fs out))
      ]

  -- On a bridge that is not shut down and has at most 50 frames for the caller, where the worker sends
  -- encoded frames and then closes, however its bytes arrive: with fuel for one round more than there are
  -- frames, the read loop ends as the first hangup or the first control frame that raises makes it, or with
  -- the end of the file. Of the frames before that, the audio is put behind what waits for the caller, of
  -- which the newest 50 are kept and the others counted as dropped, and the digits are passed on in order;
  -- a hangup is counted once, where the loop returns.
  pub read_loop-serve :
      {fs : List Frame} {wire : Bytes} (enc : Encodes fs wire) (fuel : ℕ) (b : Bridge) (s : Socket)
      → length fs < fuel
      → b.shutdown ≡ false
      → length b.outbound ≤ 50
      → IsStream s
      → content s ≡ wire
      → read_loop is_refused fuel b s ≡ some (serve fs b)
  read_loop-serve {fs} enc fuel b s f up le st c =
      read_loop-rounds is_refused enc fuel b s f up st c ∙ ap (λ e. some e) (rounds-serve fs b le)
