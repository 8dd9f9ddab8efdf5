-- ===== src/Sip/Bridge/Reader.antt =====
-- The reader thread against the frames that the worker means to send.
use aipanel.Base.{
  ℕ, zero, suc, ◌+◌, ◌<◌, ◌≡◌, refl, sym, ap, Bool, ◌∙◌, ◌⊎◌, inl, inr, false, List, [], ◌∷◌, ◌++◌,
  Option, none, some, length, arith,
}
use aipanel.Sip.Frame.Wire.{Bytes}
use aipanel.Sip.Frame.Stream.{Socket, IsStream, content}
use aipanel.Sip.Frame.{Frame, ok, encode_frame, read_frame, read_after}
use aipanel.Sip.Frame.Peer.{recv_exact_short}
use aipanel.Sip.Frame.RoundTrip.{read-encode}
use aipanel.Sip.Bridge.{Bridge}
use aipanel.Sip.Bridge.Loops.{Next, again, return, escape, on_frame, on_read, read_loop}

-- Where the loop ends.
abbrev pub Ended : Type 0
Ended = Bridge × Next

-- The wire for a list of frames.
pub data Encodes : List Frame → Bytes → Type 0 where
  nothing : Encodes [] []
  frame :
      {t : ℕ} {p wire rest : Bytes} {fs : List Frame}
      → encode_frame t p ≡ ok wire
      → Encodes fs rest
      → Encodes ((t, p) ∷ fs) (wire ++ rest)

read_frame_eof :
    (s : Socket) → IsStream s → content s ≡ [] → read_frame s ≡ (none, (read_frame s).1)
unfolding read_frame read_after
read_frame_eof s st c =
    let short = recv_exact_short 5 s st (omega (arith, ap length c)) in ground (arith, short)

-- What a round does to the count of hangups.
abbrev pub hangs_up : Next → ℕ
hangs_up again = 0
hangs_up return = 1
hangs_up escape = 0

-- The loop has returned after one call of `on_worker_hangup`, or an exception has ended it without one.
abbrev pub HasEnded : Bridge → Ended → Type 0
HasEnded b (b', next) =
    ((next ≡ return) × (b'.hangups ≡ b.hangups + 1)) ⊎ ((next ≡ escape) × (b'.hangups ≡ b.hangups))

module _ (is_refused : Bytes → Bool) where
  -- The rounds of the loop over whole frames.
  unfoldable pub after_frame : Ended → (Bridge → Ended) → Ended
  after_frame (b, again) rest = rest b
  after_frame (b, return) rest = (b, return)
  after_frame (b, escape) rest = (b, escape)

  unfoldable pub rounds : List Frame → Bridge → Ended
  rounds [] b = on_read is_refused none b
  rounds (f ∷ fs) b = after_frame (on_frame is_refused f b) (rounds fs)

  on_read-shutdown :
      (f : Option Frame) (b : Bridge) → (on_read is_refused f b).0.shutdown ≡ b.shutdown
  unfolding on_read
  on_read-shutdown none b = refl
  on_read-shutdown (some (t, p)) b = ground arith

  read_loop_again :
      (fuel : ℕ) (b m : Bridge) (s rest : Socket) (f : Option Frame)
      → b.shutdown ≡ false
      → read_frame s ≡ (f, rest)
      → on_read is_refused f b ≡ (m, again)
      → read_loop is_refused (suc fuel) b s ≡ read_loop is_refused fuel m rest
  unfolding read_loop
  read_loop_again fuel b m s rest f up r o = ground (arith, r, o)

  read_loop_return :
      (fuel : ℕ) (b m : Bridge) (s rest : Socket) (f : Option Frame)
      → b.shutdown ≡ false
      → read_frame s ≡ (f, rest)
      → on_read is_refused f b ≡ (m, return)
      → read_loop is_refused (suc fuel) b s ≡ some (m, return)
  unfolding read_loop
  read_loop_return fuel b m s rest f up r o = ground (arith, r, o)

  read_loop_escape :
      (fuel : ℕ) (b m : Bridge) (s rest : Socket) (f : Option Frame)
      → b.shutdown ≡ false
      → read_frame s ≡ (f, rest)
      → on_read is_refused f b ≡ (m, escape)
      → read_loop is_refused (suc fuel) b s ≡ some (m, escape)
  unfolding read_loop
  read_loop_escape fuel b m s rest f up r o = ground (arith, r, o)

  pub Next-cases : (n : Next) → (n ≡ again) ⊎ ((n ≡ return) ⊎ (n ≡ escape))
  Next-cases again = inl refl
  Next-cases return = inr (inl refl)
  Next-cases escape = inr (inr refl)

  -- The loop makes these rounds, however the bytes arrive.
  pub read_loop-rounds :
      {fs : List Frame} {wire : Bytes} (enc : Encodes fs wire) (fuel : ℕ) (b : Bridge) (s : Socket)
      → length fs < fuel
      → b.shutdown ≡ false
      → IsStream s
      → content s ≡ wire
      → read_loop is_refused fuel b s ≡ some (rounds fs b)
  unfolding rounds on_read after_frame
  read_loop-rounds enc zero b s f up st c = absurd (omega arith)
  read_loop-rounds nothing (suc fuel) b s f up st c =
      read_loop_return fuel b (on_read is_refused none b).0 s (read_frame s).1 none up
        (read_frame_eof s st c) refl
  read_loop-rounds (frame {t} {p} {wire = w} {rest = ws} {fs} e enc) (suc fuel) b s f up st c =
      let (rest, r, st', c') = read-encode t p w ws s e st c in
      let m = (on_frame is_refused (t, p) b).0 in
      elim (Next-cases (on_frame is_refused (t, p) b).1) [
        | inl on ↦
            read_loop_again fuel b m s rest (some (t, p)) up r (ap (λ n. (m, n)) on)
            ∙ read_loop-rounds enc fuel m rest (omega arith) (on_read-shutdown (some (t, p)) b ∙ up)
                st' c'
            ∙ ap (λ n. some (after_frame (m, n) (rounds fs))) (sym on)
        | inr (inl off) ↦
            read_loop_return fuel b m s rest (some (t, p)) up r (ap (λ n. (m, n)) off)
            ∙ ap (λ n. some (after_frame (m, n) (rounds fs))) (sym off)
        | inr (inr out) ↦
            read_loop_escape fuel b m s rest (some (t, p)) up r (ap (λ n. (m, n)) out)
            ∙ ap (λ n. some (after_frame (m, n) (rounds fs))) (sym out)
      ]
