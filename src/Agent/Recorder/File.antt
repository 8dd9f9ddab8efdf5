-- ===== src/Agent/Recorder/File.antt =====
-- The wave file that recorder.py leaves, against the mix of the two whole sides of the call.
use aipanel.Base.{
  ℕ, ◌≤◌, ◌<◌, ◌≡◌, refl, sym, ap, subst, ◌∙◌, Bool, true, false, ◌||◌, List, [], ◌∷◌, ◌++◌, Option,
  none, some, length, length-drop, take, drop, take-append-drop, min, max, nat_eq, append_assoc,
  append-nil, if-true, if-false, arith, either_way, Bool-cases, is_some, not, inl, inr,
}
use aipanel.Sip.Frame.Wire.{Bytes}
use aipanel.Agent.Recorder.{
  Recorder, mix_pairs, writeframes, whole_samples, emit_paired, emit_solo, pair, mix_and_write,
  write_inbound, write_outbound, close, new, open_file, Said, caller, agent, hear,
}
use aipanel.Agent.Recorder.Mixing.{
  mixed, IsPaired, IsPaired-append, mix_pairs-append, mixed-append, take-IsPaired, whole-even,
  longer, solo-mixed,
}

-- What has come in so far is in the file, mixed, or waits in the buffers.
abbrev IsMix : Bool → Bytes → Bytes → Recorder → Type 0
IsMix closed xs ys r =
    (done_in : Bytes) × (done_out : Bytes) × IsPaired done_in done_out
    × (xs ≡ done_in ++ r.inbound)
    × (ys ≡ done_out ++ r.outbound)
    × (r.wave ≡ some (mix_pairs done_in done_out))
    × (r.closed ≡ closed)

emit_paired-IsMix :
    (closed : Bool) (n : ℕ) (xs ys : Bytes) (r : Recorder)
    → n ≤ length r.inbound
    → n ≤ length r.outbound
    → IsMix closed xs ys r
    → IsMix closed xs ys (emit_paired n r)
unfolding emit_paired
emit_paired-IsMix closed n xs ys r le le' (din, dout, paired, ein, eout, ewave, eclosed) =
    let k = whole_samples n in
    let now = take k r.inbound in
    let now' = take k r.outbound in
    let both =
      take-IsPaired k r.inbound r.outbound (whole-even n) (omega (arith, le))
        (omega (arith, le')) in
    either_way (IsMix closed xs ys) (nat_eq k 0) r
      (record r {
        inbound = drop k r.inbound;
        outbound = drop k r.outbound;
        wave = writeframes (mix_pairs now now') r.wave;
      })
      (din, dout, paired, ein, eout, ewave, eclosed)
      (
        din ++ now,
        dout ++ now',
        IsPaired-append din dout now now' paired both,
        ein
            ∙ ap (λ rest. din ++ rest) (sym (take-append-drop k r.inbound))
            ∙ sym (append_assoc din now (drop k r.inbound)),
        eout
            ∙ ap (λ rest. dout ++ rest) (sym (take-append-drop k r.outbound))
            ∙ sym (append_assoc dout now' (drop k r.outbound)),
        ap (writeframes (mix_pairs now now')) ewave
            ∙ ap some (sym (mix_pairs-append din dout now now' paired)),
        eclosed,
      )

pair-IsMix :
    (closed : Bool) (xs ys : Bytes) (r : Recorder)
    → IsMix closed xs ys r
    → IsMix closed xs ys (pair r)
pair-IsMix closed xs ys r m =
    let n = min (length r.inbound) (length r.outbound) in
    either_way (IsMix closed xs ys) (nat_eq n 0) r (emit_paired n r) m
      (emit_paired-IsMix closed n xs ys r (omega arith) (omega arith) m)

write_inbound-IsMix :
    (pcm xs ys : Bytes) (r : Recorder)
    → IsMix false xs ys r
    → IsMix false (xs ++ pcm) ys (write_inbound pcm r)
unfolding write_inbound mix_and_write
write_inbound-IsMix pcm xs ys r (din, dout, paired, ein, eout, ewave, eclosed) =
    let heard = record r { inbound = r.inbound ++ pcm } in
    subst (IsMix false (xs ++ pcm) ys)
      (sym (
        if-false (r.closed || not (is_some r.wave)) r (pair heard)
          (ground (arith, ewave, eclosed))))
      (pair-IsMix false (xs ++ pcm) ys heard (
        din,
        dout,
        paired,
        ap (λ b. b ++ pcm) ein ∙ append_assoc din r.inbound pcm,
        eout,
        ewave,
        eclosed,
      ))

write_outbound-IsMix :
    (pcm xs ys : Bytes) (r : Recorder)
    → IsMix false xs ys r
    → IsMix false xs (ys ++ pcm) (write_outbound pcm r)
unfolding write_outbound mix_and_write
write_outbound-IsMix pcm xs ys r (din, dout, paired, ein, eout, ewave, eclosed) =
    let heard = record r { outbound = r.outbound ++ pcm } in
    subst (IsMix false xs (ys ++ pcm))
      (sym (
        if-false (r.closed || not (is_some r.wave)) r (pair heard)
          (ground (arith, ewave, eclosed))))
      (pair-IsMix false xs (ys ++ pcm) heard (
        din,
        dout,
        paired,
        ein,
        ap (λ b. b ++ pcm) eout ∙ append_assoc dout r.outbound pcm,
        ewave,
        eclosed,
      ))

-- All that one side said: the caller's for true.
abbrev pub side : Bool → List Said → Bytes
side of_caller [] = []
side true (caller pcm ∷ said) = pcm ++ side true said
side true (agent pcm ∷ said) = side true said
side false (caller pcm ∷ said) = side false said
side false (agent pcm ∷ said) = pcm ++ side false said

abbrev IsShort : Recorder → Type 0
IsShort r = min (length r.inbound) (length r.outbound) < 2

emit_paired-IsShort :
    (n : ℕ) (r : Recorder)
    → n ≡ min (length r.inbound) (length r.outbound)
    → IsShort (emit_paired n r)
unfolding emit_paired
emit_paired-IsShort n r size = elim (Bool-cases (nat_eq (whole_samples n) 0)) [
  | inl few ↦ rw few (ground (arith, few, size))
  | inr many ↦ rw many (
      omega (
        arith,
        size,
        length-drop (whole_samples n) r.inbound,
        length-drop (whole_samples n) r.outbound,
      ))
]

-- After pairing, one of the buffers has no whole sample.
pair-IsShort : (r : Recorder) → IsShort (pair r)
pair-IsShort r =
    let n = min (length r.inbound) (length r.outbound) in
    elim (Bool-cases (nat_eq n 0)) [
      | inl empty ↦ rw empty (ground (arith, empty))
      | inr more ↦ rw more (emit_paired-IsShort n r refl)
    ]

abbrev rest_of : Recorder → Bytes
rest_of r =
    take (whole_samples (max (length r.inbound) (length r.outbound))) (longer r.inbound r.outbound)

flushed :
    (xs ys : Bytes) (r : Recorder)
    → IsMix true xs ys r
    → IsShort r
    → writeframes (rest_of r) r.wave ≡ some (mixed xs ys)
flushed xs ys r (din, dout, paired, ein, eout, ewave, eclosed) short =
    ap (writeframes (rest_of r)) ewave
    ∙ ap (λ rest. some (mix_pairs din dout ++ rest)) (solo-mixed r.inbound r.outbound short)
    ∙ ap some (sym (mixed-append din dout r.inbound r.outbound paired))
    ∙ ap (λ b. some (mixed b (dout ++ r.outbound))) (sym ein)
    ∙ ap (λ b. some (mixed xs b)) (sym eout)

writeframes-nil : (w : Option Bytes) → writeframes [] w ≡ w
writeframes-nil none = refl
writeframes-nil (some b) = ap some (append-nil b)

-- Where there is no whole sample to flush, all is written already.
flushed_nothing :
    (xs ys : Bytes) (r : Recorder)
    → IsMix true xs ys r
    → IsShort r
    → whole_samples (max (length r.inbound) (length r.outbound)) ≡ 0
    → r.wave ≡ some (mixed xs ys)
flushed_nothing xs ys r m short none_left =
    sym (writeframes-nil r.wave)
    ∙ ap (λ n. writeframes (take n (longer r.inbound r.outbound)) r.wave) (sym none_left)
    ∙ flushed xs ys r m short

emit_solo-wave :
    (xs ys : Bytes) (r : Recorder)
    → IsMix true xs ys r
    → IsShort r
    → (emit_solo (max (length r.inbound) (length r.outbound)) r).wave ≡ some (mixed xs ys)
unfolding emit_solo
emit_solo-wave xs ys r m short =
    let n = whole_samples (max (length r.inbound) (length r.outbound)) in
    elim (Bool-cases (nat_eq n 0)) [
      | inl few ↦ rw few (flushed_nothing xs ys r m short (ground (arith, few)))
      | inr many ↦ rw many (flushed xs ys r m short)
    ]

flush-wave :
    (xs ys : Bytes) (r : Recorder)
    → IsMix true xs ys r
    → (mix_and_write true r).wave ≡ some (mixed xs ys)
unfolding mix_and_write
flush-wave xs ys r m =
    let now = pair r in
    let m' = pair-IsMix true xs ys r m in
    let n = max (length now.inbound) (length now.outbound) in
    elim (Bool-cases (nat_eq n 0)) [
      | inl empty ↦
          ap (λ (q : Recorder). q.wave) (if-true (nat_eq n 0) now (emit_solo n now) empty)
          ∙ flushed_nothing xs ys now m' (pair-IsShort r) (ground (arith, empty))
      | inr more ↦
          ap (λ (q : Recorder). q.wave) (if-false (nat_eq n 0) now (emit_solo n now) more)
          ∙ emit_solo-wave xs ys now m' (pair-IsShort r)
    ]

close-wave :
    (xs ys : Bytes) (r : Recorder) → IsMix false xs ys r → (close r).wave ≡ some (mixed xs ys)
unfolding close
close-wave xs ys r (din, dout, paired, ein, eout, ewave, eclosed) =
    let closing = record r { closed = true } in
    ap (λ (q : Recorder). q.wave) (if-false r.closed r (mix_and_write true closing) eclosed)
    ∙ flush-wave xs ys closing (din, dout, paired, ein, eout, ewave, refl)

hear-IsMix :
    (said : List Said) (xs ys : Bytes) (r : Recorder)
    → IsMix false xs ys r
    → IsMix false (xs ++ side true said) (ys ++ side false said) (hear said r)
unfolding hear
hear-IsMix [] xs ys r m =
    subst (λ b. IsMix false b (ys ++ []) r) (sym (append-nil xs))
      (subst (λ b. IsMix false xs b r) (sym (append-nil ys)) m)
hear-IsMix (caller pcm ∷ said) xs ys r m =
    subst (λ b. IsMix false b (ys ++ side false said) (hear said (write_inbound pcm r)))
      (append_assoc xs pcm (side true said))
      (hear-IsMix said (xs ++ pcm) ys (write_inbound pcm r) (write_inbound-IsMix pcm xs ys r m))
hear-IsMix (agent pcm ∷ said) xs ys r m =
    subst (λ b. IsMix false (xs ++ side true said) b (hear said (write_outbound pcm r)))
      (append_assoc ys pcm (side false said))
      (hear-IsMix said xs (ys ++ pcm) (write_outbound pcm r) (write_outbound-IsMix pcm xs ys r m))

-- However what the caller and the agent say is cut into pieces, and in whatever order the pieces come:
-- the file of the closed recorder holds the mix of all that the one said with all that the other said.
pub close-mixed :
    (said : List Said)
    → (close (hear said (open_file new))).wave ≡ some (mixed (side true said) (side false said))
unfolding open_file mix_pairs
close-mixed said =
    close-wave (side true said) (side false said) (hear said (open_file new))
      (hear-IsMix said [] [] (open_file new) ([], [], tt, refl, refl, refl, refl))
