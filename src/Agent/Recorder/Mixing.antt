-- ===== src/Agent/Recorder/Mixing.antt =====
-- The loop of `_emit_paired` of recorder.py, and the mix of two whole sides of a call.
use aipanel.Base.{
  ℕ, zero, suc, ◌%◌, ◌≤◌, ◌<◌, ◌≡◌, refl, sym, ap, ◌∙◌, [], ◌∷◌, ◌++◌, length, take, min, max, leb,
  append_assoc, if-true, if-false, arith, if◌then◌else◌,
}
use aipanel.Sip.Frame.Wire.{Bytes}
use aipanel.Agent.Recorder.{unpack_sample, pack_sample, mix_sample, mix_pairs, whole_samples}

-- The whole samples of some bytes.
abbrev pub samples : Bytes → Bytes
samples [] = []
samples (a ∷ []) = []
samples (a ∷ a' ∷ xs) = a ∷ a' ∷ samples xs

-- The mix of two whole sides: summed while both go on, and then the rest of the longer.
abbrev pub mixed : Bytes → Bytes → Bytes
mixed (a ∷ a' ∷ xs) (b ∷ b' ∷ ys) =
    pack_sample (mix_sample (unpack_sample a a') (unpack_sample b b')) ++ mixed xs ys
mixed [] ys = samples ys
mixed (a ∷ []) ys = samples ys
mixed (a ∷ a' ∷ xs) [] = samples (a ∷ a' ∷ xs)
mixed (a ∷ a' ∷ xs) (b ∷ []) = samples (a ∷ a' ∷ xs)

-- Two buffers that are equally long and hold whole samples.
abbrev pub IsPaired : Bytes → Bytes → Type 0
IsPaired [] [] = Unit
IsPaired (a ∷ a' ∷ xs) (b ∷ b' ∷ ys) = IsPaired xs ys
IsPaired [] (b ∷ ys) = ⊥
IsPaired (a ∷ []) ys = ⊥
IsPaired (a ∷ a' ∷ xs) [] = ⊥
IsPaired (a ∷ a' ∷ xs) (b ∷ []) = ⊥

pub IsPaired-append :
    (xs ys zs ws : Bytes) → IsPaired xs ys → IsPaired zs ws → IsPaired (xs ++ zs) (ys ++ ws)
IsPaired-append [] [] zs ws p q = q
IsPaired-append (a ∷ a' ∷ xs) (b ∷ b' ∷ ys) zs ws p q = IsPaired-append xs ys zs ws p q
IsPaired-append [] (b ∷ ys) zs ws bad q = absurd bad
IsPaired-append (a ∷ []) ys zs ws bad q = absurd bad
IsPaired-append (a ∷ a' ∷ xs) [] zs ws bad q = absurd bad
IsPaired-append (a ∷ a' ∷ xs) (b ∷ []) zs ws bad q = absurd bad

pub mix_pairs-append :
    (xs ys zs ws : Bytes)
    → IsPaired xs ys
    → mix_pairs (xs ++ zs) (ys ++ ws) ≡ mix_pairs xs ys ++ mix_pairs zs ws
unfolding mix_pairs
mix_pairs-append [] [] zs ws p = refl
mix_pairs-append (a ∷ a' ∷ xs) (b ∷ b' ∷ ys) zs ws p =
    let sample = pack_sample (mix_sample (unpack_sample a a') (unpack_sample b b')) in
    ap (λ rest. sample ++ rest) (mix_pairs-append xs ys zs ws p)
    ∙ sym (append_assoc sample (mix_pairs xs ys) (mix_pairs zs ws))
mix_pairs-append [] (b ∷ ys) zs ws bad = absurd bad
mix_pairs-append (a ∷ []) ys zs ws bad = absurd bad
mix_pairs-append (a ∷ a' ∷ xs) [] zs ws bad = absurd bad
mix_pairs-append (a ∷ a' ∷ xs) (b ∷ []) zs ws bad = absurd bad

pub mixed-append :
    (xs ys zs ws : Bytes)
    → IsPaired xs ys
    → mixed (xs ++ zs) (ys ++ ws) ≡ mix_pairs xs ys ++ mixed zs ws
unfolding mix_pairs
mixed-append [] [] zs ws p = refl
mixed-append (a ∷ a' ∷ xs) (b ∷ b' ∷ ys) zs ws p =
    let sample = pack_sample (mix_sample (unpack_sample a a') (unpack_sample b b')) in
    ap (λ rest. sample ++ rest) (mixed-append xs ys zs ws p)
    ∙ sym (append_assoc sample (mix_pairs xs ys) (mixed zs ws))
mixed-append [] (b ∷ ys) zs ws bad = absurd bad
mixed-append (a ∷ []) ys zs ws bad = absurd bad
mixed-append (a ∷ a' ∷ xs) [] zs ws bad = absurd bad
mixed-append (a ∷ a' ∷ xs) (b ∷ []) zs ws bad = absurd bad

-- A prefix of whole samples of two buffers.
pub take-IsPaired :
    (n : ℕ) (xs ys : Bytes)
    → n % 2 ≡ 0
    → n ≤ length xs
    → n ≤ length ys
    → IsPaired (take n xs) (take n ys)
take-IsPaired zero xs ys even le le' = tt
take-IsPaired (suc zero) xs ys even le le' = absurd (omega (arith, even))
take-IsPaired (suc (suc n)) (a ∷ a' ∷ xs) (b ∷ b' ∷ ys) even le le' =
    take-IsPaired n xs ys (omega (arith, even)) (omega (arith, le)) (omega (arith, le'))
take-IsPaired (suc (suc n)) [] ys even le le' = absurd (omega (arith, le))
take-IsPaired (suc (suc n)) (a ∷ []) ys even le le' = absurd (omega (arith, le))
take-IsPaired (suc (suc n)) (a ∷ a' ∷ xs) [] even le le' = absurd (omega (arith, le'))
take-IsPaired (suc (suc n)) (a ∷ a' ∷ xs) (b ∷ []) even le le' = absurd (omega (arith, le'))

pub whole-even : (n : ℕ) → whole_samples n % 2 ≡ 0
whole-even n = omega arith

samples-take : (xs : Bytes) → take (whole_samples (length xs)) xs ≡ samples xs
samples-take [] = refl
samples-take (a ∷ []) = refl
samples-take (a ∷ a' ∷ xs) =
    let n : whole_samples (suc (suc (length xs))) ≡ suc (suc (whole_samples (length xs))) =
      omega arith in
    ap (λ n. take n (a ∷ a' ∷ xs)) n ∙ ap (λ rest. a ∷ a' ∷ rest) (samples-take xs)

abbrev pub longer : Bytes → Bytes → Bytes
longer xs ys = if leb (length ys) (length xs) then xs else ys

longer-samples :
    (xs ys zs : Bytes)
    → longer xs ys ≡ zs
    → max (length xs) (length ys) ≡ length zs
    → take (whole_samples (max (length xs) (length ys))) (longer xs ys) ≡ samples zs
longer-samples xs ys zs e size =
    ap (λ n. take (whole_samples n) (longer xs ys)) size
    ∙ ap (take (whole_samples (length zs))) e
    ∙ samples-take zs

outbound_longer :
    (xs ys : Bytes)
    → length xs < length ys
    → take (whole_samples (max (length xs) (length ys))) (longer xs ys) ≡ samples ys
outbound_longer xs ys lt =
    longer-samples xs ys ys (if-false (leb (length ys) (length xs)) xs ys (ground (arith, lt)))
      (omega (arith, lt))

inbound_longer :
    (xs ys : Bytes)
    → length ys ≤ length xs
    → take (whole_samples (max (length xs) (length ys))) (longer xs ys) ≡ samples xs
inbound_longer xs ys le =
    longer-samples xs ys xs (if-true (leb (length ys) (length xs)) xs ys (ground (arith, le)))
      (omega (arith, le))

-- Where one of the buffers has no whole sample, the mix is what is written for the longer.
pub solo-mixed :
    (xs ys : Bytes)
    → min (length xs) (length ys) < 2
    → take (whole_samples (max (length xs) (length ys))) (longer xs ys) ≡ mixed xs ys
solo-mixed [] [] h = inbound_longer [] [] (omega arith)
solo-mixed [] (b ∷ ys) h = outbound_longer [] (b ∷ ys) (omega arith)
solo-mixed (a ∷ []) [] h = inbound_longer (a ∷ []) [] (omega arith)
solo-mixed (a ∷ []) (b ∷ []) h = inbound_longer (a ∷ []) (b ∷ []) (omega arith)
solo-mixed (a ∷ []) (b ∷ b' ∷ ys) h = outbound_longer (a ∷ []) (b ∷ b' ∷ ys) (omega arith)
solo-mixed (a ∷ a' ∷ xs) [] h = inbound_longer (a ∷ a' ∷ xs) [] (omega arith)
solo-mixed (a ∷ a' ∷ xs) (b ∷ []) h = inbound_longer (a ∷ a' ∷ xs) (b ∷ []) (omega arith)
solo-mixed (a ∷ a' ∷ xs) (b ∷ b' ∷ ys) h = absurd (omega (arith, h))
