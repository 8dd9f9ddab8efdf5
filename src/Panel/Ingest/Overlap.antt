-- ===== src/Panel/Ingest/Overlap.antt =====
-- What the chunks of panel/backend/src/aipanel/jobs/kb_ingest_job.py hold of a document.
use aipanel.Base.{
  ℕ, ◌+◌, ◌≤◌, ◌<◌, ◌≡◌, ◌⊎◌, inl, inr, refl, sym, ap, subst, ◌∙◌, Text, true, false, not, ◌&&◌,
  List, [], ◌∷◌, ◌++◌, append_assoc, length, length-append, is_empty, ltb, if-false, arith,
  Bool-cases,
}
use mathlib.Core.List.{reverse, reverse-append, reverse-cons, reverse-reverse}
use aipanel.Panel.Ingest.{approx_tokens, tail_from, tokens, chunk_loop}

tokens-append : (xs ys : List Text) → tokens (xs ++ ys) ≡ tokens xs + tokens ys
tokens-append [] ys = omega arith
tokens-append (x ∷ xs) ys = omega (arith, tokens-append xs ys)

tokens-reverse : (xs : List Text) → tokens (reverse xs) ≡ tokens xs
tokens-reverse [] = refl
tokens-reverse (x ∷ xs) =
    ap tokens (reverse-cons x xs)
    ∙ omega (arith, tokens-append (reverse xs) (x ∷ []), tokens-reverse xs)

-- The end of a list.
abbrev IsSuffix : List Text → List Text → Type 0
IsSuffix end all = (front : List Text) × (all ≡ front ++ end)

-- What `tail_from` keeps is a prefix with few tokens.
tail_from-prefix :
    (overlap : ℕ) (xs : List Text) (tok : ℕ)
    → (more : List Text) × (xs ≡ tail_from overlap xs tok ++ more)
unfolding tail_from
tail_from-prefix overlap [] tok = ([], refl)
tail_from-prefix overlap (x ∷ xs) tok = elim (Bool-cases (ltb overlap (tok + approx_tokens x))) [
  | inl over ↦ rw over (x ∷ xs, refl)
  | inr fits ↦
      let (more, e) = tail_from-prefix overlap xs (tok + approx_tokens x) in
      rw fits (more, ap (λ rest. x ∷ rest) e)
]

tail_from-tokens :
    (overlap : ℕ) (xs : List Text) (tok : ℕ)
    → tok ≤ overlap
    → tok + tokens (tail_from overlap xs tok) ≤ overlap
unfolding tail_from
tail_from-tokens overlap [] tok le = omega (arith, le)
tail_from-tokens overlap (x ∷ xs) tok le = elim (Bool-cases (ltb overlap (tok + approx_tokens x))) [
  | inl over ↦ rw over (omega (arith, le))
  | inr fits ↦
      let rest = tail_from-tokens overlap xs (tok + approx_tokens x) (ground (arith, fits)) in
      rw fits (omega (arith, rest))
]

abbrev tail_of : ℕ → List Text → List Text
tail_of overlap cur = reverse (tail_from overlap (reverse cur) 0)

tail_of-IsSuffix : (overlap : ℕ) (cur : List Text) → IsSuffix (tail_of overlap cur) cur
tail_of-IsSuffix overlap cur =
    let (more, e) = tail_from-prefix overlap (reverse cur) 0 in
    (
      reverse more,
      sym (reverse-reverse cur)
          ∙ ap reverse e
          ∙ reverse-append (tail_from overlap (reverse cur) 0) more,
    )

tail_of-tokens : (overlap : ℕ) (cur : List Text) → tokens (tail_of overlap cur) ≤ overlap
tail_of-tokens overlap cur = omega (
  arith,
  tokens-reverse (tail_from overlap (reverse cur) 0),
  tail_from-tokens overlap (reverse cur) 0 (omega arith),
)

-- A chunk has at most the tokens aimed at, or it is a tail and one sentence.
abbrev Fits : ℕ → ℕ → List Text → List Text → Type 0
Fits target overlap chunk fresh =
    (tokens chunk ≤ target)
    ⊎ ((s : Text) × (fresh ≡ s ∷ []) × (tokens chunk ≤ overlap + approx_tokens s))

-- The chunks cover the sentences: each is the end of the one before it, of few tokens, followed by the
-- sentences that come next, at least one; and it fits.
abbrev pub IsCover : ℕ → ℕ → List Text → List Text → List (List Text) → Type 0
IsCover target overlap prev sents [] = sents ≡ []
IsCover target overlap prev sents (c ∷ cs) =
    (tail : List Text) × (fresh : List Text) × (later : List Text) × (c ≡ tail ++ fresh)
    × (sents ≡ fresh ++ later)
    × (0 < length fresh)
    × IsSuffix tail prev
    × (tokens tail ≤ overlap)
    × Fits target overlap c fresh
    × IsCover target overlap c later cs

-- What is known of the chunk that is being built.
abbrev IsOpen : ℕ → ℕ → List Text → List Text → List Text → Type 0
IsOpen target overlap prev tail fresh =
    (0 < length fresh)
    × IsSuffix tail prev
    × (tokens tail ≤ overlap)
    × Fits target overlap (tail ++ fresh) fresh

not_empty : (tail fresh : List Text) → 0 < length fresh → is_empty (tail ++ fresh) ≡ false
not_empty [] [] some = absurd (omega (arith, some))
not_empty [] (s ∷ fresh) some = refl
not_empty (t ∷ tail) fresh some = refl

module _ (target overlap : ℕ) where
  chunk_end :
      (cur : List Text) (tok : ℕ)
      → is_empty cur ≡ false
      → chunk_loop target overlap [] cur tok ≡ cur ∷ []
  unfolding chunk_loop
  chunk_end cur tok some = if-false (is_empty cur) _ _ some

  chunk_full :
      (s : Text) (ss cur : List Text) (tok : ℕ)
      → is_empty cur ≡ false
      → ltb target (tok + approx_tokens s) ≡ true
      → chunk_loop target overlap (s ∷ ss) cur tok
        ≡ cur
          ∷ chunk_loop target overlap ss
              (tail_of overlap cur ++ s ∷ [])
              (tokens (tail_of overlap cur) + approx_tokens s)
  unfolding chunk_loop
  chunk_full s ss cur tok some full = rw some (rw full refl)

  chunk_room :
      (s : Text) (ss cur : List Text) (tok : ℕ)
      → (not (is_empty cur) && ltb target (tok + approx_tokens s)) ≡ false
      → chunk_loop target overlap (s ∷ ss) cur tok
        ≡ chunk_loop target overlap ss (cur ++ s ∷ []) (tok + approx_tokens s)
  unfolding chunk_loop
  chunk_room s ss cur tok room = rw room refl

  chunk_loop-IsCover :
      (ss prev tail fresh : List Text) (tok : ℕ)
      → IsOpen target overlap prev tail fresh
      → tok ≡ tokens (tail ++ fresh)
      → IsCover target overlap prev (fresh ++ ss) (chunk_loop target overlap ss (tail ++ fresh) tok)
  chunk_loop-IsCover [] prev tail fresh tok (some, suffix, few, fits) size =
      subst (IsCover target overlap prev (fresh ++ []))
        (sym (chunk_end (tail ++ fresh) tok (not_empty tail fresh some)))
        (tail, fresh, [], refl, refl, some, suffix, few, fits, refl)
  chunk_loop-IsCover (s ∷ ss) prev tail fresh tok (some, suffix, few, fits) size =
      let cur = tail ++ fresh in
      elim (Bool-cases (ltb target (tok + approx_tokens s))) [
        | inl full ↦
            let end = tail_of overlap cur in
            let end_few = tail_of-tokens overlap cur in
            let start : tokens (end ++ s ∷ []) ≡ tokens end + approx_tokens s =
              omega (arith, tokens-append end (s ∷ [])) in
            subst (IsCover target overlap prev (fresh ++ s ∷ ss))
              (sym (chunk_full s ss cur tok (not_empty tail fresh some) full))
              (
                tail,
                fresh,
                s ∷ ss,
                refl,
                refl,
                some,
                suffix,
                few,
                fits,
                chunk_loop-IsCover ss cur end (s ∷ []) (tokens end + approx_tokens s)
                    (
                      omega arith,
                      tail_of-IsSuffix overlap cur,
                      end_few,
                      inr (s, refl, omega (arith, start, end_few)),
                    )
                    (sym start),
              )
        | inr room ↦
            let more = append_assoc tail fresh (s ∷ []) in
            let sizes : tok + approx_tokens s ≡ tokens (tail ++ (fresh ++ s ∷ [])) =
              omega (arith, size, ap tokens more, tokens-append (tail ++ fresh) (s ∷ [])) in
            let next =
              chunk_loop-IsCover ss prev tail (fresh ++ s ∷ []) (tok + approx_tokens s)
                (
                  omega (arith, length-append fresh (s ∷ [])),
                  suffix,
                  few,
                  inl (ground (arith, room, sizes)),
                )
                sizes in
            subst (IsCover target overlap prev (fresh ++ s ∷ ss))
              (sym (
                chunk_room s ss cur tok (ground (arith, room, not_empty tail fresh some))
                ∙ ap (λ c. chunk_loop target overlap ss c (tok + approx_tokens s)) more))
              (subst
                (λ sents. IsCover target overlap prev sents (
                  chunk_loop target overlap ss (tail ++ (fresh ++ s ∷ [])) (tok + approx_tokens s)))
                (append_assoc fresh (s ∷ []) ss) next)
      ]

  -- Whatever the sentences of a document: its chunks cover them. Each begins with the end of the one
  -- before it, of no more tokens than are asked for, and goes on with the sentences that come next, so
  -- that none is lost, repeated or out of order; and it has at most the tokens aimed at, or is that end
  -- and a single sentence.
  pub chunk_loop-covers :
      (sents : List Text) → IsCover target overlap [] sents (chunk_loop target overlap sents [] 0)
  unfolding chunk_loop
  chunk_loop-covers [] = refl
  chunk_loop-covers (s ∷ ss) =
      chunk_loop-IsCover ss [] [] (s ∷ []) (0 + approx_tokens s)
        (omega arith, ([], refl), omega arith, inr (s, refl, omega arith)) (omega arith)
