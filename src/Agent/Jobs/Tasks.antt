-- ===== src/Agent/Jobs/Tasks.antt =====
-- Reservations and tasks of workers/src/aipanel_worker/main.py as lists of call ids.
use aipanel.Base.{
  ℕ, ◌+◌, ◌≡◌, refl, sym, ap, subst, ◌∙◌, Text, true, false, ◌&&◌, List, [], ◌∷◌, Option, none,
  some, nat_eq, if◌then◌else◌, if-true, if-false, All, arith, Bool-cases, Option-cases, inl, inr,
}
use aipanel.Base.Texts.{same_text}
use aipanel.Agent.Jobs.{member, without, take_out}

pub same_text_refl : (c : Text) → same_text c c ≡ true
same_text_refl [] = refl
same_text_refl (x ∷ c) = ground (arith, same_text_refl c)

same_text-eq : (c d : Text) → same_text c d ≡ true → c ≡ d
same_text-eq [] [] h = refl
same_text-eq [] (y ∷ d) h = cc
same_text-eq (x ∷ c) [] h = cc
same_text-eq (x ∷ c) (y ∷ d) h =
    let head : x ≡ y = ground (arith, h) in
    let tail : same_text c d ≡ true = ground (arith, h) in
    ap (λ z. z ∷ c) head ∙ ap (λ e. y ∷ e) (same_text-eq c d tail)

abbrev pub calls : List (ℕ × Text) → List Text
calls [] = []
calls ((i, c) ∷ tasks) = c ∷ calls tasks

-- No call twice.
abbrev pub IsDistinct : List Text → Type 0
IsDistinct [] = Unit
IsDistinct (c ∷ cs) = (member c cs ≡ false) × IsDistinct cs

-- Every task's call is reserved.
abbrev pub IsCovered : List Text → List (ℕ × Text) → Type 0
IsCovered reserved tasks = All (λ (task : ℕ × Text). member task.1 reserved ≡ true) tasks

-- The tasks of one worker.
abbrev pub count : ℕ → List (ℕ × Text) → ℕ
count i [] = 0
count i ((j, c) ∷ tasks) = (if nat_eq j i then 1 else 0) + count i tasks

pub covered-member :
    (c : Text) (reserved : List Text) (tasks : List (ℕ × Text))
    → IsCovered reserved tasks
    → member c reserved ≡ false
    → member c (calls tasks) ≡ false
covered-member c reserved [] all free = refl
covered-member c reserved ((j, d) ∷ tasks) (head, all) free = elim (Bool-cases (same_text d c)) [
  | inl same ↦
      let bad : member d reserved ≡ false =
        ap (λ x. member x reserved) (same_text-eq d c same) ∙ free in
      absurd (ground (arith, bad, head))
  | inr other ↦ ground (arith, other, covered-member c reserved tasks all free)
]

pub IsCovered-reserve :
    (c : Text) (reserved : List Text) (tasks : List (ℕ × Text))
    → IsCovered reserved tasks
    → IsCovered (c ∷ reserved) tasks
IsCovered-reserve c reserved [] all = tt
IsCovered-reserve c reserved ((j, d) ∷ tasks) (head, all) =
    (ground (arith, head), IsCovered-reserve c reserved tasks all)

pub member-head : (c : Text) (cs : List Text) → member c (c ∷ cs) ≡ true
member-head c cs = ground (arith, same_text_refl c)

differs : (c d e : Text) → e ≡ c → same_text d c ≡ false → same_text e d ≡ false
differs c d e same other = elim (Bool-cases (same_text e d)) [
  | inr apart ↦ apart
  | inl found ↦
      let back : same_text d c ≡ true =
        ap (λ x. same_text x c) (sym (same_text-eq e d found) ∙ same) ∙ same_text_refl c in
      absurd (ground (arith, back, other))
]

member-without :
    (c d : Text) (reserved : List Text)
    → same_text d c ≡ false
    → member d reserved ≡ true
    → member d (without c reserved) ≡ true
member-without c d (e ∷ reserved) other there = elim (Bool-cases (same_text e c)) [
  | inl same ↦
      let gone = differs c d e (same_text-eq e c same) other in
      rw same (member-without c d reserved other (ground (arith, gone, there)))
  | inr kept ↦ elim (Bool-cases (same_text e d)) [
    | inl found ↦ rw kept (ground (arith, found))
    | inr further ↦
        let rest = member-without c d reserved other (ground (arith, further, there)) in
        rw kept (ground (arith, rest))
  ]
]
member-without c d [] other there = cc

pub IsCovered-release :
    (c : Text) (reserved : List Text) (tasks : List (ℕ × Text))
    → member c (calls tasks) ≡ false
    → IsCovered reserved tasks
    → IsCovered (without c reserved) tasks
IsCovered-release c reserved [] free all = tt
IsCovered-release c reserved ((j, d) ∷ tasks) free (head, all) = (
  member-without c d reserved (ground (arith, free)) head,
  IsCovered-release c reserved tasks (ground (arith, free)) all,
)

abbrev after : ℕ × Text → Option (List (ℕ × Text)) → Option (List (ℕ × Text))
after task none = none
after task (some rest) = some (task ∷ rest)

-- What is left when a task is taken out.
abbrev pub IsTaken : ℕ → Text → List (ℕ × Text) → List (ℕ × Text) → List Text → Type 0
IsTaken i c tasks rest reserved =
    (member c (calls tasks) ≡ true)
    × (member c (calls rest) ≡ false)
    × IsDistinct (calls rest)
    × IsCovered reserved rest
    × ((j : ℕ) → count j tasks ≡ (if nat_eq i j then 1 else 0) + count j rest)
    × ((d : Text) → member d (calls tasks) ≡ false → member d (calls rest) ≡ false)

or_else : List (ℕ × Text) → Option (List (ℕ × Text)) → List (ℕ × Text)
or_else x none = x
or_else x (some y) = y

some-injective : {x y : List (ℕ × Text)} → some x ≡ some y → x ≡ y
unfolding or_else
some-injective {x} e = ap (or_else x) e

IsTaken-first :
    (i j : ℕ) (c x : Text) (tasks : List (ℕ × Text)) (reserved : List Text)
    → member x (calls tasks) ≡ false
    → IsDistinct (calls tasks)
    → IsCovered reserved tasks
    → nat_eq i j ≡ true
    → same_text x c ≡ true
    → IsTaken i c ((j, x) ∷ tasks) tasks reserved
IsTaken-first i j c x tasks reserved fresh d v here same = (
  ground (arith, same),
  subst (λ y. member y (calls tasks) ≡ false) (same_text-eq x c same) fresh,
  d,
  v,
  λ k. ground (arith, here),
  λ y h. ground (arith, h),
)

IsTaken-later :
    (i j : ℕ) (c x : Text) (tasks rest : List (ℕ × Text)) (reserved : List Text)
    → member x (calls tasks) ≡ false
    → member x reserved ≡ true
    → IsTaken i c tasks rest reserved
    → IsTaken i c ((j, x) ∷ tasks) ((j, x) ∷ rest) reserved
IsTaken-later i j c x tasks rest reserved fresh head (there, gone, d, v, counts, subset) =
    let apart : same_text x c ≡ false = elim (Bool-cases (same_text x c)) [
      | inr apart ↦ apart
      | inl same ↦
          let bad = subst (λ y. member y (calls tasks) ≡ false) (same_text-eq x c same) fresh in
          absurd (ground (arith, bad, there))
    ] in
    (
      ground (arith, there),
      ground (arith, apart, gone),
      (subset x fresh, d),
      (head, v),
      λ k. omega (arith, counts k),
      λ y h. let rest_free = subset y (ground (arith, h)) in ground (arith, h, rest_free),
    )

pub take_out-IsTaken :
    (i : ℕ) (c : Text) (tasks rest : List (ℕ × Text)) (reserved : List Text)
    → IsDistinct (calls tasks)
    → IsCovered reserved tasks
    → take_out i c tasks ≡ some rest
    → IsTaken i c tasks rest reserved
take_out-IsTaken i c [] rest reserved d v e = cc
take_out-IsTaken i c ((j, x) ∷ tasks) rest reserved (fresh, d) (head, v) e =
    elim (Bool-cases (nat_eq i j && same_text x c)) [
      | inl this ↦
          let same : tasks ≡ rest =
            some-injective (sym (if-true (nat_eq i j && same_text x c) _ _ this) ∙ e) in
          subst (λ left. IsTaken i c ((j, x) ∷ tasks) left reserved) same
            (IsTaken-first i j c x tasks reserved fresh d v (ground (arith, this))
              (ground (arith, this)))
      | inr other ↦
          let e' = sym (if-false (nat_eq i j && same_text x c) _ _ other) ∙ e in
          elim (Option-cases (take_out i c tasks)) [
            | inl missing ↦ absurd (ground (arith, missing, e'))
            | inr (left, found) ↦
                let same : (j, x) ∷ left ≡ rest =
                  some-injective (sym (ap (after (j, x)) found) ∙ e') in
                subst (λ r. IsTaken i c ((j, x) ∷ tasks) r reserved) same
                  (IsTaken-later i j c x tasks left reserved fresh head
                    (take_out-IsTaken i c tasks left reserved d v found))
          ]
    ]
