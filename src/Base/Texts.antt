-- ===== src/Base/Texts.antt =====
-- Python's text operations on lists of code points.
use aipanel.Base.Tests.{Text, leb, nat_eq, if◌then◌else◌}
use Prim.Native.Nat.{ℕ, zero, suc}
use mathlib.Core.Bool.{Bool, true, false, ◌&&◌, ◌||◌}
use mathlib.Core.List.{List, [], ◌∷◌, reverse}
use mathlib.Core.Option.{Option, none, some}

-- `str.isspace` of one character.
abbrev pub is_space : ℕ → Bool
is_space c =
    (leb 9 c && leb c 13)
    || (leb 28 c && leb c 32)
    || nat_eq c 133
    || nat_eq c 160
    || nat_eq c 5760
    || (leb 8192 c && leb c 8202)
    || nat_eq c 8232
    || nat_eq c 8233
    || nat_eq c 8239
    || nat_eq c 8287
    || nat_eq c 12288

pub lstrip : Text → Text
lstrip [] = []
lstrip (c ∷ t) = if is_space c then lstrip t else c ∷ t

-- `text.strip()`.
unfoldable pub strip : Text → Text
unfolding lstrip
strip t = reverse (lstrip (reverse (lstrip t)))

-- `text.split(sep)`, for a separator of one character: the part before the first, and the others.
unfoldable pub split_first : ℕ → Text → Text × List Text
split_first sep [] = ([], [])
split_first sep (c ∷ t) =
    let (part, parts) = split_first sep t in
    if nat_eq c sep then ([], part ∷ parts) else (c ∷ part, parts)

unfoldable pub split_on : ℕ → Text → List Text
unfolding split_first
split_on sep t = let (part, parts) = split_first sep t in part ∷ parts

-- `==` on texts.
abbrev pub same_text : Text → Text → Bool
same_text [] [] = true
same_text [] (d ∷ u) = false
same_text (c ∷ t) [] = false
same_text (c ∷ t) (d ∷ u) = nat_eq c d && same_text t u

-- `text.startswith(m)`.
abbrev pub starts_with : Text → Text → Bool
starts_with [] body = true
starts_with (m ∷ ms) [] = false
starts_with (m ∷ ms) (c ∷ body) = if nat_eq m c then starts_with ms body else false

-- The number of words that `text.split()` gives: `inside` says whether the last character was part
-- of one.
unfoldable pub count_words : Bool → Text → ℕ
count_words inside [] = zero
count_words inside (c ∷ t) =
    if is_space c
    then count_words false t
    else (let rest = count_words true t in if inside then rest else suc rest)

module _ {ℓ} {A : Type ℓ} where
  -- `xs[i] if i < len(xs)`.
  abbrev pub get_elem? : List A → ℕ → Option A
  get_elem? [] i = none
  get_elem? (x ∷ xs) zero = some x
  get_elem? (x ∷ xs) (suc i) = get_elem? xs i
