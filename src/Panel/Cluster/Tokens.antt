-- ===== src/Panel/Cluster/Tokens.antt =====
-- The join tokens of panel/backend/src/aipanel/api/v1/cluster.py that are not consumed.
use aipanel.Base.{
  ℕ, ◌+◌, ◌≡◌, ◌≤◌, refl, sym, ap, subst, ◌∙◌, String, Bool, true, false, not, ◌&&◌, [], ◌∷◌,
  Option, none, some, is_some, if◌then◌else◌, if-true, if-false, either_way, ◌==◌, string_Key,
  nat_Key, eq_iff, arith, Bool-cases, inl, inr,
}
use aipanel.Base.Dict
use aipanel.Base.Dict.{Dict}
use aipanel.Panel.Cluster.{NodeJoinToken, find_token}
use aipanel.Panel.Cluster.Join.{consume}
use aipanel.Panel.Cluster.Upkeep.{unlink}

-- The tokens with a hash that are not consumed.
abbrev pub fresh : String → NodeJoinToken → ℕ
fresh h tok = if tok.token_hash == h && not (is_some tok.consumed_at) then 1 else 0

abbrev pub unused : String → Dict ℕ NodeJoinToken → ℕ
unused h [] = 0
unused h ((id, tok) ∷ tokens) = fresh h tok + unused h tokens

pub unused-put :
    (h : String) (id : ℕ) (tok : NodeJoinToken) (tokens : Dict ℕ NodeJoinToken)
    → unused h (Dict.put id tok tokens) ≤ unused h tokens + fresh h tok
unfolding Dict.put
unused-put h id tok [] = omega arith
unused-put h id tok ((j, t) ∷ tokens) =
    let rest = unused-put h id tok tokens in
    either_way
      (λ (d : Dict ℕ NodeJoinToken). unused h d ≤ fresh h t + unused h tokens + fresh h tok)
      (j == id) ((j, tok) ∷ tokens) ((j, t) ∷ Dict.put id tok tokens) (omega arith)
      (omega (arith, rest))

pub unused-remove :
    (h : String) (id : ℕ) (tokens : Dict ℕ NodeJoinToken)
    → unused h (Dict.remove id tokens) ≤ unused h tokens
unfolding Dict.remove
unused-remove h id [] = omega arith
unused-remove h id ((j, t) ∷ tokens) =
    let rest = unused-remove h id tokens in
    either_way (λ (d : Dict ℕ NodeJoinToken). unused h d ≤ fresh h t + unused h tokens) (j == id)
      (Dict.remove id tokens) ((j, t) ∷ Dict.remove id tokens) (omega (arith, rest))
      (omega (arith, rest))

pub unused-unlink :
    (h : String) (id : ℕ) (tokens : Dict ℕ NodeJoinToken)
    → unused h (unlink id tokens) ≡ unused h tokens
unfolding unlink
unused-unlink h id [] = refl
unused-unlink h id ((j, t) ∷ tokens) = ground (arith, unused-unlink h id tokens)

-- A token that was found and is not consumed.
abbrev pub is_open : Option NodeJoinToken → Bool
is_open none = false
is_open (some tok) = not (is_some tok.consumed_at)

-- To consume the token that was found takes one away.
pub unused-consume :
    (h g : String) (now id : ℕ) (tokens : Dict ℕ NodeJoinToken)
    → is_open (find_token g tokens) ≡ true
    → unused h (consume g now id tokens) + (if g == h then 1 else 0) ≤ unused h tokens
unfolding consume
unused-consume h g now id [] left = absurd (ground (arith, left))
unused-consume h g now id ((j, t) ∷ tokens) left =
    let used = record t { consumed_at = some now; consumed_by_node = some id } in
    let rest = consume g now id tokens in
    elim (Bool-cases (t.token_hash == g)) [
      | inl this ↦
          let same : t.token_hash ≡ g = ground (arith, this, eq_iff t.token_hash g) in
          let open_token : not (is_some t.consumed_at) ≡ true =
            ap is_open (sym (if-true (t.token_hash == g) (some t) (find_token g tokens) this))
            ∙ left in
          subst
            (λ (d : Dict ℕ NodeJoinToken).
              unused h d + (if g == h then 1 else 0) ≤ fresh h t + unused h tokens)
            (sym (if-true (t.token_hash == g) ((j, used) ∷ tokens) ((j, t) ∷ rest) this))
            (subst
              (λ k.
                fresh h used + unused h tokens + (if k == h then 1 else 0)
                ≤ fresh h t + unused h tokens)
              same (ground (arith, open_token)))
      | inr other ↦
          let left' =
            ap is_open (sym (if-false (t.token_hash == g) (some t) (find_token g tokens) other))
            ∙ left in
          subst
            (λ (d : Dict ℕ NodeJoinToken).
              unused h d + (if g == h then 1 else 0) ≤ fresh h t + unused h tokens)
            (sym (if-false (t.token_hash == g) ((j, used) ∷ tokens) ((j, t) ∷ rest) other))
            (omega (arith, unused-consume h g now id tokens left'))
    ]
