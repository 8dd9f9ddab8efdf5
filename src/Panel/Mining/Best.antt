-- ===== src/Panel/Mining/Best.antt =====
-- Which exchanges panel/backend/src/aipanel/jobs/campaign_mine_job.py keeps.
use aipanel.Base.{
  ℕ, zero, suc, ◌≤◌, ◌≡◌, inl, inr, refl, sym, ap, ◌∙◌, min, drop, take-append-drop, subst, Text,
  ◌&&◌, if◌then◌else◌, ◌==◌, string_Key, List, [], ◌∷◌, ◌++◌, take, length, length-take, leb, All,
  arith, Bool-cases,
}
use mathlib.Core.List.{Perm, flat_map, zip}
use mathlib.Core.List.Perm
use aipanel.Base.Texts.{strip}
use aipanel.Panel.Mining.{
  score_pair, pair_of, CallEvent, Pair, keep_top_k, good_pair, walk, walk_calls, insert, sort,
  mine_one_campaign,
}

abbrev IsBelow : Pair → Pair → Type 0
IsBelow p q = q.score ≤ p.score

abbrev IsSorted : List Pair → Type 0
IsSorted [] = Unit
IsSorted (p ∷ ps) = All (IsBelow p) ps × IsSorted ps

module _ (IsFine : Pair → Type 0) where
  All-insert : (p : Pair) (ps : List Pair) → IsFine p → All IsFine ps → All IsFine (insert p ps)
  All-insert p [] fine all = (fine, tt)
  All-insert p (q ∷ qs) fine (head, all) = elim (Bool-cases (leb q.score p.score)) [
    | inl first ↦ rw first (fine, (head, all))
    | inr later ↦ rw later (head, All-insert p qs fine all)
  ]

  All-sort : (ps : List Pair) → All IsFine ps → All IsFine (sort ps)
  unfolding sort
  All-sort [] all = tt
  All-sort (p ∷ ps) (fine, all) = All-insert p (sort ps) fine (All-sort ps all)

  All-take : (n : ℕ) (ps : List Pair) → All IsFine ps → All IsFine (take n ps)
  All-take zero ps all = tt
  All-take (suc n) [] all = tt
  All-take (suc n) (p ∷ ps) (fine, all) = (fine, All-take n ps all)

  All-drop : (n : ℕ) (ps : List Pair) → All IsFine ps → All IsFine (drop n ps)
  All-drop zero ps all = all
  All-drop (suc n) [] all = tt
  All-drop (suc n) (p ∷ ps) (fine, all) = All-drop n ps all

  All-append : (ps qs : List Pair) → All IsFine ps → All IsFine qs → All IsFine (ps ++ qs)
  All-append [] qs all more = more
  All-append (p ∷ ps) qs (fine, all) more = (fine, All-append ps qs all more)

All-IsBelow : (p q : Pair) (ps : List Pair) → IsBelow p q → All (IsBelow q) ps → All (IsBelow p) ps
All-IsBelow p q [] le all = tt
All-IsBelow p q (r ∷ ps) le (head, all) = (omega (arith, le, head), All-IsBelow p q ps le all)

insert-IsSorted : (p : Pair) (ps : List Pair) → IsSorted ps → IsSorted (insert p ps)
insert-IsSorted p [] s = (tt, tt)
insert-IsSorted p (q ∷ qs) (below, s) = elim (Bool-cases (leb q.score p.score)) [
  | inl first ↦
      let le : IsBelow p q = ground (arith, first) in
      rw first ((le, All-IsBelow p q qs le below), (below, s))
  | inr later ↦
      rw later (All-insert (IsBelow q) p qs (ground (arith, later)) below, insert-IsSorted p qs s)
]

sort-IsSorted : (ps : List Pair) → IsSorted (sort ps)
unfolding sort
sort-IsSorted [] = tt
sort-IsSorted (p ∷ ps) = insert-IsSorted p (sort ps) (sort-IsSorted ps)

insert-perm : (p : Pair) (ps : List Pair) → Perm (insert p ps) (p ∷ ps)
insert-perm p [] = Perm.refl (p ∷ [])
insert-perm p (q ∷ qs) = elim (Bool-cases (leb q.score p.score)) [
  | inl first ↦ rw first (Perm.refl (p ∷ q ∷ qs))
  | inr later ↦ rw later (Perm.trans (Perm.cons q (insert-perm p qs)) (Perm.swap p q qs))
]

sort-perm : (ps : List Pair) → Perm (sort ps) ps
unfolding sort
sort-perm [] = Perm.refl []
sort-perm (p ∷ ps) = Perm.trans (insert-perm p (sort ps)) (Perm.cons p (sort-perm ps))

length-insert : (p : Pair) (ps : List Pair) → length (insert p ps) ≡ suc (length ps)
length-insert p [] = refl
length-insert p (q ∷ qs) = ground (arith, length-insert p qs)

length-sort : (ps : List Pair) → length (sort ps) ≡ length ps
unfolding sort
length-sort [] = refl
length-sort (p ∷ ps) = length-insert p (sort ps) ∙ ap (λ n. suc n) (length-sort ps)

take-IsSorted : (n : ℕ) (ps : List Pair) → IsSorted ps → IsSorted (take n ps)
take-IsSorted zero ps s = tt
take-IsSorted (suc n) [] s = tt
take-IsSorted (suc n) (p ∷ ps) (below, s) = (All-take (IsBelow p) n ps below, take-IsSorted n ps s)

-- Not better than any that is kept.
abbrev IsWorse : List Pair → Pair → Type 0
IsWorse kept q = All (λ (p : Pair). q.score ≤ p.score) kept

IsWorse-more :
    (p : Pair) (kept ps : List Pair)
    → All (IsBelow p) ps
    → All (IsWorse kept) ps
    → All (IsWorse (p ∷ kept)) ps
IsWorse-more p kept [] below worse = tt
IsWorse-more p kept (q ∷ ps) (le, below) (one, worse) =
    ((le, one), IsWorse-more p kept ps below worse)

All-IsWorse : (ps : List Pair) → All (IsWorse []) ps
All-IsWorse [] = tt
All-IsWorse (p ∷ ps) = (tt, All-IsWorse ps)

drop-IsWorse : (n : ℕ) (ps : List Pair) → IsSorted ps → All (IsWorse (take n ps)) (drop n ps)
drop-IsWorse zero ps s = All-IsWorse ps
drop-IsWorse (suc n) [] s = tt
drop-IsWorse (suc n) (p ∷ ps) (below, s) =
    IsWorse-more p (take n ps) (drop n ps) (All-drop (IsBelow p) n ps below) (drop-IsWorse n ps s)

abbrev IsGood : Pair → Type 0
IsGood p = 500 ≤ p.score

-- What is kept of the candidates, and how many.
abbrev pub IsBest : List Pair → List Pair → Type 0
IsBest kept candidates =
    (rest : List Pair) × Perm (kept ++ rest) candidates
    × All (IsWorse kept) rest
    × (length kept ≡ min 12 (length candidates))
    × IsSorted kept
    × All IsGood kept

module _ (lower : Text → Text) where
  walk-IsGood : (call_id : ℕ) (events : List CallEvent) → All IsGood (walk lower call_id events)
  unfolding walk
  walk-IsGood call_id [] = tt
  walk-IsGood call_id (u ∷ []) = tt
  walk-IsGood call_id (u ∷ a ∷ events) = elim (Bool-cases (good_pair lower call_id u a)) [
    | inl good ↦ rw good (ground (arith, good), walk-IsGood call_id (a ∷ events))
    | inr bad ↦ rw bad (walk-IsGood call_id (a ∷ events))
  ]

  walk_calls-IsGood : (calls : List (ℕ × List CallEvent)) → All IsGood (walk_calls lower calls)
  unfolding walk_calls
  walk_calls-IsGood [] = tt
  walk_calls-IsGood ((call_id, events) ∷ calls) =
      All-append IsGood (walk lower call_id events) (walk_calls lower calls)
        (walk-IsGood call_id events) (walk_calls-IsGood calls)

  -- The exchange that two neighbours among the events are, if they are one with a score of at least 0.5.
  abbrev exchange : ℕ → CallEvent × CallEvent → List Pair
  exchange id (u, a) =
      if (u.event_type == "user_speech" && a.event_type == "agent_speech")
        && leb 500 (score_pair lower (strip u.text) (strip a.text))
      then record {
        user = strip u.text;
        agent = strip a.text;
        score = score_pair lower (strip u.text) (strip a.text);
        call_id = id;
      }
        ∷ []
      else []

  -- The exchanges of a call.
  abbrev pub exchanges : ℕ × List CallEvent → List Pair
  exchanges (id, events) = flat_map (exchange id) (zip events (drop 1 events))

  walk-exchanges :
      (id : ℕ) (events : List CallEvent) → walk lower id events ≡ exchanges (id, events)
  unfolding walk flat_map zip
  walk-exchanges id [] = refl
  walk-exchanges id (u ∷ []) = refl
  walk-exchanges id (u ∷ a ∷ events) =
      let rest = walk-exchanges id (a ∷ events) in
      elim (Bool-cases (good_pair lower id u a)) [
        | inl good ↦ rw good (ap (λ ps. pair_of lower id u a ∷ ps) rest)
        | inr bad ↦ rw bad rest
      ]

  walk_calls-exchanges :
      (calls : List (ℕ × List CallEvent)) → walk_calls lower calls ≡ flat_map exchanges calls
  unfolding walk_calls flat_map
  walk_calls-exchanges [] = refl
  walk_calls-exchanges ((id, events) ∷ calls) =
      rw (walk-exchanges id events, walk_calls-exchanges calls) refl

  -- Whatever was said on the calls: the exchanges that are kept, and others that score no better than
  -- any of them, are together all the exchanges of the calls, each of two neighbours, words of the user
  -- and then of the agent, with a score of at least 0.5; 12 are kept, or all where there are fewer, with
  -- the best first; and each that is kept has a score of at least 0.5.
  pub mine_one_campaign-IsBest :
      (calls : List (ℕ × List CallEvent))
      → IsBest (mine_one_campaign lower calls) (flat_map exchanges calls)
  unfolding mine_one_campaign
  mine_one_campaign-IsBest calls =
      let candidates = walk_calls lower calls in
      let sorted = sort candidates in
      subst (IsBest (take keep_top_k sorted)) (walk_calls-exchanges calls) (
        drop keep_top_k sorted,
        subst (λ all. Perm all candidates) (sym (take-append-drop keep_top_k sorted))
            (sort-perm candidates),
        drop-IsWorse keep_top_k sorted (sort-IsSorted candidates),
        length-take keep_top_k sorted ∙ ap (min 12) (length-sort candidates),
        take-IsSorted keep_top_k sorted (sort-IsSorted candidates),
        All-take IsGood keep_top_k sorted (All-sort IsGood candidates (walk_calls-IsGood calls)),
      )
