-- ===== src/Panel/Mining.antt =====
-- panel/backend/src/aipanel/jobs/campaign_mine_job.py: the exchanges of successful calls that a campaign keeps.
-- Scores are thousandths. The query for the calls is left out: a call is its events, in the order of time.
pub mod Best
use aipanel.Base.{
  ℕ, zero, suc, ◌+◌, ◌≡◌, min, String, Text, codes, Bool, true, false, not, ◌&&◌, ◌||◌, List, [],
  ◌∷◌, ◌++◌, Option, none, some, take, is_empty, ltb, leb, nat_eq, if◌then◌else◌, ◌==◌, string_Key,
}
use aipanel.Base.Texts.{strip, starts_with, count_words}

abbrev pub keep_top_k : ℕ
keep_top_k = 12

-- `m in body`.
unfoldable pub contains : Text → Text → Bool
contains m [] = is_empty m
contains m (c ∷ body) = starts_with m (c ∷ body) || contains m body

abbrev has_any : List Text → Text → Bool
has_any [] body = false
has_any (m ∷ ms) body = contains m body || has_any ms body

abbrev acknowledgements : List Text
acknowledgements = codes "sure" ∷ codes "absolutely" ∷ codes "got it" ∷ codes "of course" ∷ []

abbrev is_between : ℕ → ℕ → ℕ → Bool
is_between least most n = leb least n && leb n most

-- `_score_pair`; `lower` is Python's.
module _ (lower : Text → Text) where
  abbrev pub score_stripped : Text → Text → ℕ
  score_stripped u a = min 1000 (
      (if is_between 4 25 (count_words false u) then 500 else 225)
      + (if is_between 8 50 (count_words false a) then 400 else 200)
      + (if contains (codes "?") u then 100 else 0)
      + (if has_any acknowledgements (lower a) then 50 else 0))

  unfoldable pub score_pair : Text → Text → ℕ
  score_pair user_text agent_text =
      if is_empty (strip user_text) || is_empty (strip agent_text)
      then 0
      else score_stripped (strip user_text) (strip agent_text)

pub record CallEvent : Type 0 where
  pub event_type : String
  pub text : Text

pub record Pair : Type 0 where
  pub user : Text
  pub agent : Text
  pub score : ℕ
  pub call_id : ℕ

abbrev is_exchange : CallEvent → CallEvent → Bool
is_exchange u a = u.event_type == "user_speech" && a.event_type == "agent_speech"

module _ (lower : Text → Text) where
  -- The walk over the events of a call, two by two.
  abbrev pub pair_of : ℕ → CallEvent → CallEvent → Pair
  pair_of call_id u a = record {
    user = strip u.text;
    agent = strip a.text;
    score = score_pair lower (strip u.text) (strip a.text);
    call_id = call_id;
  }

  abbrev pub good_pair : ℕ → CallEvent → CallEvent → Bool
  good_pair call_id u a = is_exchange u a && leb 500 (pair_of call_id u a).score

  pub walk : ℕ → List CallEvent → List Pair
  walk call_id [] = []
  walk call_id (u ∷ []) = []
  walk call_id (u ∷ a ∷ events) =
      let rest = walk call_id (a ∷ events) in
      if good_pair call_id u a then pair_of call_id u a ∷ rest else rest

  pub walk_calls : List (ℕ × List CallEvent) → List Pair
  walk_calls [] = []
  walk_calls ((call_id, events) ∷ calls) = walk call_id events ++ walk_calls calls

-- `candidates.sort(key=…, reverse=True)`, which is stable.
abbrev pub insert : Pair → List Pair → List Pair
insert p [] = p ∷ []
insert p (q ∷ qs) = if leb q.score p.score then p ∷ q ∷ qs else q ∷ insert p qs

pub sort : List Pair → List Pair
sort [] = []
sort (p ∷ ps) = insert p (sort ps)

-- `_mine_one_campaign`.
pub mine_one_campaign : (Text → Text) → List (ℕ × List CallEvent) → List Pair
mine_one_campaign lower calls = take keep_top_k (sort (walk_calls lower calls))
