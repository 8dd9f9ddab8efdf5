-- ===== src/Agent/BargeIn.antt =====
-- workers/src/aipanel_worker/barge_in.py: whether the agent yields to the caller. Stabilities are
-- hundredths.
use aipanel.Base.{
  ℕ, ◌≡◌, String, Text, Bool, true, false, not, ◌&&◌, ◌||◌, is_empty, ltb, leb, if◌then◌else◌,
  arith,
}
use aipanel.Base.Texts.{count_words}

pub record BargeInDecision : Type 0 where
  pub cancel_tts : Bool
  pub reason : String

-- The partial, and the settings.
pub record Heard : Type 0 where
  pub partial_text : Text
  pub partial_stability : ℕ
  pub partial_duration_ms : ℕ
  pub is_speaking : Bool
  pub min_words : ℕ
  pub min_duration_ms : ℕ
  pub stability_threshold : ℕ

abbrev pub refuse : String → BargeInDecision
refuse reason = record { cancel_tts = false; reason = reason }

pub should_barge_in : Heard → BargeInDecision
should_barge_in h =
    if not h.is_speaking
    then refuse "agent_silent"
    else if is_empty h.partial_text
    then refuse "empty_partial"
    else if ltb h.partial_stability h.stability_threshold
    then refuse "low_stability"
    else if ltb (count_words false h.partial_text) h.min_words
        && ltb h.partial_duration_ms h.min_duration_ms
    then refuse "backchannel_filtered"
    else record { cancel_tts = true; reason = "user_interrupting" }

-- The agent yields exactly if it speaks, the partial is not empty and stable enough, and it has enough
-- words or lasts long enough: one of the two is enough.
should_barge_in_lem :
    (h : Heard)
    → (should_barge_in h).cancel_tts ≡ (
        h.is_speaking
        && (not (is_empty h.partial_text)
            && (leb h.stability_threshold h.partial_stability
                && (leb h.min_words (count_words false h.partial_text)
                    || leb h.min_duration_ms h.partial_duration_ms))))
unfolding should_barge_in
should_barge_in_lem h = ground arith
