-- ===== src/Stt/Stream/Segments.antt =====
-- The blocks of a segment of speech, as `_handle_audio` of stt-server/src/aipanel_stt/streaming.py
-- keeps them.
use aipanel.Base.{
  ℕ, ◌+◌, ◌-◌, ◌≡◌, refl, ap, ◌∙◌, String, Text, Bool, true, false, not, ◌&&◌, ◌||◌, List, [], ◌∷◌,
  ◌++◌, append-nil, none, some, leb, if◌then◌else◌, if-true, if-false, arith,
}
use aipanel.Base.Texts.{same_text}
use aipanel.Stt.Stream.{
  Config, Tick, Block, Segment, Message, partial, final, invalid_json, sample_rate_error, is_set,
  since, run_whisper, stability, send_partial, emit_partial, keep_block, begin_speech, end_speech,
  maybe_partial, cap_or_partial, on_block,
}

-- The blocks one after another, each with what VAD and clock say.
abbrev pub run : Config → List (Tick × Block) → Segment → Segment
run cfg [] s = s
run cfg ((t, block) ∷ rest) s = run cfg rest (on_block cfg t block s)

abbrev pub finals : List Message → List Message
finals [] = []
finals (final text ms ∷ sent) = final text ms ∷ finals sent
finals (m ∷ sent) = finals sent

pub finals-append : (xs ys : List Message) → finals (xs ++ ys) ≡ finals xs ++ finals ys
finals-append [] ys = refl
finals-append (final text ms ∷ xs) ys = ap (λ r. final text ms ∷ r) (finals-append xs ys)
finals-append (partial text k ∷ xs) ys = finals-append xs ys
finals-append (invalid_json ∷ xs) ys = finals-append xs ys
finals-append (sample_rate_error ∷ xs) ys = finals-append xs ys

finals-partial :
    (xs : List Message) (text : Text) (k : ℕ) → finals (xs ++ partial text k ∷ []) ≡ finals xs
finals-partial xs text k = finals-append xs (partial text k ∷ []) ∙ append-nil (finals xs)

-- Speech that began at a time, with what is kept of it.
pub record IsSpeaking (language : String) (since_time : ℕ) (blocks : List Block)
    (sent : List Message) (s : Segment) : Type 0 where
  pub spoken : s.language ≡ language
  pub started : s.speech_started_at ≡ some since_time
  pub kept : s.speech_buffer ≡ blocks
  pub told : finals s.sent ≡ sent

-- A segment with the audio, the time and the finals of another.
abbrev IsSame : Segment → Segment → Type 0
IsSame s' s =
    (s'.language ≡ s.language)
    × (s'.speech_started_at ≡ s.speech_started_at)
    × (s'.speech_buffer ≡ s.speech_buffer)
    × (finals s'.sent ≡ finals s.sent)

choose-IsSame :
    (b : Bool) (x y s : Segment) → IsSame x s → IsSame y s → IsSame (if b then x else y) s
choose-IsSame true x y s hx hy = hx
choose-IsSame false x y s hx hy = hy

-- The state in which a segment begins.
abbrev pub begun : Tick → Block → Segment → Segment
begun t block s = record s {
  speech_buffer = s.speech_buffer ++ block ∷ [];
  speech_started_at = some t.start_time;
  last_partial_text = [];
  partial_repeat_count = 0;
}

module _ (cfg : Config) where
  send_lem : (text : Text) (s : Segment) → IsSame (send_partial text s) s
  send_lem text s = (
    refl,
    refl,
    refl,
    finals-partial s.sent text (
        stability s.last_partial_text text
          (if same_text text s.last_partial_text then s.partial_repeat_count + 1 else 0)),
  )

  pub partial_lem : (t : Tick) (s : Segment) → IsSame (maybe_partial cfg t s) s
  unfolding maybe_partial emit_partial
  partial_lem t s =
      let noted : Segment = record s { last_partial_at = t.partial_time } in
      choose-IsSame (leb cfg.partial_interval_ms (t.partial_time - s.last_partial_at))
        (emit_partial cfg noted) s s
        (choose-IsSame _ noted _ s (refl, refl, refl, refl)
          (send_lem (run_whisper cfg noted.speech_buffer noted.language cfg.beam_size_partial)
            noted))
        (refl, refl, refl, refl)

  pub kept_lem :
      (t : Tick) (block : Block) (s : Segment)
      → (is_set s.speech_started_at || t.has_start || t.has_end) ≡ true
      → keep_block t block s ≡ record s { speech_buffer = s.speech_buffer ++ block ∷ [] }
  unfolding keep_block
  kept_lem t block s h = if-true _ _ _ h

  not_ended : (t : Tick) (s : Segment) → t.has_end ≡ false → end_speech cfg t s ≡ s
  unfolding end_speech
  not_ended t s h = if-false (t.has_end && is_set s.speech_started_at) _ _ (ground (arith, h))

  goes_on :
      (t : Tick) (s : Segment) (start : ℕ)
      → s.speech_started_at ≡ some start
      → leb cfg.max_segment_ms (t.cap_time - start) ≡ false
      → cap_or_partial cfg t s ≡ maybe_partial cfg t s
  unfolding cap_or_partial
  goes_on t s start h short =
      if-true {A = Segment} _ _ _ (ap is_set h)
      ∙ if-false {A = Segment} _ _ _
          (ap (λ x. leb cfg.max_segment_ms (since x t.cap_time)) h ∙ short)

  pub began_lem :
      (t : Tick) (block : Block) (s : Segment)
      → s.speech_started_at ≡ none
      → t.has_start ≡ true
      → t.has_end ≡ false
      → leb cfg.max_segment_ms (t.cap_time - t.start_time) ≡ false
      → on_block cfg t block s
        ≡ maybe_partial cfg t (record s {
          speech_buffer = s.speech_buffer ++ block ∷ [];
          speech_started_at = some t.start_time;
          last_partial_text = [];
          partial_repeat_count = 0;
        })
  unfolding on_block begin_speech
  began_lem t block s silent st en short =
      let kept : Segment = record s { speech_buffer = s.speech_buffer ++ block ∷ [] } in
      let begun : Segment = record kept {
        speech_started_at = some t.start_time;
        last_partial_text = [];
        partial_repeat_count = 0;
      } in
      ap (λ x. cap_or_partial cfg t (end_speech cfg t (begin_speech t x)))
        (kept_lem t block s (ground (arith, st)))
      ∙ ap (λ x. cap_or_partial cfg t (end_speech cfg t x))
          (if-true {A = Segment} (t.has_start && not (is_set kept.speech_started_at)) _ _
            (ground (arith, st, silent)))
      ∙ ap (cap_or_partial cfg t) (not_ended t begun en)
      ∙ goes_on t begun t.start_time refl short

  -- The first block of a segment.
  pub start-IsSpeaking :
      (t : Tick) (block : Block) (s : Segment)
      → s.speech_started_at ≡ none
      → t.has_start ≡ true
      → t.has_end ≡ false
      → leb cfg.max_segment_ms (t.cap_time - t.start_time) ≡ false
      → IsSpeaking s.language t.start_time
          (s.speech_buffer ++ block ∷ [])
          (finals s.sent)
          (on_block cfg t block s)
  unfolding on_block
  start-IsSpeaking t block s silent st en short =
      let began : Segment = record s {
        speech_buffer = s.speech_buffer ++ block ∷ [];
        speech_started_at = some t.start_time;
        last_partial_text = [];
        partial_repeat_count = 0;
      } in
      let p = partial_lem t began in
      let same = began_lem t block s silent st en short in
      record {
        spoken = ap (λ x. x.language) same ∙ p.0;
        started = ap (λ x. x.speech_started_at) same ∙ p.1;
        kept = ap (λ x. x.speech_buffer) same ∙ p.2;
        told = ap (λ x. finals x.sent) same ∙ p.3;
      }

  -- A block while the speech goes on.
  pub quiet-IsSpeaking :
      (t : Tick) (block : Block) (s : Segment) {language : String} {start : ℕ} {blocks : List Block}
      {sent : List Message}
      → IsSpeaking language start blocks sent s
      → t.has_start ≡ false
      → t.has_end ≡ false
      → leb cfg.max_segment_ms (t.cap_time - start) ≡ false
      → IsSpeaking language start (blocks ++ block ∷ []) sent (on_block cfg t block s)
  unfolding on_block begin_speech
  quiet-IsSpeaking t block s {start = start} v st en short =
      let kept : Segment = record s { speech_buffer = s.speech_buffer ++ block ∷ [] } in
      let p = partial_lem t kept in
      let same : on_block cfg t block s ≡ maybe_partial cfg t kept =
        ap (λ x. cap_or_partial cfg t (end_speech cfg t (begin_speech t x)))
          (kept_lem t block s (ground (arith, v.started)))
        ∙ ap (λ x. cap_or_partial cfg t (end_speech cfg t x))
            (if-false {A = Segment} (t.has_start && not (is_set kept.speech_started_at)) _ _
              (ground (arith, st)))
        ∙ ap (cap_or_partial cfg t) (not_ended t kept en)
        ∙ goes_on t kept start v.started short in
      record {
        spoken = ap (λ x. x.language) same ∙ p.0 ∙ v.spoken;
        started = ap (λ x. x.speech_started_at) same ∙ p.1 ∙ v.started;
        kept = ap (λ x. x.speech_buffer) same ∙ p.2 ∙ ap (λ b. b ++ block ∷ []) v.kept;
        told = ap (λ x. finals x.sent) same ∙ p.3 ∙ v.told;
      }
