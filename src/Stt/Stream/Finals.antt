-- ===== src/Stt/Stream/Finals.antt =====
-- stt-server/src/aipanel_stt/streaming.py: a segment of speech from its first block to its last, and what stays behind after one.
use aipanel.Base.{
  ℕ, ◌-◌, ◌/◌, ◌≤◌, ◌≡◌, sym, ap, ◌∙◌, String, true, false, not, ◌&&◌, List, [], ◌∷◌, ◌++◌,
  append_assoc, append-nil, subst, none, some, map, length, All, leb, nat_eq, if-true, if-false,
  arith,
}
use aipanel.Stt.Stream.{
  Config, Tick, Block, Segment, Message, final, is_set, samples, run_whisper, emit_final,
  reset_segment, finish, begin_speech, end_speech, cap_or_partial, on_block,
}
use aipanel.Stt.Stream.Segments.{
  run, finals, finals-append, IsSpeaking, kept_lem, begun, began_lem, partial_lem, start-IsSpeaking,
  quiet-IsSpeaking,
}

-- A block in the middle of speech that began at a time: no event, and the cap is not reached.
pub record IsQuiet (cfg : Config) (start : ℕ) (entry : Tick × Block) : Type 0 where
  pub no_start : entry.0.has_start ≡ false
  pub no_end : entry.0.has_end ≡ false
  pub short : leb cfg.max_segment_ms (entry.0.cap_time - start) ≡ false

abbrev blocks_of : List (Tick × Block) → List Block
blocks_of = map (λ entry. entry.1)

samples-last :
    (blocks : List Block) (b : Block) → 2 ≤ length b → nat_eq (samples (blocks ++ b ∷ [])) 0 ≡ false
samples-last [] b long = ground arith
samples-last (a ∷ blocks) b long = ground (arith, samples-last blocks b long)

module _ (cfg : Config) where
  run-IsSpeaking :
      (middle : List (Tick × Block)) (s : Segment) {language : String} {start : ℕ}
      {blocks : List Block} {sent : List Message}
      → IsSpeaking language start blocks sent s
      → All (IsQuiet cfg start) middle
      → IsSpeaking language start (blocks ++ blocks_of middle) sent (run cfg middle s)
  run-IsSpeaking [] s {language} {start} {blocks} {sent} v quiet =
      subst (λ b. IsSpeaking language start b sent s) (sym (append-nil blocks)) v
  run-IsSpeaking ((t, b) ∷ middle) s {language} {start} {blocks} {sent} v quiet =
      let q = quiet.0 in
      subst (λ bs. IsSpeaking language start bs sent (run cfg middle (on_block cfg t b s)))
        (append_assoc blocks (b ∷ []) (blocks_of middle))
        (run-IsSpeaking middle (on_block cfg t b s)
          (quiet-IsSpeaking cfg t b s v q.no_start q.no_end q.short) quiet.1)

  -- The last block of a segment.
  last_lem :
      (t : Tick) (block : Block) (s : Segment) {language : String} {start : ℕ} {blocks : List Block}
      {sent : List Message}
      → IsSpeaking language start blocks sent s
      → t.has_start ≡ false
      → t.has_end ≡ true
      → 2 ≤ length block
      → let heard = blocks ++ block ∷ [] in
        let s' = on_block cfg t block s in
        (finals s'.sent
          ≡ sent ++ final (run_whisper cfg heard language cfg.beam_size) (samples heard / 16) ∷ [])
        × (s'.speech_started_at ≡ none)
        × (s'.speech_buffer ≡ [])
  unfolding on_block begin_speech end_speech finish emit_final reset_segment cap_or_partial
  last_lem t block s {language} {start} {blocks} {sent} v st en long =
      let kept : Segment = record s { speech_buffer = s.speech_buffer ++ block ∷ [] } in
      let heard = blocks ++ block ∷ [] in
      let heard_lem : kept.speech_buffer ≡ heard = ap (λ b. b ++ block ∷ []) v.kept in
      let text =
        final (run_whisper cfg kept.speech_buffer kept.language cfg.beam_size)
          (samples kept.speech_buffer / 16) in
      let same : on_block cfg t block s
          ≡ reset_segment (record kept { sent = kept.sent ++ text ∷ [] }) =
        ap (λ x. cap_or_partial cfg t (end_speech cfg t (begin_speech t x)))
          (kept_lem cfg t block s (ground (arith, en)))
        ∙ ap (λ x. cap_or_partial cfg t (end_speech cfg t x))
            (if-false {A = Segment} (t.has_start && not (is_set kept.speech_started_at)) _ _
              (ground (arith, st)))
        ∙ ap (cap_or_partial cfg t) (
            if-true {A = Segment} (t.has_end && is_set kept.speech_started_at) _ _
              (ground (arith, en, v.started)))
        ∙ ap (λ x. cap_or_partial cfg t (reset_segment x))
            (if-false {A = Segment} (nat_eq (samples kept.speech_buffer) 0) _ _
              (samples-last s.speech_buffer block long)) in
      (
        ap (λ x. finals x.sent) same
            ∙ finals-append s.sent (text ∷ [])
            ∙ ap (λ f. f ++ text ∷ []) v.told
            ∙ ap
                (λ l.
                  sent
                  ++ final (run_whisper cfg kept.speech_buffer l cfg.beam_size)
                      (samples kept.speech_buffer / 16)
                    ∷ [])
                v.spoken
            ∙ ap
                (λ b.
                  sent ++ final (run_whisper cfg b language cfg.beam_size) (samples b / 16) ∷ [])
                heard_lem,
        ap (λ x. x.speech_started_at) same,
        ap (λ x. x.speech_buffer) same,
      )

  -- Nobody speaks; then the VAD hears speech begin, go on, and end before the cap is reached. Exactly one
  -- final is sent, of what was kept before, if anything was, and all the audio from the block where the
  -- speech began to the block where it ended, both included, with its length in milliseconds; and the
  -- state is ready for the next segment, with nothing kept. The last block has at least one sample.
  pub run-final :
      (first last : Tick × Block) (middle : List (Tick × Block)) (s : Segment)
      → s.speech_started_at ≡ none
      → first.0.has_start ≡ true
      → first.0.has_end ≡ false
      → leb cfg.max_segment_ms (first.0.cap_time - first.0.start_time) ≡ false
      → All (IsQuiet cfg first.0.start_time) middle
      → last.0.has_start ≡ false
      → last.0.has_end ≡ true
      → 2 ≤ length last.1
      → let heard = ((s.speech_buffer ++ first.1 ∷ []) ++ blocks_of middle) ++ last.1 ∷ [] in
        let s' = on_block cfg last.0 last.1 (run cfg (first ∷ middle) s) in
        (finals s'.sent
          ≡ finals s.sent
            ++ final (run_whisper cfg heard s.language cfg.beam_size) (samples heard / 16) ∷ [])
        × (s'.speech_started_at ≡ none)
        × (s'.speech_buffer ≡ [])
  run-final first last middle s silent st en short quiet st' en' long =
      let begun = start-IsSpeaking cfg first.0 first.1 s silent st en short in
      let spoken = run-IsSpeaking middle (on_block cfg first.0 first.1 s) begun quiet in
      last_lem last.0 last.1 (run cfg (first ∷ middle) s) spoken st' en' long

  started_on :
      (t : Tick) (block : Block) (s : Segment)
      → s.speech_started_at ≡ none
      → t.has_start ≡ true
      → t.has_end ≡ false
      → leb cfg.max_segment_ms (t.cap_time - t.start_time) ≡ false
      → let s' = on_block cfg t block s in
        (s'.speech_started_at ≡ some t.start_time)
        × (s'.speech_buffer ≡ s.speech_buffer ++ block ∷ [])
  started_on t block s silent st en short =
      let same = began_lem cfg t block s silent st en short in
      let p = partial_lem cfg t (begun t block s) in
      (ap (λ x. x.speech_started_at) same ∙ p.1, ap (λ x. x.speech_buffer) same ∙ p.2)

  -- Nobody speaks and nothing is kept, and the VAD reports an end, as it does after a segment that
  -- was cut at the cap: nothing is sent and no segment begins, and the segment that begins with the
  -- next block has the audio of both.
  stale_block :
      (t t' : Tick) (block block' : Block) (s : Segment)
      → s.speech_started_at ≡ none
      → s.speech_buffer ≡ []
      → t.has_start ≡ false
      → t.has_end ≡ true
      → t'.has_start ≡ true
      → t'.has_end ≡ false
      → leb cfg.max_segment_ms (t'.cap_time - t'.start_time) ≡ false
      → let s' = on_block cfg t block s in
        (s'.speech_started_at ≡ none)
        × (s'.sent ≡ s.sent)
        × ((on_block cfg t' block' s').speech_buffer ≡ block ∷ block' ∷ [])
  unfolding on_block begin_speech end_speech cap_or_partial
  stale_block t t' block block' s silent empty st en st' en' short =
      let kept : Segment = record s { speech_buffer = s.speech_buffer ++ block ∷ [] } in
      let same : on_block cfg t block s ≡ kept =
        ap (λ x. cap_or_partial cfg t (end_speech cfg t (begin_speech t x)))
          (kept_lem cfg t block s (ground (arith, en)))
        ∙ ap (λ x. cap_or_partial cfg t (end_speech cfg t x))
            (if-false {A = Segment} (t.has_start && not (is_set kept.speech_started_at)) _ _
              (ground (arith, st)))
        ∙ ap (cap_or_partial cfg t) (
            if-false {A = Segment} (t.has_end && is_set kept.speech_started_at) _ _
              (ground (arith, silent)))
        ∙ if-false {A = Segment} (is_set kept.speech_started_at) _ _ (ap is_set silent) in
      (
        ap (λ x. x.speech_started_at) same ∙ silent,
        ap (λ x. x.sent) same,
        ap (λ x. (on_block cfg t' block' x).speech_buffer) same
            ∙ (started_on t' block' kept silent st' en' short).1
            ∙ ap (λ b. (b ++ block ∷ []) ++ block' ∷ []) empty,
      )
