-- ===== src/Stt/Stream/Tests.antt =====
-- The transcription stream on concrete audio.
use aipanel.Base.{
  ℕ, ◌/◌, ◌≡◌, refl, codes, Bool, true, false, [], ◌∷◌, ◌++◌, none, replicate, arith,
}
use aipanel.Stt.Stream.{
  Config, Tick, Block, Segment, final, run_whisper, samples, on_block, State, handle_audio,
}
use aipanel.Stt.Stream.Chunks.{handle_audio-append}
use aipanel.Stt.Stream.Segments.{run, finals}
use aipanel.Stt.Stream.Finals.{run-final}

abbrev config : Config
config = record {
  language = "en";
  beam_size = 5;
  beam_size_partial = 1;
  partial_interval_ms = 300;
  max_segment_ms = 30000;
  transcribe = λ language beam blocks. codes "hello";
}

abbrev silent : Segment
silent = record {
  language = "en";
  speech_buffer = [];
  speech_started_at = none;
  last_partial_at = 0;
  last_partial_text = [];
  partial_repeat_count = 0;
  sent = [];
}

abbrev tick : Bool → Bool → ℕ → Tick
tick has_start has_end time = record {
  has_start = has_start;
  has_end = has_end;
  start_time = time;
  cap_time = time;
  partial_time = time;
}

abbrev block : Block
block = 0 ∷ 1 ∷ replicate 1022 0

run-final_example :
    let heard = block ∷ block ∷ block ∷ [] in
    let s' =
      on_block config
        (tick false true 1064)
        block
        (run config ((tick true false 1000, block) ∷ (tick false false 1032, block) ∷ []) silent) in
    (finals s'.sent ≡ final (run_whisper config heard "en" 5) (samples heard / 16) ∷ [])
    × (s'.speech_started_at ≡ none)
    × (s'.speech_buffer ≡ [])
run-final_example =
    run-final config (tick true false 1000, block) (tick false true 1064, block)
      ((tick false false 1032, block) ∷ []) silent refl refl refl refl
      (record { no_start = refl; no_end = refl; short = refl }, tt) refl refl (omega arith)

abbrev waiting : State
waiting = record { pending_bytes = 7 ∷ 8 ∷ []; seen = 0; segment = silent }

handle_audio-append_example :
    handle_audio config
      (λ k. tick true false 1000)
      block
      (handle_audio config (λ k. tick true false 1000) (1 ∷ 2 ∷ []) waiting)
    ≡ handle_audio config (λ k. tick true false 1000) ((1 ∷ 2 ∷ []) ++ block) waiting
handle_audio-append_example =
    handle_audio-append config (λ k. tick true false 1000) (1 ∷ 2 ∷ []) block waiting
