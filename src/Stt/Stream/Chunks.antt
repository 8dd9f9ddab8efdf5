-- ===== src/Stt/Stream/Chunks.antt =====
-- `_handle_audio` of stt-server/src/aipanel_stt/streaming.py, on audio that comes in one message or in
-- several.
use aipanel.Base.{
  ℕ, zero, suc, ◌+◌, ◌-◌, ◌≤◌, ◌<◌, ◌≡◌, ◌⊎◌, refl, sym, ap, ◌∙◌, List, ◌++◌, inl, inr,
  append_assoc, length, length-append, length-drop, take, drop, take-more, drop-more, leb, le→leb,
  if-true, if-false, arith,
}
use aipanel.Stt.Stream.{
  Config, Tick, vad_chunk_bytes, on_block, State, drain, with_bytes, handle_audio,
}

module _ (cfg : Config) (ticks : ℕ → Tick) where
  -- The state after a block.
  abbrev cut : State → State
  cut s = record {
    pending_bytes = drop vad_chunk_bytes s.pending_bytes;
    seen = s.seen + 1;
    segment = on_block cfg (ticks s.seen) (take vad_chunk_bytes s.pending_bytes) s.segment;
  }

  drain_step :
      (fuel : ℕ) (s : State)
      → vad_chunk_bytes ≤ length s.pending_bytes
      → drain cfg ticks (suc fuel) s ≡ drain cfg ticks fuel (cut s)
  unfolding drain
  drain_step fuel s le = if-true _ _ _ (le→leb vad_chunk_bytes (length s.pending_bytes) le)

  drain_done :
      (fuel : ℕ) (s : State) → length s.pending_bytes < vad_chunk_bytes → drain cfg ticks fuel s ≡ s
  unfolding drain
  drain_done zero s lt = refl
  drain_done (suc fuel) s lt =
      if-false (leb vad_chunk_bytes (length s.pending_bytes)) _ _ (ground arith)

  is_long :
      (s : State)
      → (vad_chunk_bytes ≤ length s.pending_bytes) ⊎ (length s.pending_bytes < vad_chunk_bytes)
  is_long s = omega arith

  cut-length : (s : State) → length (cut s).pending_bytes ≡ length s.pending_bytes - vad_chunk_bytes
  cut-length s = length-drop vad_chunk_bytes s.pending_bytes

  -- Any fuel that is enough gives the same.
  drain_enough :
      (fuel more : ℕ) (s : State)
      → length s.pending_bytes ≤ fuel
      → length s.pending_bytes ≤ more
      → drain cfg ticks fuel s ≡ drain cfg ticks more s
  drain_enough zero more s le le' =
      drain_done zero s (omega (arith, le)) ∙ sym (drain_done more s (omega (arith, le)))
  drain_enough (suc fuel) zero s le le' =
      drain_done (suc fuel) s (omega (arith, le')) ∙ sym (drain_done zero s (omega (arith, le')))
  drain_enough (suc fuel) (suc more) s le le' = elim (is_long s) [
    | inl long ↦
        drain_step fuel s long
        ∙ drain_enough fuel more (cut s) (omega (arith, cut-length s, long, le))
            (omega (arith, cut-length s, long, le'))
        ∙ sym (drain_step more s long)
    | inr short ↦ drain_done (suc fuel) s short ∙ sym (drain_done (suc more) s short)
  ]

  cut-more :
      (chunk : List ℕ) (s : State)
      → vad_chunk_bytes ≤ length s.pending_bytes
      → cut (with_bytes chunk s) ≡ with_bytes chunk (cut s)
  cut-more chunk s long =
      ap
        (λ bytes. record {
          pending_bytes = bytes;
          seen = s.seen + 1;
          segment =
              on_block cfg (ticks s.seen) (take vad_chunk_bytes (s.pending_bytes ++ chunk))
                s.segment;
        })
        (drop-more vad_chunk_bytes s.pending_bytes chunk long)
      ∙ ap
          (λ block. record {
            pending_bytes = drop vad_chunk_bytes s.pending_bytes ++ chunk;
            seen = s.seen + 1;
            segment = on_block cfg (ticks s.seen) block s.segment;
          })
          (take-more vad_chunk_bytes s.pending_bytes chunk long)

  drain-short :
      (fuel more later : ℕ) (chunk : List ℕ) (s : State)
      → length (s.pending_bytes ++ chunk) ≤ more
      → length ((drain cfg ticks fuel s).pending_bytes ++ chunk) ≤ later
      → length s.pending_bytes < vad_chunk_bytes
      → drain cfg ticks more (with_bytes chunk s)
        ≡ drain cfg ticks later (with_bytes chunk (drain cfg ticks fuel s))
  drain-short fuel more later chunk s le le' short =
      let same = drain_done fuel s short in
      drain_enough more later (with_bytes chunk s) le
        (omega (arith, le', ap (λ x. length (x.pending_bytes ++ chunk)) same))
      ∙ ap (λ x. drain cfg ticks later (with_bytes chunk x)) (sym same)

  -- More audio that is there while the loop runs, and more that comes after it.
  drain-more :
      (fuel more later : ℕ) (chunk : List ℕ) (s : State)
      → length s.pending_bytes ≤ fuel
      → length (s.pending_bytes ++ chunk) ≤ more
      → length ((drain cfg ticks fuel s).pending_bytes ++ chunk) ≤ later
      → drain cfg ticks more (with_bytes chunk s)
        ≡ drain cfg ticks later (with_bytes chunk (drain cfg ticks fuel s))
  drain-more zero more later chunk s le le' le'' =
      drain-short zero more later chunk s le' le'' (omega (arith, le))
  drain-more (suc f) zero later chunk s le le' le'' =
      drain-short (suc f) zero later chunk s le' le''
        (omega (arith, le', length-append s.pending_bytes chunk))
  drain-more (suc f) (suc m) later chunk s le le' le'' = elim (is_long s) [
    | inr short ↦ drain-short (suc f) (suc m) later chunk s le' le'' short
    | inl long ↦
        let sizes = length-append s.pending_bytes chunk in
        let sizes' = length-append (cut s).pending_bytes chunk in
        let stepped = drain_step f s long in
        drain_step m (with_bytes chunk s) (omega (arith, sizes, long))
        ∙ ap (drain cfg ticks m) (cut-more chunk s long)
        ∙ drain-more f m later chunk (cut s) (omega (arith, cut-length s, long, le))
            (omega (arith, cut-length s, sizes, sizes', long, le'))
            (omega (arith, le'', ap (λ x. length (x.pending_bytes ++ chunk)) stepped))
        ∙ ap (λ x. drain cfg ticks later (with_bytes chunk x)) (sym stepped)
  ]

  -- Two messages of audio do what one message with the audio of both does: the same transcripts are
  -- sent, and the same bytes wait for more.
  pub handle_audio-append :
      (first second : List ℕ) (s : State)
      → handle_audio cfg ticks second (handle_audio cfg ticks first s)
        ≡ handle_audio cfg ticks (first ++ second) s
  unfolding handle_audio
  handle_audio-append first second s =
      let one = with_bytes first s in
      let fuel = length one.pending_bytes in
      let drained = drain cfg ticks fuel one in
      let both = s.pending_bytes ++ (first ++ second) in
      let assoc = append_assoc s.pending_bytes first second in
      let more =
        drain-more fuel (length both) (length (drained.pending_bytes ++ second)) second one
          (omega arith) (omega (arith, ap length assoc)) (omega arith) in
      sym more
      ∙ ap (λ bytes. drain cfg ticks (length both) (record s { pending_bytes = bytes })) assoc
