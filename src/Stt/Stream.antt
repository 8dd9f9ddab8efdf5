-- ===== src/Stt/Stream.antt =====
-- stt-server/src/aipanel_stt/streaming.py: audio frames in, partial and final transcripts out.
-- Times are milliseconds, stabilities hundredths; a block of audio is kept as its bytes. `transcribe`
-- is faster-whisper's, on a language, a beam size and the blocks; what silero makes of a block and
-- what the clock says are in `Tick`, by the number of the block. A message that the socket no longer
-- takes is dropped by the code, and here sent.
pub mod Session
pub mod Chunks
pub mod Segments
pub mod Finals
mod Tests
use aipanel.Base.{
  is_some, ℕ, zero, suc, ◌+◌, ◌-◌, ◌*◌, ◌/◌, ◌≡◌, min, String, Text, Bool, true, false, not, ◌&&◌,
  ◌||◌, List, [], ◌∷◌, ◌++◌, Option, none, some, length, take, drop, leb, ltb, nat_eq, is_empty,
  ◌==◌, string_Key, if◌then◌else◌,
}
use aipanel.Base.Texts.{starts_with, same_text}

abbrev pub Block : Type 0
Block = List ℕ

abbrev pub vad_chunk_bytes : ℕ
vad_chunk_bytes = 1024

abbrev sample_rate : ℕ
sample_rate = 16000

pub record Config : Type 0 where
  pub language : String
  pub beam_size : ℕ
  pub beam_size_partial : ℕ
  pub partial_interval_ms : ℕ
  pub max_segment_ms : ℕ
  pub transcribe : Option String → ℕ → List Block → Text

pub data Message : Type 0 where
  partial : Text → ℕ → Message
  final : Text → ℕ → Message
  invalid_json sample_rate_error : Message

-- `_StreamState` without `pending_bytes`, and what was sent, the oldest first.
pub record Segment : Type 0 where
  pub language : String
  pub speech_buffer : List Block
  pub speech_started_at : Option ℕ
  pub last_partial_at : ℕ
  pub last_partial_text : Text
  pub partial_repeat_count : ℕ
  pub sent : List Message

-- The VAD's event on a block, and the clock where the loop reads it: at the start of speech, for the
-- cap, for the partial.
pub record Tick : Type 0 where
  pub has_start : Bool
  pub has_end : Bool
  pub start_time : ℕ
  pub cap_time : ℕ
  pub partial_time : ℕ

-- `speech_active`.
abbrev pub is_set : Option ℕ → Bool
is_set t = is_some t

abbrev pub since : Option ℕ → ℕ → ℕ
since none now = now
since (some t) now = now - t

-- `speech_samples().size`, of 16 bit each.
abbrev pub samples : List Block → ℕ
samples [] = 0
samples (b ∷ blocks) = length b / 2 + samples blocks

-- `_stability`.
unfoldable pub stability : Text → Text → ℕ → ℕ
stability prev current repeat_count =
    if is_empty current
    then 0
    else if same_text current prev
    then min (50 + 10 * repeat_count) 90
    else if not (is_empty prev) && starts_with prev current
    then 70
    else 40

-- The language that whisper gets: none lets it detect one.
language_argument : String → Option String
language_argument language = if language == "" || language == "auto" then none else some language

-- `_run_whisper`.
unfoldable pub run_whisper : Config → List Block → String → ℕ → Text
unfolding language_argument
run_whisper cfg pcm language beam = cfg.transcribe (language_argument language) beam pcm

abbrev pub send_partial : Text → Segment → Segment
send_partial text s =
    let count = if same_text text s.last_partial_text then s.partial_repeat_count + 1 else 0 in
    record s {
      partial_repeat_count = count;
      last_partial_text = text;
      sent = s.sent ++ partial text (stability s.last_partial_text text count) ∷ [];
    }

-- `_emit_partial`: nothing before a quarter of a second.
pub emit_partial : Config → Segment → Segment
emit_partial cfg s =
    if ltb (samples s.speech_buffer) (sample_rate / 4)
    then s
    else send_partial (run_whisper cfg s.speech_buffer s.language cfg.beam_size_partial) s

-- `_emit_final`. A buffer is a number of whole blocks, so the division by 16 is exact.
pub emit_final : Config → Segment → Segment
emit_final cfg s = if nat_eq (samples s.speech_buffer) 0 then s else record s {
  sent =
      s.sent
      ++ final (run_whisper cfg s.speech_buffer s.language cfg.beam_size)
          (samples s.speech_buffer / 16)
        ∷ [];
}

-- `_reset_segment`.
pub reset_segment : Segment → Segment
reset_segment s = record s {
  speech_buffer = [];
  speech_started_at = none;
  last_partial_at = 0;
  last_partial_text = [];
  partial_repeat_count = 0;
}

pub finish : Config → Segment → Segment
finish cfg s = reset_segment (emit_final cfg s)

-- A block is kept while somebody speaks, and where the VAD has an event.
pub keep_block : Tick → Block → Segment → Segment
keep_block t block s =
    if is_set s.speech_started_at || t.has_start || t.has_end
    then record s { speech_buffer = s.speech_buffer ++ block ∷ [] }
    else s

pub begin_speech : Tick → Segment → Segment
begin_speech t s =
    if t.has_start && not (is_set s.speech_started_at)
    then record s {
      speech_started_at = some t.start_time;
      last_partial_text = [];
      partial_repeat_count = 0;
    }
    else s

pub end_speech : Config → Tick → Segment → Segment
end_speech cfg t s = if t.has_end && is_set s.speech_started_at then finish cfg s else s

pub maybe_partial : Config → Tick → Segment → Segment
maybe_partial cfg t s =
    if leb cfg.partial_interval_ms (t.partial_time - s.last_partial_at)
    then emit_partial cfg (record s { last_partial_at = t.partial_time })
    else s

-- The cap on a segment's length, and the partial of one that may go on.
pub cap_or_partial : Config → Tick → Segment → Segment
cap_or_partial cfg t s =
    if is_set s.speech_started_at
    then (if leb cfg.max_segment_ms (since s.speech_started_at t.cap_time)
        then finish cfg s
        else maybe_partial cfg t s)
    else s

-- One round of the loop of `_handle_audio`.
pub on_block : Config → Tick → Block → Segment → Segment
on_block cfg t block s =
    cap_or_partial cfg t (end_speech cfg t (begin_speech t (keep_block t block s)))

-- `pending_bytes`, how many blocks were cut off it so far, and the rest of the state.
pub record State : Type 0 where
  pub pending_bytes : List ℕ
  pub seen : ℕ
  pub segment : Segment

-- The loop; the fuel is the bytes that wait.
pub drain : Config → (ℕ → Tick) → ℕ → State → State
drain cfg ticks zero s = s
drain cfg ticks (suc fuel) s =
    let rest = drain cfg ticks fuel (record {
      pending_bytes = drop vad_chunk_bytes s.pending_bytes;
      seen = s.seen + 1;
      segment = on_block cfg (ticks s.seen) (take vad_chunk_bytes s.pending_bytes) s.segment;
    }) in
    if leb vad_chunk_bytes (length s.pending_bytes) then rest else s

abbrev pub with_bytes : List ℕ → State → State
with_bytes chunk s = record s { pending_bytes = s.pending_bytes ++ chunk }

-- `_handle_audio`.
pub handle_audio : Config → (ℕ → Tick) → List ℕ → State → State
handle_audio cfg ticks chunk s =
    drain cfg ticks (length (s.pending_bytes ++ chunk)) (with_bytes chunk s)
