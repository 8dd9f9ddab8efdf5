-- ===== src/Stt/Stream/Session.antt =====
-- stt-server/src/aipanel_stt/streaming.py: the control messages, and the websocket session.
use aipanel.Base.{
  ℕ, String, Bool, true, false, not, ◌&&◌, List, [], ◌∷◌, ◌++◌, Option, none, some, nat_eq,
  is_empty, ◌==◌, string_Key, if◌then◌else◌,
}
use aipanel.Stt.Stream.{
  sample_rate, Config, Message, invalid_json, sample_rate_error, Segment, Tick, is_set, emit_final,
  State, handle_audio,
}

-- A control message, as far as the code reads its JSON: a start with its language and sample rate.
pub data Control : Type 0 where
  not_json end_control unknown_control : Control
  start_control : Option String → Option ℕ → Control

abbrev or_language : Option String → String → String
or_language none default = default
or_language (some l) default = if l == "" then default else l

abbrev or_rate : Option ℕ → ℕ
or_rate none = sample_rate
or_rate (some r) = if nat_eq r 0 then sample_rate else r

abbrev tell : Message → Segment → Segment
tell m s = record s { sent = s.sent ++ m ∷ [] }

-- `_handle_control`, with whether it returns "end". A wrong sample rate is reported, and used all the same.
unfoldable handle_control : Config → Control → Segment → Segment × Bool
handle_control cfg not_json s = (tell invalid_json s, false)
handle_control cfg end_control s = (s, true)
handle_control cfg unknown_control s = (s, false)
handle_control cfg (start_control language rate) s =
    let started = record s { language = or_language language cfg.language } in
    (if nat_eq (or_rate rate) sample_rate then started else tell sample_rate_error started, false)

-- `_finalize`.
unfoldable finalize : Config → Segment → Segment
finalize cfg s =
    if is_set s.speech_started_at && not (is_empty s.speech_buffer) then emit_final cfg s else s

pub data Received : Type 0 where
  control : Control → Received
  audio : List ℕ → Received
  disconnect : Received

abbrev unless_ended : Config → Segment × Bool → (Segment → State) → State → State
unless_ended cfg (s, false) go st = go s
unless_ended cfg (s, true) go st = record st { segment = finalize cfg s }

-- `stream`, on what the client sends.
unfoldable stream : Config → (ℕ → Tick) → List Received → State → State
stream cfg ticks [] st = st
stream cfg ticks (disconnect ∷ rest) st = st
stream cfg ticks (audio chunk ∷ rest) st = stream cfg ticks rest (handle_audio cfg ticks chunk st)
stream cfg ticks (control c ∷ rest) st =
    unless_ended cfg (handle_control cfg c st.segment)
      (λ s. stream cfg ticks rest (record st { segment = s })) st
