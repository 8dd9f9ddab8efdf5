-- ===== src/Agent/Session.antt =====
-- workers/src/aipanel_worker/call_session.py: the loops of one call on the SIP socket, and the monitor that
-- lets the caller barge in. A loop gets a list of what it waits for, and is cancelled at the end of the list.
pub mod Loops
pub mod Config
pub mod Ending
mod Tests
use aipanel.Base.{
  ℕ, zero, suc, ◌+◌, ◌-◌, ◌≡◌, String, Text, Bool, true, false, ◌&&◌, List, [], ◌∷◌, ◌++◌, Option,
  none, some, length, ltb, nat_eq, if◌then◌else◌,
}
use aipanel.Sip.Frame.Wire.{Bytes}
use aipanel.Sip.Frame.{
  Frame, Encoded, ok, raised, frame_audio_in, frame_audio_out, frame_hangup, frame_dtmf,
}
use aipanel.Sip.Frame.Peer.{encode_frame}
use aipanel.Agent.AudioOut.{Playout}
use aipanel.Agent.Recorder
use aipanel.Agent.Recorder.{Recorder}
use aipanel.Agent.BargeIn.{Heard, should_barge_in}

-- The queue of `AudioInPipeline`, the recorder, what was written to the transcript, the playout, and what
-- was sent to the SIP socket.
pub record CallSession : Type 0 where
  pub frames_in : List Bytes
  pub recorder : Option Recorder
  pub transcripts : List (String × Text)
  pub playout : Playout
  pub sent : List Bytes
  pub barge_ins : ℕ
  pub call_ended : Bool

abbrev frames_in_maxsize : ℕ
frames_in_maxsize = 200

-- `feed` of audio_in.py: a frame that finds the queue full is dropped.
pub feed : Bytes → List Bytes → List Bytes
feed pcm frames = if ltb (length frames) frames_in_maxsize then frames ++ pcm ∷ [] else frames

abbrev pub record_inbound : Bytes → Option Recorder → Option Recorder
record_inbound pcm none = none
record_inbound pcm (some r) = some (Recorder.write_inbound pcm r)

abbrev record_outbound : Bytes → Option Recorder → Option Recorder
record_outbound pcm none = none
record_outbound pcm (some r) = some (Recorder.write_outbound pcm r)

-- `decode("ascii", "replace")`.
unfoldable pub decode_ascii : Bytes → Text
decode_ascii [] = []
decode_ascii (b ∷ bs) = (if ltb b 128 then b else 0xFFFD) ∷ decode_ascii bs

-- What `read_frame` gives.
pub data Read : Type 0 where
  frame : Frame → Read
  eof : Read

abbrev pub end_call : CallSession → CallSession
end_call s = record s { call_ended = true }

abbrev pub take_audio : Bytes → CallSession → CallSession
take_audio pcm s = record s {
  frames_in = feed pcm s.frames_in;
  recorder = record_inbound pcm s.recorder;
}

abbrev pub take_dtmf : Bytes → CallSession → CallSession
take_dtmf payload s = record s {
  transcripts = s.transcripts ++ ("dtmf", decode_ascii payload) ∷ [];
}

-- `_sip_read_loop`.
pub sip_read_loop : List Read → CallSession → CallSession
sip_read_loop [] s = s
sip_read_loop (eof ∷ reads) s = if s.call_ended then s else end_call s
sip_read_loop (frame (ftype, payload) ∷ reads) s =
    let audio = sip_read_loop reads (take_audio payload s) in
    let dtmf = sip_read_loop reads (take_dtmf payload s) in
    let rest = sip_read_loop reads s in
    if s.call_ended
    then s
    else if nat_eq ftype frame_audio_in
    then audio
    else if nat_eq ftype frame_hangup
    then end_call s
    else if nat_eq ftype frame_dtmf
    then dtmf
    else rest

-- A round of `_sip_write_loop`; `up` says whether the socket takes the bytes. Where the frame cannot
-- be encoded, the task dies.
abbrev pub popped : List Bytes → Bytes → CallSession → CallSession
popped frames pcm s = record s {
  playout = record s.playout { frames_out = frames; taken = s.playout.taken ++ pcm ∷ [] };
}

abbrev pub send_encoded : Bool → Bytes → Encoded → CallSession → CallSession
send_encoded up pcm (raised e) s = s
send_encoded up pcm (ok bytes) s =
    if up
    then record s { sent = s.sent ++ bytes ∷ []; recorder = record_outbound pcm s.recorder }
    else end_call s

abbrev pub write_next : Bool → List Bytes → CallSession → CallSession
write_next up [] s = s
write_next up (pcm ∷ frames) s =
    send_encoded up pcm (encode_frame frame_audio_out pcm) (popped frames pcm s)

pub sip_write_step : Bool → CallSession → CallSession
sip_write_step up s = if s.call_ended then s else write_next up s.playout.frames_out s

-- A partial transcript; the time is in ms.
pub record SttPartial : Type 0 where
  pub text : Text
  pub stability : ℕ
  pub received_at : ℕ

-- The settings of the monitor.
pub record BargeInConfig : Type 0 where
  pub min_words : ℕ
  pub min_duration_ms : ℕ
  pub stability_threshold : ℕ

abbrev spoken_for : Option ℕ → ℕ → ℕ
spoken_for none now = 0
spoken_for (some since) now = now - since

abbrev pub heard : BargeInConfig → Option ℕ → SttPartial → CallSession → Heard
heard cfg since p s = record {
  partial_text = p.text;
  partial_stability = p.stability;
  partial_duration_ms = spoken_for since p.received_at;
  is_speaking = s.playout.is_speaking;
  min_words = cfg.min_words;
  min_duration_ms = cfg.min_duration_ms;
  stability_threshold = cfg.stability_threshold;
}

-- The speech is cancelled and the queue of frames drained.
pub barge_in : SttPartial → CallSession → CallSession
barge_in p s = record s {
  playout = record s.playout { cancelled = true; frames_out = [] };
  barge_ins = s.barge_ins + 1;
  transcripts = s.transcripts ++ ("barge_in", p.text) ∷ [];
}

abbrev pub since_when : Option ℕ → ℕ → Option ℕ
since_when none now = some now
since_when (some since) now = some since

-- `_barge_in_loop`: none is half a second without a partial.
pub barge_in_loop : BargeInConfig → List (Option SttPartial) → Option ℕ → CallSession → CallSession
barge_in_loop cfg [] since s = s
barge_in_loop cfg (none ∷ partials) since s =
    let rest = barge_in_loop cfg partials none s in if s.call_ended then s else rest
barge_in_loop cfg (some p ∷ partials) since s =
    let now = if (should_barge_in (heard cfg since p s)).cancel_tts then barge_in p s else s in
    let rest = barge_in_loop cfg partials (since_when since p.received_at) now in
    if s.call_ended then s else rest
