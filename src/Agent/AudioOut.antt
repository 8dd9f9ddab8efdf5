-- ===== src/Agent/AudioOut.antt =====
-- workers/src/aipanel_worker/audio_out.py, with the queue of frames that call_session.py gives it: from
-- the answers of the TTS server to 20 ms frames for the SIP socket. While the pipeline waits, the writer
-- takes frames, the caller barges in or the call stops it: these are the events that stand before each
-- chunk. The stream is closed at the end of the list of requests where the code would wait for more.
pub mod Frames
pub mod Queue
mod Tests
use aipanel.Base.{
  ℕ, zero, suc, ◌+◌, ◌-◌, ◌≡◌, Bool, true, false, not, ◌&&◌, ◌||◌, List, [], ◌∷◌, ◌++◌, Option,
  none, some, is_empty, length, take, drop, replicate, ltb, leb, nat_eq, if◌then◌else◌,
}
use aipanel.Sip.Frame.Wire.{Bytes}

abbrev pub pcm_frame_bytes : ℕ
pcm_frame_bytes = 320

abbrev pub frames_out_maxsize : ℕ
frames_out_maxsize = 200

-- The queue of frames with the oldest first, the two events, the flag that the speech callbacks set,
-- and the frames that the writer took.
pub record Playout : Type 0 where
  pub frames_out : List Bytes
  pub audio_drops : ℕ
  pub cancelled : Bool
  pub stopped : Bool
  pub is_speaking : Bool
  pub taken : List Bytes

-- `_enqueue_frame`.
abbrev pub drop_oldest : Playout → List Bytes → Playout
drop_oldest p [] = p
drop_oldest p (oldest ∷ frames) = record p { frames_out = frames; audio_drops = p.audio_drops + 1 }

abbrev pub put_frame : Bytes → Playout → Playout
put_frame frame p = record p { frames_out = p.frames_out ++ frame ∷ [] }

pub enqueue_frame : Bytes → Playout → Playout
enqueue_frame frame p =
    if ltb (length p.frames_out) frames_out_maxsize
    then put_frame frame p
    else put_frame frame (drop_oldest p p.frames_out)

abbrev pub pad : Bytes → Bytes
pad chunk = chunk ++ replicate (pcm_frame_bytes - length chunk) 0

-- `_enqueue_audio_bytes`; the fuel is the number of bytes.
pub enqueue_pieces : ℕ → Bytes → Playout → Playout
unfolding enqueue_frame
enqueue_pieces zero pcm p = p
enqueue_pieces (suc fuel) pcm p =
    let rest =
      enqueue_pieces fuel (drop pcm_frame_bytes pcm)
        (enqueue_frame (pad (take pcm_frame_bytes pcm)) p) in
    if is_empty pcm || p.cancelled || p.stopped then p else rest

pub enqueue_audio_bytes : Bytes → Playout → Playout
unfolding enqueue_pieces
enqueue_audio_bytes pcm p = enqueue_pieces (length pcm) pcm p

-- What others do to the pipeline: the writer takes a frame, the barge-in monitor cancels the speech and
-- drains the queue, and `stop`.
pub data Event : Type 0 where
  writer_takes barges_in stops : Event

abbrev pub take_frame : Playout → List Bytes → Playout
take_frame p [] = p
take_frame p (frame ∷ frames) = record p { frames_out = frames; taken = p.taken ++ frame ∷ [] }

unfoldable pub happen : Event → Playout → Playout
happen writer_takes p = take_frame p p.frames_out
happen barges_in p = record p { cancelled = true; frames_out = [] }
happen stops p = record p { stopped = true }

pub happen_all : List Event → Playout → Playout
happen_all [] p = p
happen_all (e ∷ es) p = happen_all es (happen e p)

-- The loop that cuts full frames off the bytes that wait; the fuel is their number.
pub cut_frames : ℕ → Bytes → Playout → Bytes × Playout
cut_frames zero leftover p = (leftover, p)
cut_frames (suc fuel) leftover p =
    let rest =
      cut_frames fuel (drop pcm_frame_bytes leftover)
        (enqueue_frame (take pcm_frame_bytes leftover) p) in
    if leb pcm_frame_bytes (length leftover) then rest else (leftover, p)

abbrev pub pad_out : Bytes → Playout → Bool × Playout
pad_out leftover p = (false, if is_empty leftover then p else enqueue_frame (pad leftover) p)

-- The body of an answer: the chunks, each with the events before it, those before its end, and whether
-- the stream fails there.
pub record Body : Type 0 where
  pub chunks : List (List Event × Bytes)
  pub last : List Event
  pub fails : Bool

pub stream_chunks : List (List Event × Bytes) → Body → Bytes → Playout → Bool × Playout
stream_chunks [] body leftover p =
    if body.fails
    then (false, happen_all body.last p)
    else pad_out leftover (happen_all body.last p)
stream_chunks ((events, chunk) ∷ chunks) body leftover p =
    let now = happen_all events p in
    let cut = cut_frames (length (leftover ++ chunk)) (leftover ++ chunk) now in
    let rest = stream_chunks chunks body cut.0 cut.1 in
    if now.cancelled || now.stopped then (true, now) else rest

-- The answer of the TTS server: none where it cannot be reached.
pub data Response : Type 0 where
  unreachable : Response
  answered : ℕ → Body → Response

-- `_stream_tts`: whether the speech was cancelled.
pub stream_tts : Response → Playout → Bool × Playout
stream_tts unreachable p = (false, p)
stream_tts (answered status body) p =
    if nat_eq status 200 then stream_chunks body.chunks body [] p else (false, p)

-- A request with the answer to it; `audio` is not empty where the speech is rendered already.
pub record SpeechRequest : Type 0 where
  pub audio : Bytes
  pub response : Response

pub on_speech_started : Playout → Playout
on_speech_started p = record p { is_speaking = true }

on_speech_finished : Playout → Playout
on_speech_finished p = record p { is_speaking = false }

abbrev pub start_speech : Playout → Playout
start_speech p = on_speech_started (record p { cancelled = false })

abbrev render : SpeechRequest → Playout → Playout
render req p =
    if is_empty req.audio then (stream_tts req.response p).1 else enqueue_audio_bytes req.audio p

pub speak : SpeechRequest → Playout → Playout
unfolding on_speech_started on_speech_finished
speak req p = on_speech_finished (render req (start_speech p))

-- `run`, over what it gets from the queue of speech; none is the mark that `stop` puts.
pub run : List (List Event × Option SpeechRequest) → Playout → Playout
unfolding speak
run [] p = p
run ((events, none) ∷ items) p = if p.stopped then p else happen_all events p
run ((events, some req) ∷ items) p =
    if p.stopped then p else run items (speak req (happen_all events p))
