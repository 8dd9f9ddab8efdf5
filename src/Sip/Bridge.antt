-- ===== src/Sip/Bridge.antt =====
-- sip/src/aipanel_sip/audio_bridge.py, class AudioBridge and its media port: the glue between one
-- PJSIP call and the worker on the unix socket. A method returns the bridge that it leaves; the
-- outcome of a system call is an argument. The lock makes each queue operation one step.
pub mod Loops
pub mod Queues
pub mod Traffic
pub mod Reader
pub mod Heard
pub mod Effects
pub mod Lifecycle
mod Tests
use aipanel.Base.{
  ℕ, zero, suc, ◌+◌, ◌≡◌, Bool, true, false, List, [], ◌∷◌, ◌++◌, Option, none, some, length, take,
  drop, replicate, ltb, leb, nat_eq, is_empty, if◌then◌else◌,
}
use aipanel.Sip.Frame.Wire.{Bytes}
use aipanel.Sip.Frame.{
  Frame, Encoded, ok, raised, encode_frame, frame_audio_in, frame_audio_out, frame_control,
  frame_hangup, frame_dtmf,
}

abbrev pcm_frame_bytes : ℕ
pcm_frame_bytes = 320

abbrev pub silence_frame : Bytes
silence_frame = replicate pcm_frame_bytes 0

abbrev pub queue_max_frames : ℕ
queue_max_frames = 50

-- The sockets, the port and the file under `socket_path` are there or not. `dropped`, `hangups` and
-- `dtmf` record the calls of `on_dropped_frame`, `on_worker_hangup` and `on_dtmf_from_worker`;
-- `sent` is what `sendall` was given, the oldest first.
pub record Bridge : Type 0 where
  pub inbound : List Bytes
  pub outbound : List Bytes
  pub listener : Bool
  pub client : Bool
  pub port : Bool
  pub threads : Bool
  pub shutdown : Bool
  pub closed : Bool
  pub path : Bool
  pub dropped : ℕ
  pub hangups : ℕ
  pub dtmf : List Bytes
  pub sent : List Bytes

-- `__init__`, where `path` says whether a file is there already.
unfoldable pub init : Bool → Bridge
init path = record {
  inbound = [];
  outbound = [];
  listener = false;
  client = false;
  port = false;
  threads = false;
  shutdown = false;
  closed = false;
  path = path;
  dropped = 0;
  hangups = 0;
  dtmf = [];
  sent = [];
}

-- `deque(maxlen=QUEUE_MAX_FRAMES).append`.
abbrev pub deque_append : List Bytes → Bytes → List Bytes
deque_append q frame =
    let longer = q ++ frame ∷ [] in
    if ltb queue_max_frames (length longer) then drop 1 longer else longer

abbrev pub is_full : List Bytes → Bool
is_full q = leb queue_max_frames (length q)

abbrev pub make_room : List Bytes → List Bytes
make_room q = if is_full q then drop 1 q else q

abbrev pub count_drop : List Bytes → ℕ → ℕ
count_drop q dropped = if is_full q then dropped + 1 else dropped

pub enqueue_inbound : Bytes → Bridge → Bridge
enqueue_inbound frame b = record b {
  inbound = deque_append (make_room b.inbound) frame;
  dropped = count_drop b.inbound b.dropped;
}

-- `popleft`, where IndexError is none.
abbrev pub popleft : List Bytes → Option Bytes × List Bytes
popleft [] = (none, [])
popleft (f ∷ q) = (some f, q)

abbrev or_silence : Option Bytes → Bytes
or_silence none = silence_frame
or_silence (some f) = f

pub dequeue_outbound : Bridge → Bridge × Bytes
dequeue_outbound b =
    let (front, rest) = popleft b.outbound in (record b { outbound = rest }, or_silence front)

-- The media port's director hooks: a frame that is no audio is left alone, and an audio frame is
-- cut to its size.
pub on_frame_received : Bool → Bytes → ℕ → Bridge → Bridge
unfolding enqueue_inbound
on_frame_received is_audio buf size b = if is_audio then enqueue_inbound (take size buf) b else b

unfoldable on_frame_requested : Bridge → Bridge × Bytes × ℕ
unfolding dequeue_outbound
on_frame_requested b = let (b', audio) = dequeue_outbound b in (b', audio, length audio)

pub data SendResult : Type 0 where
  -- `return True`, `return False`, and an exception of `encode_frame`, which `_send` lets through
  delivered failed encode_failed : SendResult

abbrev send_encoded : Encoded → Bool → Bridge → Bridge × SendResult
send_encoded (ok wire) true b = (record b { sent = b.sent ++ wire ∷ [] }, delivered)
send_encoded (ok wire) false b = (record b { shutdown = true }, failed)
send_encoded (raised e) sendall b = (b, encode_failed)

-- `_send`; `sendall` says whether the socket takes the bytes.
unfoldable pub send : ℕ → Bytes → Bool → Bridge → Bridge × SendResult
send ftype payload sendall b =
    if b.client then send_encoded (encode_frame ftype payload) sendall b else (b, failed)

-- `send_control`, on the encoded JSON; `send_dtmf`, on the code points of the digit.
unfoldable pub send_control : Bytes → Bool → Bridge → Bridge × SendResult
unfolding send
send_control event sendall b = send frame_control event sendall b

abbrev pub ascii_or_question : ℕ → ℕ
ascii_or_question c = if ltb c 128 then c else b'?'

pub send_dtmf : List ℕ → Bool → Bridge → Bridge
unfolding send
send_dtmf [] sendall b = b
send_dtmf (c ∷ digits) sendall b = (send frame_dtmf (ascii_or_question c ∷ []) sendall b).0

pub send_hangup : Bool → Bridge → Bridge × SendResult
unfolding send
send_hangup sendall b = send frame_hangup [] sendall b

-- `setup_socket`; none is OSError, raised by `bind`, `chmod` or `listen` before the listener is kept.
unfoldable pub setup_socket : Bool → Bridge → Option Bridge
setup_socket works b = if works then some (record b { listener = true; path = true }) else none

pub data Accept : Type 0 where
  connected timed_out os_error : Accept

pub data AcceptResult : Type 0 where
  accepted : Bridge → AcceptResult
  runtime_error timeout_error accept_error : AcceptResult

abbrev pub accept_listener : Accept → Bridge → AcceptResult
accept_listener connected b = accepted (record b { client = true; threads = true })
accept_listener timed_out b = timeout_error
accept_listener os_error b = accept_error

unfoldable pub accept_worker : Accept → Bridge → AcceptResult
accept_worker outcome b = if b.listener then accept_listener outcome b else runtime_error

pub attach_media : Bridge → Bridge
attach_media b = record b { port = true }

-- `close`; `unlink` says whether the file can be removed. The errors of the sockets are dropped.
unfoldable pub close : Bool → Bridge → Bridge
close unlink b = if b.closed then b else record b {
  closed = true;
  shutdown = true;
  port = false;
  client = false;
  listener = false;
  path = if unlink then false else b.path;
}
