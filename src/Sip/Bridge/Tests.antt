-- ===== src/Sip/Bridge/Tests.antt =====
-- A bridge on concrete traffic.
use aipanel.Base.{Bool, ◌≡◌, refl, List, [], ◌∷◌, ◌++◌, some, true, false, arith}
use aipanel.Sip.Frame.Wire.{Bytes}
use aipanel.Sip.Frame.Stream.{Socket, piece, IsStream}
use aipanel.Sip.Frame.{Frame, encode_frame, frame_audio_out, frame_hangup, frame_dtmf}
use aipanel.Sip.Bridge.{
  Bridge, init, setup_socket, accept_worker, accepted, enqueue_inbound, connected, close,
  dequeue_outbound, silence_frame,
}
use aipanel.Sip.Bridge.Loops.{escape, read_loop, write_step}
use aipanel.Sip.Bridge.Queues.{enqueue_all}
use aipanel.Sip.Bridge.Traffic.{Op, rtp, write, apply, run, received, Flowed, run_in_order}
use aipanel.Sip.Bridge.Reader.{Encodes, nothing, frame}
use aipanel.Sip.Bridge.Effects.{serve, read_loop-serve}
use aipanel.Sip.Bridge.Lifecycle.{
  Reach, start, next, worker_accepted, closing, IsValid, reach-IsValid,
}

abbrev listening : Bridge
listening = record {
  inbound = [];
  outbound = [];
  listener = true;
  client = false;
  port = false;
  threads = false;
  shutdown = false;
  closed = false;
  path = true;
  dropped = 0;
  hangups = 0;
  dtmf = [];
  sent = [];
}

abbrev serving : Bridge
serving = record listening { client = true; threads = true }

setup_listening : setup_socket true (init false) ≡ some listening
unfolding setup_socket init
setup_listening = refl

listening_reached : Reach listening
listening_reached = start false setup_listening

accept_serving : accept_worker connected listening ≡ accepted serving
unfolding accept_worker
accept_serving = refl

serving_reached : Reach serving
serving_reached = next listening_reached (worker_accepted connected accept_serving)

-- One second of the caller's audio waits; two more frames push two out.
burst : (enqueue_all ((1 ∷ []) ∷ (2 ∷ []) ∷ []) serving).inbound ≡ (1 ∷ []) ∷ (2 ∷ []) ∷ []
unfolding enqueue_all enqueue_inbound
burst = refl

underflow : (dequeue_outbound serving).1 ≡ silence_frame
unfolding dequeue_outbound
underflow = refl

abbrev ops : List Op
ops = rtp (7 ∷ []) ∷ write true ∷ rtp (8 ∷ []) ∷ []

mixed_traffic : (run ops serving).sent ≡ (0 ∷ 0 ∷ 0 ∷ 2 ∷ 1 ∷ 7 ∷ []) ∷ []
unfolding run apply enqueue_inbound write_step encode_frame
mixed_traffic = refl

run_in_order_example : Flowed (received ops) serving (run ops serving)
run_in_order_example = run_in_order ops serving

-- The worker plays one frame, sends a digit and hangs up; what is behind that is not read.
abbrev traffic : List Frame
traffic = (frame_audio_out, 9 ∷ []) ∷ (frame_dtmf, b'1' ∷ []) ∷ (frame_hangup, []) ∷ []

abbrev wire : Bytes
wire =
    (0 ∷ 0 ∷ 0 ∷ 2 ∷ 2 ∷ 9 ∷ [])
    ++ (0 ∷ 0 ∷ 0 ∷ 2 ∷ 0x12 ∷ b'1' ∷ [])
    ++ (0 ∷ 0 ∷ 0 ∷ 1 ∷ 0x11 ∷ [])
    ++ []

abbrev arriving : Socket
arriving = piece wire ∷ []

wire-Encodes : Encodes traffic wire
unfolding encode_frame
wire-Encodes = frame refl (frame refl (frame refl nothing))

arriving-IsStream : IsStream arriving
arriving-IsStream = omega arith

-- No payload is JSON.
abbrev no_json : Bytes → Bool
no_json payload = true

read_loop-serve_example :
    read_loop no_json 4 serving arriving ≡ some (serve no_json traffic serving)
read_loop-serve_example =
    read_loop-serve no_json wire-Encodes 4 serving arriving (omega arith) refl (omega arith)
      arriving-IsStream refl

served : (serve no_json traffic serving).0.outbound ≡ (9 ∷ []) ∷ []
served = refl

-- A control frame that is JSON ends the thread without a hangup.
control_escapes :
    serve (λ payload. false) ((0x10, []) ∷ (0x11, []) ∷ []) serving ≡ (serving, escape)
control_escapes = refl

reach-IsValid_example : IsValid serving
reach-IsValid_example = reach-IsValid serving_reached

abbrev over : Bridge
over = record serving {
  client = false;
  listener = false;
  shutdown = true;
  closed = true;
  path = false;
}

burst_result : close true serving ≡ over
unfolding close
burst_result = refl

over_reached : Reach over
unfolding close
over_reached = next serving_reached (closing true)
