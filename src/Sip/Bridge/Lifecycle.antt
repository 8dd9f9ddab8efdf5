-- ===== src/Sip/Bridge/Lifecycle.antt =====
-- The life of a bridge, from `setup_socket` to `close`, with its threads in any order.
use aipanel.Base.{
  not, ◌||◌, ℕ, ◌≤◌, ◌≡◌, Bool, true, false, List, [], ◌∷◌, ◌++◌, Option, none, some, length, arith,
  length-append, length-drop, take, Bool-cases, Option-cases, inl, inr,
}
use aipanel.Sip.Frame.Wire.{Bytes}
use aipanel.Sip.Frame.{frame_audio_in, frame_control, frame_dtmf, frame_hangup, Frame}
use aipanel.Sip.Bridge.{
  Bridge, init, queue_max_frames, make_room, deque_append, dequeue_outbound, popleft,
  on_frame_received, send, send_control, send_dtmf, send_hangup, failed, setup_socket, Accept,
  connected, timed_out, os_error, accept_worker, accepted, attach_media, close, ascii_or_question,
}
use aipanel.Sip.Bridge.Loops.{return, on_read, write_step}

-- What a thread, PJSIP or the call handler may do to a bridge next.
pub data Step (b : Bridge) : Bridge → Type 0 where
  received :
      (is_audio : Bool) (buf : Bytes) (size : ℕ) → Step b (on_frame_received is_audio buf size b)
  requested : Step b (dequeue_outbound b).0
  worker_frame : (is_refused : Bytes → Bool) (f : Option Frame) → Step b (on_read is_refused f b).0
  wrote : (sendall : Bool) → Step b (write_step sendall b).0
  control : (event : Bytes) (sendall : Bool) → Step b (send_control event sendall b).0
  digit : (d : List ℕ) (sendall : Bool) → Step b (send_dtmf d sendall b)
  hung_up : (sendall : Bool) → Step b (send_hangup sendall b).0
  worker_accepted : (a : Accept) {b' : Bridge} → accept_worker a b ≡ accepted b' → Step b b'
  media : Step b (attach_media b)
  closing : (unlink : Bool) → Step b (close unlink b)

pub data Reach : Bridge → Type 0 where
  start : (path : Bool) {b : Bridge} → setup_socket true (init path) ≡ some b → Reach b
  next : {b b' : Bridge} → Reach b → Step b b' → Reach b'

pub record IsValid (b : Bridge) : Type 0 where
  pub inbound_bounded : length b.inbound ≤ 50
  pub outbound_bounded : length b.outbound ≤ 50
  pub client_served : (not b.client || b.threads) ≡ true
  pub closed_shutdown : (not b.closed || b.shutdown) ≡ true
  pub closed_client : (not b.closed || not b.client) ≡ true
  pub closed_listener : (not b.closed || not b.listener) ≡ true

push_bounded :
    (q : List Bytes) (f : Bytes)
    → length q ≤ queue_max_frames
    → length (deque_append (make_room q) f) ≤ queue_max_frames
push_bounded q f h = ground (
  arith,
  length-append (make_room q) (f ∷ []),
  length-drop 1 (make_room q ++ f ∷ []),
  length-drop 1 q,
)

send-IsValid :
    (t : ℕ) (p : Bytes) (sendall : Bool) (b : Bridge) → IsValid b → IsValid (send t p sendall b).0
unfolding send
send-IsValid t p true b v = ground arith
send-IsValid t p false b v = ground arith

popleft_le : (q : List Bytes) → length (popleft q).1 ≤ length q
popleft_le [] = omega arith
popleft_le (f ∷ q) = omega arith

dequeue-IsValid : (b : Bridge) → IsValid b → IsValid (dequeue_outbound b).0
unfolding dequeue_outbound
dequeue-IsValid b v = ground (arith, popleft_le b.outbound)

on_read-IsValid :
    (is_refused : Bytes → Bool) (f : Option Frame) (b : Bridge)
    → IsValid b
    → IsValid (on_read is_refused f b).0
unfolding on_read
on_read-IsValid is_refused none b v = ground arith
on_read-IsValid is_refused (some (t, p)) b v = ground (arith, push_bounded b.outbound p)

popped-IsValid : (b : Bridge) → IsValid b → IsValid (record b { inbound = (popleft b.inbound).1 })
popped-IsValid b v = ground (arith, popleft_le b.inbound)

write-IsValid : (sendall : Bool) (b : Bridge) → IsValid b → IsValid (write_step sendall b).0
unfolding write_step
write-IsValid sendall b v = elim (Bool-cases b.shutdown) [
  | inl down ↦ ground arith
  | inr up ↦ elim (Option-cases (popleft b.inbound).0) [
    | inl e ↦ rw (up, e, write_step) v
    | inr (f, e) ↦ ground (
      arith,
      e,
      send-IsValid frame_audio_in f sendall (record b { inbound = (popleft b.inbound).1 })
          (popped-IsValid b v),
    )
  ]
]

accept-IsValid :
    (a : Accept) (b : Bridge) {b' : Bridge}
    → accept_worker a b ≡ accepted b'
    → IsValid b
    → IsValid b'
unfolding accept_worker
accept-IsValid connected b e v = ground arith
accept-IsValid timed_out b e v = ground arith
accept-IsValid os_error b e v = ground arith

-- Every step keeps the bridge valid.
step-IsValid : {b b' : Bridge} → Step b b' → IsValid b → IsValid b'
unfolding on_frame_received send_control send_dtmf send_hangup accept_worker attach_media close
step-IsValid {b} (received is_audio buf size) v =
    ground (arith, push_bounded b.inbound (take size buf))
step-IsValid {b} requested v = dequeue-IsValid b v
step-IsValid {b} (worker_frame is_refused f) v = on_read-IsValid is_refused f b v
step-IsValid {b} (wrote sendall) v = write-IsValid sendall b v
step-IsValid {b} (control event sendall) v = send-IsValid frame_control event sendall b v
step-IsValid {b} (digit [] sendall) v = v
step-IsValid {b} (digit (c ∷ d) sendall) v =
    send-IsValid frame_dtmf (ascii_or_question c ∷ []) sendall b v
step-IsValid {b} (hung_up sendall) v = send-IsValid frame_hangup [] sendall b v
step-IsValid {b} (worker_accepted a e) v = accept-IsValid a b e v
step-IsValid {b} media v = ground arith
step-IsValid {b} (closing unlink) v = ground arith

-- From a socket that was set up, whatever the threads, the worker and PJSIP do and in whatever
-- order: the queues hold 50 frames at most, a connected worker has its threads, and a closed bridge
-- is shut down, with neither a client nor a listener.
pub reach-IsValid : {b : Bridge} → Reach b → IsValid b
unfolding setup_socket init
reach-IsValid (start path e) = ground arith
reach-IsValid (next r st) = step-IsValid st (reach-IsValid r)

-- A second `close` changes nothing, whatever the system calls do.
close_idempotent : (u u' : Bool) (b : Bridge) → close u (close u' b) ≡ close u' b
unfolding close
close_idempotent u u' b = ground arith

-- Once a reachable bridge is closed, nothing more is sent to the worker, and the writer leaves.
closed_quiet :
    {b : Bridge} (r : Reach b) (t : ℕ) (p : Bytes) (sendall : Bool)
    → b.closed ≡ true
    → (send t p sendall b ≡ (b, failed)) × (write_step sendall b ≡ (b, return))
unfolding send write_step
closed_quiet {b} r t p sendall c =
    let v = reach-IsValid r in ground (arith, c, v.closed_client, v.closed_shutdown)
