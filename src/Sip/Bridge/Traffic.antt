-- ===== src/Sip/Bridge/Traffic.antt =====
-- Caller audio on its way to the worker: RTP frames come in while the writer thread takes frames out.
use mathlib.Core.List.{Sublist}
use mathlib.Core.List.Sublist
use aipanel.Base.{
  ◌≡◌, refl, sym, ap, ◌∙◌, ◌⊎◌, inl, inr, Bool, ◌&&◌, Bool-cases, List, [], ◌∷◌, ◌++◌, length, drop,
  ltb, arith, append_assoc, append-nil,
}
use aipanel.Sip.Frame.Wire.{Bytes}
use aipanel.Sip.Frame.{Encoded, EncodeError, ok, raised, encode_frame, frame_audio_in}
use aipanel.Sip.Bridge.{Bridge, queue_max_frames, deque_append, make_room, is_full, enqueue_inbound}
use aipanel.Sip.Bridge.Loops.{write_step}

-- What the PJSIP thread and the writer thread do, in the order in which they get the lock.
pub data Op : Type 0 where
  rtp : Bytes → Op
  write : Bool → Op

unfoldable pub apply : Op → Bridge → Bridge
apply (rtp frame) b = enqueue_inbound frame b
apply (write sendall) b = (write_step sendall b).0

unfoldable pub run : List Op → Bridge → Bridge
run [] b = b
run (op ∷ ops) b = run ops (apply op b)

pub received : List Op → List Bytes
received [] = []
received (rtp frame ∷ ops) = frame ∷ received ops
received (write sendall ∷ ops) = received ops

-- The bytes on the wire for frames of caller audio.
pub wires : List Bytes → List Bytes
wires [] = []
wires (f ∷ fs) = elim (encode_frame frame_audio_in f) [ ok w ↦ w ∷ wires fs | raised e ↦ wires fs ]

wires-cons :
    (f w : Bytes) (fs : List Bytes)
    → encode_frame frame_audio_in f ≡ ok w
    → wires (f ∷ fs) ≡ w ∷ wires fs
unfolding wires
wires-cons f w fs e = ground arith

-- One round of the writer: nothing, or the front frame leaves and is sent or lost.
abbrev Wrote : Bridge → Bridge → Type 0
Wrote b b' =
    ((b'.inbound ≡ b.inbound) × (b'.sent ≡ b.sent))
    ⊎ ((f : Bytes) × (b.inbound ≡ f ∷ b'.inbound)
        × ((b'.sent ≡ b.sent)
            ⊎ ((w : Bytes) × (encode_frame frame_audio_in f ≡ ok w)
                × (b'.sent ≡ b.sent ++ w ∷ []))))

Encoded-cases : (e : Encoded) → ((w : Bytes) × (e ≡ ok w)) ⊎ ((x : EncodeError) × (e ≡ raised x))
Encoded-cases (ok w) = inl (w, refl)
Encoded-cases (raised x) = inr (x, refl)

write-Wrote-at :
    (sendall : Bool) (b : Bridge) (q : List Bytes)
    → b.inbound ≡ q
    → Wrote b (write_step sendall b).0
unfolding write_step
write-Wrote-at sendall b [] e = inl (ground arith, ground arith)
write-Wrote-at sendall b (f ∷ q) e = elim (Bool-cases b.shutdown) [
  | inl down ↦ inl (ground arith, ground arith)
  | inr up ↦ elim (Encoded-cases (encode_frame frame_audio_in f)) [
    | inr (x, bad) ↦ inr (f, ground arith, inl (ground arith))
    | inl (w, good) ↦ elim (Bool-cases (b.client && sendall)) [
      | inl taken ↦ inr (f, ground arith, inr (w, good, ground arith))
      | inr lost ↦ inr (f, ground arith, inl (ground arith))
    ]
  ]
]

front-sublist : (q : List Bytes) → Sublist (drop 1 q) q
front-sublist [] = Sublist.refl []
front-sublist (f ∷ q) = Sublist.cons f (Sublist.refl q)

room-sublist : (q : List Bytes) → Sublist (make_room q) q
room-sublist q = elim (Bool-cases (is_full q)) [
  | inl full ↦ rw full (front-sublist q)
  | inr room ↦ rw room (Sublist.refl q)
]

append-sublist : (q : List Bytes) (f : Bytes) → Sublist (deque_append q f) (q ++ f ∷ [])
append-sublist q f = elim (Bool-cases (ltb queue_max_frames (length (q ++ f ∷ [])))) [
  | inl over ↦ rw over (front-sublist (q ++ f ∷ []))
  | inr fits ↦ rw fits (Sublist.refl (q ++ f ∷ []))
]

push-sublist : (q : List Bytes) (f : Bytes) → Sublist (deque_append (make_room q) f) (q ++ f ∷ [])
push-sublist q f =
    Sublist.trans (append-sublist (make_room q) f)
      (Sublist.append (room-sublist q) (Sublist.refl (f ∷ [])))

-- Frames that the worker was sent, and how the bridge came from `b` to `b'`.
abbrev pub Flowed : List Bytes → Bridge → Bridge → Type 0
Flowed frames b b' =
    (out : List Bytes) × (b'.sent ≡ b.sent ++ wires out)
    × Sublist (out ++ b'.inbound) (b.inbound ++ frames)

flow_write :
    (frames : List Bytes) (b m b' : Bridge) → Wrote b m → Flowed frames m b' → Flowed frames b b'
flow_write frames b m b' (inl (q, s)) (out, sent, order) = (out, rw (← s) sent, rw (← q) order)
flow_write frames b m b' (inr (f, q, inl s)) (out, sent, order) =
    (out, rw (← s) sent, rw q (Sublist.cons f order))
flow_write frames b m b' (inr (f, q, inr (w, e, s))) (out, sent, order) = (
  f ∷ out,
  sent
      ∙ ap (λ xs. xs ++ wires out) s
      ∙ append_assoc b.sent (w ∷ []) (wires out)
      ∙ ap (λ xs. b.sent ++ xs) (sym (wires-cons f w out e)),
  rw q (Sublist.cons-cons f order),
)

-- Whatever the order in which the threads run: what is sent to the worker, and what still waits
-- for it, are frames that were waiting or have come in, each at most once and in that order.
pub run_in_order : (ops : List Op) (b : Bridge) → Flowed (received ops) b (run ops b)
unfolding run received apply enqueue_inbound wires
run_in_order [] b = ([], sym (append-nil b.sent), rw append-nil (Sublist.refl b.inbound))
run_in_order (rtp f ∷ ops) b =
    let (out, sent, order) = run_in_order ops (apply (rtp f) b) in
    (
      out,
      sent,
      Sublist.trans order (
          rw (← append_assoc b.inbound (f ∷ []) (received ops))
            (Sublist.append (push-sublist b.inbound f) (Sublist.refl (received ops)))),
    )
run_in_order (write sendall ∷ ops) b =
    flow_write (received ops) b (apply (write sendall) b) (run ops (apply (write sendall) b))
      (write-Wrote-at sendall b b.inbound refl) (run_in_order ops (apply (write sendall) b))
