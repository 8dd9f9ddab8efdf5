-- ===== src/Sip/Frame/Progress.antt =====
-- What `read_frame` of sip/src/aipanel_sip/audio_bridge.py takes from the socket.
use aipanel.Base.{
  ℕ, suc, ◌-◌, ◌≤◌, ◌<◌, ◌≡◌, refl, sym, subst, ltb→lt, ap, ◌⊎◌, inl, inr, Option, none, some,
  length, take, ltb, arith, length-drop, Bool-cases,
}
use aipanel.Sip.Frame.Stream.{Socket, IsStream, content}
use aipanel.Sip.Frame.{Frame, unpack_header, read_payload, read_header, read_after, read_frame}
use aipanel.Sip.Frame.RoundTrip.{read_payload_body}
use aipanel.Sip.Frame.Peer.{recv_exact-agrees, recv_exact_short}

-- What was read, if anything, left a stream of fewer than `n` bytes.
abbrev Left : ℕ → Option Frame × Socket → Type 0
Left n r = (r.0 ≡ none) ⊎ (IsStream r.1 × (length (content r.1) < n))

Left-mono : {m n : ℕ} (r : Option Frame × Socket) → m ≤ n → Left m r → Left n r
Left-mono r h (inl e) = inl e
Left-mono r h (inr (st, le)) = inr (st, omega arith)

read_payload-Left :
    (size t : ℕ) (s : Socket) → IsStream s → Left (suc (length (content s))) (read_payload size t s)
unfolding read_payload
read_payload-Left size t s st = elim (Bool-cases (ltb 1 size)) [
  | inr bare ↦ rw bare (inr (st, omega arith))
  | inl more ↦ elim (Bool-cases (ltb (length (content s)) (size - 1))) [
    | inl short ↦ inl (ground (arith, recv_exact_short (size - 1) s st))
    | inr enough ↦
        let got = recv_exact-agrees (size - 1) s st (ground arith) in
        subst (Left (suc (length (content s))))
          (sym (
            read_payload_body t size (take (size - 1) (content s)) s got.0 (ltb→lt 1 size more)
              got.1))
          (inr (got.2, omega (arith, ap length got.3, length-drop (size - 1) (content s))))
  ]
]

read_header-Left :
    (h : Option (ℕ × ℕ)) (s : Socket)
    → IsStream s
    → Left (suc (length (content s))) (read_header h s)
unfolding read_header
read_header-Left none s st = inl refl
read_header-Left (some (size, t)) s st = read_payload-Left size t s st

pub read_frame-Left : (s : Socket) → IsStream s → Left (length (content s)) (read_frame s)
unfolding read_frame read_after
read_frame-Left s st = elim (Bool-cases (ltb (length (content s)) 5)) [
  | inl short ↦ inl (ground (arith, recv_exact_short 5 s st))
  | inr enough ↦
      let got = recv_exact-agrees 5 s st (ground arith) in
      let long : 5 ≤ length (content s) = ground arith in
      let rest = read_header-Left (unpack_header (take 5 (content s))) got.0 got.2 in
      subst (Left (length (content s))) (sym (ap (λ r. read_after r.0 r.1) got.1)) (
        Left-mono (read_header (unpack_header (take 5 (content s))) got.0)
          (omega (arith, ap length got.3, length-drop 5 (content s), long)) rest)
]
