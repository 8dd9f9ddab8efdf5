-- ===== src/Sip/Frame/Peer.antt =====
-- workers/src/aipanel_worker/sip_protocol.py: the worker's end of the socket, over asyncio's
-- StreamReader. The reader is the bytes that will arrive before the end of the file; an error of the
-- connection is left out.
use aipanel.Base.{
  ℕ, zero, suc, ◌+◌, ◌-◌, ◌≤◌, ◌<◌, ◌≡◌, refl, sym, ap, ◌∙◌, inl, inr, [], ◌∷◌, ◌++◌, Option, none,
  some, length, take, drop, ltb, leb, if◌then◌else◌, arith, length-take, length-append, tests,
  leb→le, take-append-drop, true, Bool-cases,
}
use aipanel.Sip.Frame.Wire.{Bytes, u32_limit, pack_u32}
use aipanel.Sip.Frame.Stream.{Socket, piece, broken, IsStream, content}
use aipanel.Sip.Frame.{
  Encoded, ok, raised, value_error, struct_error, Frame, unpack_header, recv_loop, recv_exact,
  read_payload, read_header, read_after,
}
use aipanel.Sip.Frame
use aipanel.Sip.Frame.RoundTrip.{recv_lem, recv_loop_step, recv_exact_reads}

unfoldable pub encode_frame : ℕ → Bytes → Encoded
encode_frame frame_type payload =
    if leb frame_type 0xFF
    then (let size = 1 + length payload in
        if ltb size u32_limit
        then ok (pack_u32 size ++ frame_type ∷ payload)
        else raised struct_error)
    else raised value_error

-- asyncio's `readexactly`: IncompleteReadError, here none, where the file ends before.
abbrev readexactly : ℕ → Bytes → Option (Bytes × Bytes)
readexactly n b = if ltb (length b) n then none else some (take n b, drop n b)

read_body : ℕ → ℕ → Bytes → Option Frame
read_body size ftype b =
    if ltb 1 size
    then elim (readexactly (size - 1) b) [
      | none ↦ none
      | some (payload, rest) ↦ some (ftype, payload)
    ]
    else some (ftype, [])

read_unpacked : Option (ℕ × ℕ) → Bytes → Option Frame
unfolding read_body
read_unpacked none b = none
read_unpacked (some (size, ftype)) b = read_body size ftype b

unfoldable pub read_frame : Bytes → Option Frame
unfolding read_unpacked
read_frame b = elim (readexactly 5 b) [
  | none ↦ none
  | some (header, rest) ↦ read_unpacked (unpack_header header) rest
]

-- The two ends encode alike.
encode_frame-agrees : (t : ℕ) (p : Bytes) → encode_frame t p ≡ Frame.encode_frame t p
unfolding encode_frame Frame.encode_frame
encode_frame-agrees t p = refl

-- Where nothing is left to read, the loop gives up.
recv_loop_ended :
    (fuel n : ℕ) (buf : Bytes) (s : Socket)
    → length buf < n
    → IsStream s
    → length (content s) ≡ 0
    → (recv_loop (suc fuel) n buf s).0 ≡ none
unfolding recv_loop
recv_loop_ended fuel n buf [] h st c = ground arith
recv_loop_ended fuel n buf (broken ∷ s) h st c = ground arith
recv_loop_ended fuel n buf (piece [] ∷ s) h st c = absurd (omega (arith, st.0))
recv_loop_ended fuel n buf (piece (b ∷ bs) ∷ s) h st c = absurd (omega arith)

recv_loop_short :
    (fuel n : ℕ) (buf : Bytes) (s : Socket)
    → n ≤ fuel + length buf
    → IsStream s
    → length buf + length (content s) < n
    → (recv_loop fuel n buf s).0 ≡ none
recv_loop_short zero n buf s f st c = absurd (omega arith)
recv_loop_short (suc fuel) n buf s f st c = elim (Bool-cases (ltb 0 (length (content s)))) [
  | inl more ↦
      let (chunk, rest, r, pos, le, split, st') =
        recv_lem (n - length buf) s (omega arith) st (omega tests) in
      ap (λ p. p.0) (recv_loop_step fuel n buf s chunk rest (omega arith) r pos)
      ∙ recv_loop_short fuel n (buf ++ chunk) rest (omega (arith, length-append buf chunk)) st' (
          omega
            (arith, length-append buf chunk, ap length split, length-append chunk (content rest)))
  | inr ended ↦ recv_loop_ended fuel n buf s (omega arith) st (ground arith)
]

pub recv_exact_short :
    (n : ℕ) (s : Socket) → IsStream s → length (content s) < n → (recv_exact n s).0 ≡ none
unfolding recv_exact
recv_exact_short n s st c = recv_loop_short n n [] s (omega arith) st (omega arith)

-- `recv_exact` against `readexactly`: the same bytes, and the same bytes left.
pub recv_exact-agrees :
    (n : ℕ) (s : Socket)
    → IsStream s
    → leb n (length (content s)) ≡ true
    → (rest : Socket) × (recv_exact n s ≡ (some (take n (content s)), rest))
      × IsStream rest
      × (content rest ≡ drop n (content s))
recv_exact-agrees n s st h =
    let got =
      recv_exact_reads s (take n (content s)) (drop n (content s)) st
        (sym (take-append-drop n (content s))) in
    let size : length (take n (content s)) ≡ n =
      omega (arith, length-take n (content s), leb→le n (length (content s))) in
    (got.0, ap (λ k. recv_exact k s) (sym size) ∙ got.1, got.2, got.3)

read_payload-agrees :
    (size t : ℕ) (s : Socket)
    → IsStream s
    → (read_payload size t s).0 ≡ read_body size t (content s)
unfolding read_payload read_body
read_payload-agrees size t s st = elim (Bool-cases (ltb (length (content s)) (size - 1))) [
  | inl short ↦ ground (arith, recv_exact_short (size - 1) s st)
  | inr enough ↦ let got = recv_exact-agrees (size - 1) s st (ground arith) in ground (arith, got.1)
]

read_header-agrees :
    (h : Option (ℕ × ℕ)) (s : Socket)
    → IsStream s
    → (read_header h s).0 ≡ read_unpacked h (content s)
unfolding read_header read_unpacked
read_header-agrees none s st = refl
read_header-agrees (some (size, t)) s st = read_payload-agrees size t s st

-- Whatever arrives, and however it is cut, both ends read the same frame from the same bytes, or
-- both report the end of the file.
pub read_frame-agrees : (s : Socket) → IsStream s → (Frame.read_frame s).0 ≡ read_frame (content s)
unfolding Frame.read_frame read_after read_frame
read_frame-agrees s st = elim (Bool-cases (ltb (length (content s)) 5)) [
  | inl short ↦ ground (arith, recv_exact_short 5 s st)
  | inr enough ↦
      let got = recv_exact-agrees 5 s st (ground arith) in
      let rest = read_header-agrees (unpack_header (take 5 (content s))) got.0 got.2 in
      ground (arith, got.1, got.3, rest)
]
