-- ===== src/Sip/Frame/RoundTrip.antt =====
-- What `recv_exact` and `read_frame` return, however the socket cuts the bytes.
use aipanel.Base.{
  ℕ, zero, suc, ◌+◌, ◌-◌, ◌/◌, ◌%◌, ◌≤◌, ◌<◌, ◌≡◌, refl, sym, ap, ◌∙◌, inl, inr, [], ◌∷◌, ◌++◌,
  some, length, take, drop, ltb, arith, length-take, length-drop, tests, length-append,
  take-append-drop, append_assoc, append-nil, Bool-cases,
}
use aipanel.Sip.Frame.Wire.{Bytes, u32_limit, pack_u32, unpack_u32, unpack_pack}
use aipanel.Sip.Frame.Stream.{Socket, piece, broken, recv, IsStream, content}
use aipanel.Sip.Frame.{ok, encode_frame, recv_loop, recv_exact, read_payload, read_frame}

-- One `recv` where bytes are left: some of them, at most as many as asked for, and the rest stays.
pub recv_lem :
    (n : ℕ) (s : Socket)
    → 0 < n
    → IsStream s
    → 0 < length (content s)
    → (chunk : Bytes) × (rest : Socket) × (recv n s ≡ (some chunk, rest))
      × (0 < length chunk)
      × (length chunk ≤ n)
      × (content s ≡ chunk ++ content rest)
      × IsStream rest
recv_lem n [] pos st h = absurd (omega arith)
recv_lem n (broken ∷ s) pos st h = absurd (omega arith)
recv_lem n (piece b ∷ s) pos st h = elim (Bool-cases (ltb n (length b))) [
  | inl more ↦ (
    take n b,
    piece (drop n b) ∷ s,
    rw more,
    ground (arith, length-take n b),
    ground (arith, length-take n b),
    ap (λ xs. xs ++ content s) (sym (take-append-drop n b))
        ∙ append_assoc (take n b) (drop n b) (content s),
    (omega (tests, length-drop n b), st.1),
  )
  | inr all ↦ (b, s, rw all, st.0, ground arith, refl, st.1)
]

-- Where two texts agree, the shorter first part begins the longer.
append_split :
    (xs ys zs ws : Bytes)
    → length xs ≤ length zs
    → xs ++ ys ≡ zs ++ ws
    → (mid : Bytes) × (zs ≡ xs ++ mid) × (ys ≡ mid ++ ws)
append_split [] ys zs ws h e = (zs, refl, e)
append_split (x ∷ xs) ys [] ws h e = absurd (omega arith)
append_split (x ∷ xs) ys (z ∷ zs) ws h e =
    let (mid, p, q) = append_split xs ys zs ws (omega arith) (cc) in (mid, cc, q)

-- One round of the loop that gets bytes.
pub recv_loop_step :
    (fuel n : ℕ) (buf : Bytes) (s : Socket) (chunk : Bytes) (rest : Socket)
    → length buf < n
    → recv (n - length buf) s ≡ (some chunk, rest)
    → 0 < length chunk
    → recv_loop (suc fuel) n buf s ≡ recv_loop fuel n (buf ++ chunk) rest
unfolding recv_loop
recv_loop_step fuel n buf s [] rest h r pos = absurd (omega arith)
recv_loop_step fuel n buf s (x ∷ chunk) rest h r pos = ground (arith, r)

-- A round that gets a chunk, and the rounds that get the rest of what is wanted.
recv_loop_join :
    (fuel n : ℕ) (buf : Bytes) (s : Socket) (chunk : Bytes) (rest : Socket) (mid want : Bytes)
    (end : Socket)
    → length buf < n
    → recv (n - length buf) s ≡ (some chunk, rest)
    → 0 < length chunk
    → want ≡ chunk ++ mid
    → recv_loop fuel n (buf ++ chunk) rest ≡ (some ((buf ++ chunk) ++ mid), end)
    → recv_loop (suc fuel) n buf s ≡ (some (buf ++ want), end)
recv_loop_join fuel n buf s chunk rest mid want end h r pos split loop =
    recv_loop_step fuel n buf s chunk rest h r pos
    ∙ loop
    ∙ ap (λ b. (some b, end)) (append_assoc buf chunk mid ∙ ap (λ b. buf ++ b) (sym split))

recv_loop_reads :
    (fuel n : ℕ) (buf : Bytes) (s : Socket) (want tail : Bytes)
    → length want ≤ fuel
    → length buf + length want ≡ n
    → IsStream s
    → content s ≡ want ++ tail
    → (rest : Socket) × (recv_loop fuel n buf s ≡ (some (buf ++ want), rest))
      × IsStream rest
      × (content rest ≡ tail)
unfolding recv_loop
recv_loop_reads zero n buf s [] tail f e st c = (s, rw append-nil, st, c)
recv_loop_reads zero n buf s (w ∷ want) tail f e st c = absurd (omega arith)
recv_loop_reads (suc fuel) n buf s [] tail f e st c = (s, ground (arith, append-nil buf), st, c)
recv_loop_reads (suc fuel) n buf s (w ∷ want) tail f e st c =
    let more = recv_lem (n - length buf) s (omega arith) st (omega (arith, ap length c)) in
    let parts =
      append_split more.0 (content more.1) (w ∷ want) tail (omega (arith, more.4))
        (sym more.5 ∙ c) in
    let sizes = sym (ap length parts.1 ∙ length-append more.0 parts.0) in
    let loop =
      recv_loop_reads fuel n (buf ++ more.0) more.1 parts.0 tail (omega (arith, more.3))
        (omega (arith, length-append buf more.0)) more.6 parts.2 in
    (
      loop.0,
      recv_loop_join fuel n buf s more.0 more.1 parts.0 (w ∷ want) loop.0 (omega arith) more.2
          more.3 parts.1 loop.1,
      loop.2,
      loop.3,
    )

-- `recv_exact` gets the next `n` bytes of the stream, if they are there, and leaves what follows.
pub recv_exact_reads :
    (s : Socket) (want tail : Bytes)
    → IsStream s
    → content s ≡ want ++ tail
    → (rest : Socket) × (recv_exact (length want) s ≡ (some want, rest))
      × IsStream rest
      × (content rest ≡ tail)
unfolding recv_exact
recv_exact_reads s want tail st c =
    recv_loop_reads (length want) (length want) [] s want tail (omega arith) (omega arith) st c

encode_wire :
    (t : ℕ) (payload wire : Bytes)
    → encode_frame t payload ≡ ok wire
    → (1 + length payload < u32_limit) × (wire ≡ pack_u32 (1 + length payload) ++ t ∷ payload)
unfolding encode_frame
encode_wire t payload wire e = ground arith

pub read_payload_body :
    (t size : ℕ) (payload : Bytes) (s rest : Socket)
    → 1 < size
    → recv_exact (size - 1) s ≡ (some payload, rest)
    → read_payload size t s ≡ (some (t, payload), rest)
unfolding read_payload
read_payload_body t size payload s rest h r = ground (arith, r)

read_payload_reads :
    (t size : ℕ) (payload tail : Bytes) (s : Socket)
    → size ≡ 1 + length payload
    → IsStream s
    → content s ≡ payload ++ tail
    → (rest : Socket) × (read_payload size t s ≡ (some (t, payload), rest))
      × IsStream rest
      × (content rest ≡ tail)
unfolding read_payload
read_payload_reads t size [] tail s e st c = (s, rw e refl, st, c)
read_payload_reads t size (p ∷ ps) tail s e st c =
    let (rest, r, st', c') = recv_exact_reads s (p ∷ ps) tail st c in
    let less : size - 1 ≡ length {A = ℕ} (p ∷ ps) = omega arith in
    (rest, read_payload_body t size (p ∷ ps) s rest (omega arith) (rw less r), st', c')

-- A frame that was encoded is read back, whatever pieces the socket cuts the bytes into, and the
-- bytes behind it stay to be read.
pub read-encode :
    (t : ℕ) (payload wire tail : Bytes) (s : Socket)
    → encode_frame t payload ≡ ok wire
    → IsStream s
    → content s ≡ wire ++ tail
    → (rest : Socket) × (read_frame s ≡ (some (t, payload), rest))
      × IsStream rest
      × (content rest ≡ tail)
unfolding read_frame
read-encode t payload wire tail s e st c =
    let (fits, shape) = encode_wire t payload wire e in
    let size : ℕ = 1 + length payload in
    let (mid, r, st', c') =
      recv_exact_reads s (pack_u32 size ++ t ∷ []) (payload ++ tail) st
        (c ∙ ap (λ w. w ++ tail) shape) in
    let (rest, r', st'', c'') =
      read_payload_reads t
        (unpack_u32 (size / 16777216 % 256) (size / 65536 % 256) (size / 256 % 256) (size % 256))
        payload tail mid (unpack_pack size fits) st' c' in
    (rest, rw r r', st'', c'')
