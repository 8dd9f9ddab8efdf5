-- ===== src/Sip/Frame.antt =====
-- sip/src/aipanel_sip/audio_bridge.py, the framing helpers, and the worker's copy of them in
-- workers/src/aipanel_worker/sip_protocol.py. A byte is a number, `bytes` a list of them.
pub mod Wire
pub mod Stream
pub mod RoundTrip
pub mod Peer
pub mod Progress
mod Tests
use aipanel.Base.{
  ℕ, zero, suc, ◌+◌, ◌-◌, ◌≡◌, Bool, true, false, List, [], ◌∷◌, ◌++◌, Option, none, some, length,
  ltb, leb, if◌then◌else◌, nat_eq,
}
use Wire.{Bytes, pack_u32, unpack_u32, u32_limit}
use Stream.{Socket, recv}

abbrev pub frame_audio_in : ℕ
frame_audio_in = 0x01

abbrev pub frame_audio_out : ℕ
frame_audio_out = 0x02

abbrev pub frame_control : ℕ
frame_control = 0x10

abbrev pub frame_hangup : ℕ
frame_hangup = 0x11

abbrev pub frame_dtmf : ℕ
frame_dtmf = 0x12

-- The exceptions of `encode_frame`: the range check's, and `struct.pack`'s for a length that does
-- not fit in 4 bytes.
pub data EncodeError : Type 0 where
  value_error struct_error : EncodeError

pub data Encoded : Type 0 where
  ok : Bytes → Encoded
  raised : EncodeError → Encoded

unfoldable pub encode_frame : ℕ → Bytes → Encoded
encode_frame frame_type payload =
    if leb frame_type 0xFF
    then (let size = 1 + length payload in
        if ltb size u32_limit
        then ok (pack_u32 size ++ frame_type ∷ payload)
        else raised struct_error)
    else raised value_error

-- The rounds of `while len(buf) < n`: the socket may hand over fewer bytes than are asked for. The
-- fuel is the bytes that are missing at first, since every round adds at least one.
pub recv_loop : ℕ → ℕ → Bytes → Socket → Option Bytes × Socket
recv_loop zero n buf s = (some buf, s)
recv_loop (suc fuel) n buf s =
    if ltb (length buf) n
    then (let (got, rest) = recv (n - length buf) s in
        elim got [
          | none ↦ (none, rest)
          | some chunk ↦
              let more = recv_loop fuel n (buf ++ chunk) rest in
              if nat_eq (length chunk) 0 then (none, rest) else more
        ])
    else (some buf, s)

pub recv_exact : ℕ → Socket → Option Bytes × Socket
unfolding recv_loop
recv_exact n s = recv_loop n n [] s

abbrev pub Frame : Type 0
Frame = ℕ × Bytes

-- `struct.unpack(">IB", header)`, on a header of 5 bytes.
pub unpack_header : Bytes → Option (ℕ × ℕ)
unpack_header (a ∷ b ∷ c ∷ d ∷ t ∷ []) = some (unpack_u32 a b c d, t)
unpack_header _ = none

-- The payload, read where the length says that there is one.
pub read_payload : ℕ → ℕ → Socket → Option Frame × Socket
read_payload size ftype s =
    if ltb 1 size
    then (let (body, rest) = recv_exact (size - 1) s in
        elim body [ none ↦ (none, rest) | some payload ↦ (some (ftype, payload), rest) ])
    else (some (ftype, []), s)

pub read_header : Option (ℕ × ℕ) → Socket → Option Frame × Socket
unfolding read_payload
read_header none s = (none, s)
read_header (some (size, ftype)) s = read_payload size ftype s

unfoldable pub read_after : Option Bytes → Socket → Option Frame × Socket
unfolding read_header unpack_header
read_after none s = (none, s)
read_after (some header) s = read_header (unpack_header header) s

unfoldable pub read_frame : Socket → Option Frame × Socket
unfolding read_after
read_frame s = let (header, rest) = recv_exact 5 s in read_after header rest
