-- ===== src/Sip/Frame/Tests.antt =====
-- The framing on concrete bytes.
use aipanel.Base.{◌≡◌, refl, [], ◌∷◌, none, some, arith}
use aipanel.Sip.Frame.Wire.{Bytes}
use aipanel.Sip.Frame.Stream.{Socket, piece, broken, IsStream, content}
use aipanel.Sip.Frame.{
  Frame, ok, raised, value_error, encode_frame, recv_loop, recv_exact, read_frame, frame_dtmf,
}
use aipanel.Sip.Frame
use aipanel.Sip.Frame.Peer
use aipanel.Sip.Frame.RoundTrip.{read-encode}
use aipanel.Sip.Frame.Peer.{read_frame-agrees}

abbrev dtmf_wire : Bytes
dtmf_wire = 0 ∷ 0 ∷ 0 ∷ 2 ∷ 0x12 ∷ b'5' ∷ []

encode_dtmf : encode_frame frame_dtmf (b'5' ∷ []) ≡ ok dtmf_wire
unfolding encode_frame
encode_dtmf = refl

encode_range : encode_frame 256 [] ≡ raised value_error
unfolding encode_frame
encode_range = refl

-- A frame in three pieces, with the first bytes of the next behind it.
abbrev cut : Socket
cut = piece (0 ∷ 0 ∷ 0 ∷ []) ∷ piece (2 ∷ 0x12 ∷ []) ∷ piece (b'5' ∷ 0 ∷ 0 ∷ []) ∷ []

read_cut : read_frame cut ≡ (some (frame_dtmf, b'5' ∷ []), piece (0 ∷ 0 ∷ []) ∷ [])
unfolding read_frame recv_exact
read_cut = refl

-- A socket that fails in the middle of a frame.
read_broken : (read_frame (piece (0 ∷ 0 ∷ []) ∷ broken ∷ [])).0 ≡ none
unfolding read_frame recv_exact
read_broken = refl

cut-IsStream : IsStream cut
cut-IsStream = omega arith

read-encode_example :
    (rest : Socket) × (read_frame cut ≡ (some (frame_dtmf, b'5' ∷ []), rest))
    × IsStream rest
    × (content rest ≡ 0 ∷ 0 ∷ [])
read-encode_example =
    read-encode frame_dtmf (b'5' ∷ []) dtmf_wire (0 ∷ 0 ∷ []) cut encode_dtmf cut-IsStream refl

read_frame-agrees_example : (Frame.read_frame cut).0 ≡ Peer.read_frame (content cut)
read_frame-agrees_example = read_frame-agrees cut cut-IsStream
