-- ===== src/Sip/Frame/Stream.antt =====
-- A stream socket as the reader meets it: the pieces in which the kernel hands the bytes over.
-- What `recv(n)` returns is at most `n` bytes of the first piece; the rest of it stays.
use aipanel.Base.{
  ℕ, ◌<◌, List, [], ◌∷◌, ◌++◌, Option, none, some, length, take, drop, ltb, if◌then◌else◌,
}
use aipanel.Sip.Frame.Wire.{Bytes}

pub data Event : Type 0 where
  -- bytes that arrive together
  piece : Bytes → Event
  -- `recv` raises OSError or ConnectionError
  broken : Event

-- The end of the list is the end of the file.
abbrev pub Socket : Type 0
Socket = List Event

-- `sock.recv(n)`: none where it raises, no bytes at the end of the file.
abbrev pub recv : ℕ → Socket → Option Bytes × Socket
recv n [] = (some [], [])
recv n (broken ∷ s) = (none, broken ∷ s)
recv n (piece b ∷ s) =
    if ltb n (length b) then (some (take n b), piece (drop n b) ∷ s) else (some b, s)

-- No piece is empty: the kernel returns no bytes at the end of the file only.
abbrev pub IsStream : Socket → Type 0
IsStream [] = Unit {0}
IsStream (broken ∷ s) = IsStream s
IsStream (piece b ∷ s) = (0 < length b) × IsStream s

-- The bytes that can be read before the end of the file or an error, however they are cut.
abbrev pub content : Socket → Bytes
content [] = []
content (broken ∷ s) = []
content (piece b ∷ s) = b ++ content s
