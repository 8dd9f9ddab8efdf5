-- ===== src/Agent/Recorder.antt =====
-- workers/src/aipanel_worker/recorder.py: the mix of what the caller and the agent say. A sample is read
-- as a signed number of 16 bits and is kept with 32768 added to it, so that silence is 32768. The file
-- is the bytes of its samples, and none where it is not open; `upload_recording` is left out.
pub mod Mixing
pub mod File
mod Tests
use aipanel.Base.{
  ℕ, zero, suc, ◌+◌, ◌-◌, ◌*◌, ◌/◌, ◌%◌, ◌≡◌, min, max, Bool, true, false, ◌||◌, List, [], ◌∷◌,
  ◌++◌, Option, none, some, length, take, drop, is_empty, is_some, not, ltb, leb, nat_eq,
  if◌then◌else◌,
}
use aipanel.Sip.Frame.Wire.{Bytes}

pub record Recorder : Type 0 where
  pub inbound : Bytes
  pub outbound : Bytes
  pub wave : Option Bytes
  pub closed : Bool

-- `unpack_from("<h", …)` and `pack_into("<h", …)`.
pub unpack_sample : ℕ → ℕ → ℕ
unpack_sample low high = (high * 256 + low + 32768) % 65536

pub pack_sample : ℕ → Bytes
pack_sample sample = let u = (sample + 32768) % 65536 in u % 256 ∷ u / 256 ∷ []

-- The sum, saturated. Both samples have 32768 added to them, the sum has 65536.
pub mix_sample : ℕ → ℕ → ℕ
mix_sample a b =
    let mixed = a + b in
    if ltb (32767 + 65536) mixed
    then 32767 + 32768
    else if ltb mixed (65536 - 32768)
    then 0
    else mixed - 32768

-- The loop of `_emit_paired`, over two buffers that are equally long.
pub mix_pairs : Bytes → Bytes → Bytes
mix_pairs (a ∷ a' ∷ xs) (b ∷ b' ∷ ys) =
    pack_sample (mix_sample (unpack_sample a a') (unpack_sample b b')) ++ mix_pairs xs ys
mix_pairs xs ys = []

abbrev pub writeframes : Bytes → Option Bytes → Option Bytes
writeframes data_bytes none = none
writeframes data_bytes (some written) = some (written ++ data_bytes)

abbrev pub whole_samples : ℕ → ℕ
whole_samples n_bytes = n_bytes - n_bytes % 2

pub emit_paired : ℕ → Recorder → Recorder
emit_paired n_bytes r =
    if nat_eq (whole_samples n_bytes) 0
    then r
    else (let n = whole_samples n_bytes in
        record r {
          inbound = drop n r.inbound;
          outbound = drop n r.outbound;
          wave = writeframes (mix_pairs (take n r.inbound) (take n r.outbound)) r.wave;
        })

abbrev clear : Recorder → Recorder
clear r = record r { inbound = []; outbound = [] }

pub emit_solo : ℕ → Recorder → Recorder
emit_solo n_bytes r =
    if nat_eq (whole_samples n_bytes) 0
    then clear r
    else (let longer =
          if leb (length r.outbound) (length r.inbound) then r.inbound else r.outbound in
        record (clear r) { wave = writeframes (take (whole_samples n_bytes) longer) r.wave })

abbrev pub pair : Recorder → Recorder
pair r =
    let pair_len = min (length r.inbound) (length r.outbound) in
    if nat_eq pair_len 0 then r else emit_paired pair_len r

pub mix_and_write : Bool → Recorder → Recorder
mix_and_write to_flush r =
    let paired = pair r in
    let leftover = max (length paired.inbound) (length paired.outbound) in
    if not to_flush then paired else if nat_eq leftover 0 then paired else emit_solo leftover paired

pub write_inbound : Bytes → Recorder → Recorder
write_inbound pcm r =
    if r.closed || not (is_some r.wave)
    then r
    else mix_and_write false (record r { inbound = r.inbound ++ pcm })

pub write_outbound : Bytes → Recorder → Recorder
write_outbound pcm r =
    if r.closed || not (is_some r.wave)
    then r
    else mix_and_write false (record r { outbound = r.outbound ++ pcm })

-- `close`, less the file itself.
unfoldable pub close : Recorder → Recorder
close r = if r.closed then r else mix_and_write true (record r { closed = true })

-- `__init__` and `open`.
abbrev pub new : Recorder
new = record { inbound = []; outbound = []; wave = none; closed = false }

pub open_file : Recorder → Recorder
open_file r = record r { wave = some [] }

-- What is said on a call, piece by piece.
pub data Said : Type 0 where
  caller agent : Bytes → Said

pub hear : List Said → Recorder → Recorder
hear [] r = r
hear (caller pcm ∷ said) r = hear said (write_inbound pcm r)
hear (agent pcm ∷ said) r = hear said (write_outbound pcm r)
