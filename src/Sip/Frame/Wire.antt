-- ===== src/Sip/Frame/Wire.antt =====
-- The wire's numbers: `struct`'s big-endian unsigned 4-byte integer.
use aipanel.Base.{ℕ, ◌+◌, ◌*◌, ◌/◌, ◌%◌, ◌<◌, ◌≡◌, List, [], ◌∷◌, All, arith}

abbrev pub Bytes : Type 0
Bytes = List ℕ

abbrev AreBytes : Bytes → Type 0
AreBytes = All (λ b. b < 256)

-- 2 ^ 32.
abbrev pub u32_limit : ℕ
u32_limit = 4294967296

abbrev pub pack_u32 : ℕ → Bytes
pack_u32 n = (n / 16777216 % 256) ∷ (n / 65536 % 256) ∷ (n / 256 % 256) ∷ (n % 256) ∷ []

abbrev pub unpack_u32 : ℕ → ℕ → ℕ → ℕ → ℕ
unpack_u32 a b c d = a * 16777216 + b * 65536 + c * 256 + d

pub unpack_pack :
    (n : ℕ)
    → n < u32_limit
    → unpack_u32 (n / 16777216 % 256) (n / 65536 % 256) (n / 256 % 256) (n % 256) ≡ n
unpack_pack n h = omega arith

pack_u32-AreBytes : (n : ℕ) → AreBytes (pack_u32 n)
pack_u32-AreBytes n = omega arith
