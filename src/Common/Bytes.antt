-- ===== src/Common/Bytes.antt =====
-- Bytes as numbers below 256, and the integer conversions of the standard library that the wire
-- format uses. A float is its bit pattern, a number below 2 ^ 32: the code moves samples between
-- floats and bytes without changing the pattern.
use open_audio.Common.{ℕ, ◌+◌, ◌*◌, ◌/◌, ◌%◌, ◌^◌, ◌<◌, ◌≡◌, Bool, true, false, ◌&&◌, not}
use open_audio.Common.{Option, none, some, List, [], ◌∷◌, ◌++◌, ◌==◌, arith}

abbrev pub IsU8 : ℕ → Type 0
IsU8 b = b < 256

abbrev pub IsU16 : ℕ → Type 0
IsU16 n = n < 2 ^ 16

abbrev pub IsU32 : ℕ → Type 0
IsU32 n = n < 2 ^ 32

abbrev pub IsU64 : ℕ → Type 0
IsU64 n = n < 2 ^ 64

-- `to_be_bytes` of u16, u32 and u64.
abbrev pub u16_to_be_bytes : ℕ → List ℕ
u16_to_be_bytes n = n / 2 ^ 8 % 256 ∷ n % 256 ∷ []

abbrev pub u32_to_be_bytes : ℕ → List ℕ
u32_to_be_bytes n = n / 2 ^ 24 % 256 ∷ n / 2 ^ 16 % 256 ∷ n / 2 ^ 8 % 256 ∷ n % 256 ∷ []

abbrev pub u64_to_be_bytes : ℕ → List ℕ
u64_to_be_bytes n = u32_to_be_bytes (n / 2 ^ 32) ++ u32_to_be_bytes n

-- `from_be_bytes` of a slice by `try_into().ok()?`: none if the slice has another length.
abbrev pub u16_from_be_bytes : List ℕ → Option ℕ
u16_from_be_bytes (a ∷ b ∷ []) = some (a * 2 ^ 8 + b)
u16_from_be_bytes _ = none

abbrev pub u32_from_be_bytes : List ℕ → Option ℕ
u32_from_be_bytes (a ∷ b ∷ c ∷ d ∷ []) = some (a * 2 ^ 24 + b * 2 ^ 16 + c * 2 ^ 8 + d)
u32_from_be_bytes _ = none

abbrev pub u64_from_be_bytes : List ℕ → Option ℕ
u64_from_be_bytes (a ∷ b ∷ c ∷ d ∷ e ∷ f ∷ g ∷ h ∷ []) =
    some (
      (a * 2 ^ 24 + b * 2 ^ 16 + c * 2 ^ 8 + d) * 2 ^ 32
      + (e * 2 ^ 24 + f * 2 ^ 16 + g * 2 ^ 8 + h))
u64_from_be_bytes _ = none

pub u16_digits : (n : ℕ) → IsU16 n → n / 2 ^ 8 % 256 * 2 ^ 8 + n % 256 ≡ n
u16_digits n h = omega arith

pub u32_digits :
    (n : ℕ)
    → n / 2 ^ 24 % 256 * 2 ^ 24 + n / 2 ^ 16 % 256 * 2 ^ 16 + n / 2 ^ 8 % 256 * 2 ^ 8 + n % 256
      ≡ n % 2 ^ 32
u32_digits n = omega arith

pub u16-from_be-to_be : (n : ℕ) → IsU16 n → u16_from_be_bytes (u16_to_be_bytes n) ≡ some n
u16-from_be-to_be n h = ground (arith, u16_digits n)

pub u32-from_be-to_be : (n : ℕ) → IsU32 n → u32_from_be_bytes (u32_to_be_bytes n) ≡ some n
u32-from_be-to_be n h = ground (arith, u32_digits n)

pub u64-from_be-to_be : (n : ℕ) → IsU64 n → u64_from_be_bytes (u64_to_be_bytes n) ≡ some n
u64-from_be-to_be n h = ground (arith, u32_digits n, u32_digits (n / 2 ^ 32))

-- `f32::to_le_bytes` and `f32::from_le_bytes` on bit patterns.
abbrev pub f32_to_le_bytes : ℕ → List ℕ
f32_to_le_bytes n = n % 256 ∷ n / 2 ^ 8 % 256 ∷ n / 2 ^ 16 % 256 ∷ n / 2 ^ 24 % 256 ∷ []

abbrev pub f32_from_le_bytes : ℕ → ℕ → ℕ → ℕ → ℕ
f32_from_le_bytes a b c d = a + b * 2 ^ 8 + c * 2 ^ 16 + d * 2 ^ 24

pub f32_digits :
    (n : ℕ)
    → IsU32 n
    → f32_from_le_bytes (n % 256) (n / 2 ^ 8 % 256) (n / 2 ^ 16 % 256) (n / 2 ^ 24 % 256) ≡ n
f32_digits n h = omega arith

-- `f32::is_finite`: the eight exponent bits are not all ones.
abbrev pub is_finite : ℕ → Bool
is_finite n = not (n / 2 ^ 23 % 2 ^ 8 == 255)

-- `==` on byte slices.
abbrev pub bytes_eq : List ℕ → List ℕ → Bool
bytes_eq [] [] = true
bytes_eq (a ∷ xs) (b ∷ ys) = a == b && bytes_eq xs ys
bytes_eq _ _ = false
