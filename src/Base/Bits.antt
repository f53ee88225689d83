-- ===== src/Base/Bits.antt =====
-- Bytes: shifts and masks as arithmetic, `|` as the native `bit_or` with its laws by table.
use Prim.Native.Nat.{◌-◌, ℕ, zero, suc, ◌+◌, ◌*◌, ◌/◌, ◌%◌, ◌^◌, ◌<◌, bit_or}
use mathlib.Core.Path.{◌≡◌, refl}
use mathlib.Core.Bool.{Bool, true, false}
use native.Mathlib.Omega.{arith}
use mathlib.Core.Logic.{inl, inr}
use libusby.Base.Tests.{◌==◌, ==→eq, if◌then◌else◌, Bool-cases}

-- x >> k
abbrev pub shr : ℕ → ℕ → ℕ
shr x k = x / 2 ^ k

-- x & (2^k - 1)
abbrev pub low_bits : ℕ → ℕ → ℕ
low_bits x k = x % 2 ^ k

-- (uint8_t)x and (uint16_t)x
abbrev pub u8 : ℕ → ℕ
u8 x = x % 256

abbrev pub u16 : ℕ → ℕ
u16 x = x % 65536

-- `++n` and `--n` of an int, by its 32 bits.
abbrev pub increment : ℕ → ℕ
increment n = (n + 1) % 2 ^ 32

abbrev pub decrement : ℕ → ℕ
decrement n = (n + (2 ^ 32 - 1)) % 2 ^ 32

-- Two functions that give the same on the numbers below a bound, by evaluation.
agree : (bound : ℕ) (f g : ℕ → ℕ) → Bool
agree zero f g = true
agree (suc k) f g = if f k == g k then agree k f g else false

agree→eq : (bound : ℕ) (f g : ℕ → ℕ) → agree bound f g ≡ true → (n : ℕ) → n < bound → f n ≡ g n
unfolding agree
agree→eq zero f g same n h = elim h [ ]
agree→eq (suc k) f g same n h = elim (Bool-cases (n == k)) [
  | inl e ↦ rw (==→eq n k e) (==→eq (f k) (g k) (ground (arith, same)))
  | inr e ↦ agree→eq k f g (ground (arith, same)) n (ground arith)
]

-- A mask over bits that the second operand has not set adds up.
masks :
    (agree 64 (bit_or 0x80) (λ n. 0x80 + n) ≡ true)
    × (agree 32 (bit_or 0xC0) (λ n. 0xC0 + n) ≡ true)
    × (agree 16 (bit_or 0xe0) (λ n. 0xe0 + n) ≡ true)
    × (agree 8 (bit_or 0xf0) (λ n. 0xf0 + n) ≡ true)
unfolding agree
masks = (refl, refl, refl, refl)

pub or_80 : (n : ℕ) → n < 64 → bit_or 0x80 n ≡ 0x80 + n
or_80 = agree→eq 64 (bit_or 0x80) (λ n. 0x80 + n) masks.0

pub or_c0 : (n : ℕ) → n < 32 → bit_or 0xC0 n ≡ 0xC0 + n
or_c0 = agree→eq 32 (bit_or 0xC0) (λ n. 0xC0 + n) masks.1

pub or_e0 : (n : ℕ) → n < 16 → bit_or 0xe0 n ≡ 0xe0 + n
or_e0 = agree→eq 16 (bit_or 0xe0) (λ n. 0xe0 + n) masks.2

pub or_f0 : (n : ℕ) → n < 8 → bit_or 0xf0 n ≡ 0xf0 + n
or_f0 = agree→eq 8 (bit_or 0xf0) (λ n. 0xf0 + n) masks.3

-- The word that a low and a high byte make: lo | (hi << 8).
pub word : ℕ → ℕ → ℕ
word lo hi = bit_or lo (hi * 2 ^ 8)

-- The words of one high byte, and of all.
same_row : (combine : ℕ → ℕ → ℕ) → ℕ → ℕ
same_row combine hi = if agree 256 (λ lo. combine lo hi) (λ lo. lo + hi * 256) then 0 else 1

same_row→eq :
    (combine : ℕ → ℕ → ℕ) (lo hi : ℕ)
    → agree 256 (same_row combine) (λ hi. 0) ≡ true
    → lo < 256
    → hi < 256
    → combine lo hi ≡ lo + hi * 256
unfolding same_row
same_row→eq combine lo hi all h k =
    agree→eq 256 (λ lo. combine lo hi) (λ lo. lo + hi * 256)
      (ground (arith, agree→eq 256 (same_row combine) (λ hi. 0) all hi k)) lo h

low_first : agree 256 (same_row word) (λ hi. 0) ≡ true
unfolding agree same_row word
low_first = refl

pub word_lem : (lo hi : ℕ) → lo < 256 → hi < 256 → word lo hi ≡ lo + hi * 256
word_lem lo hi = same_row→eq word lo hi low_first
