-- ===== src/Common/Bits.antt =====
-- Bit operations at variables: low masks of any width, and single bits of a byte by tables.
use Prim.Native.Nat.{
  ℕ, zero, suc, ◌+◌, ◌-◌, ◌*◌, ◌/◌, ◌%◌, ◌^◌, ◌≤◌, ◌<◌, min, max, bit_and, bit_or, digits, bitwise,
  bit_or-bitwise, bit_and-bitwise,
}
use mathlib.Core.Path.{◌≡◌, refl, ap, ◌∙◌}
use mathlib.Core.Bool.{Bool, true, ◌&&◌}
use mathlib.Core.List.{List, [], ◌∷◌}
use native.Mathlib.Omega.{arith}
use native.Mathlib.Nat.{
  pow-suc, div-div-eq-div-mul, one-le-pow, mul-add-mod_self_left, mod-eq_of_lt, mod-lt, div-add-mod,
}
use apsyde.Common.Tests.{ltb, ◌==◌, ==_iff, if◌then◌else◌, Bool-cases}
use mathlib.Core.Logic.{inl, inr}
use apsyde.Common.Lists.{get_or}
use apsyde.Common.Words.{u8, ◌<<<◌, ◌>>>◌}

-- A test at every number below a bound, by evaluation.
unfoldable pub every_below : (ℕ → Bool) → ℕ → Bool
every_below test zero = true
every_below test (suc top) = every_below test top && test top

pub every_below-at :
    (test : ℕ → Bool) (bound i : ℕ) → i < bound → every_below test bound ≡ true → test i ≡ true
unfolding every_below
every_below-at test zero i lt h = absurd (omega arith)
every_below-at test (suc top) i lt h = elim (Bool-cases (i == top)) [
  | inl last ↦ ground arith
  | inr before ↦ every_below-at test top i (ground arith) (ground arith)
]

-- `(b >> k) & 1`
abbrev pub bit_at : ℕ → ℕ → ℕ
bit_at b k = bit_and (b >>> k) 1

-- `b | (1u << i)` and `b & ~(1u << i)`, stored back into a byte.
abbrev pub byte_set : ℕ → ℕ → ℕ
byte_set b i = u8 (bit_or b (1 <<< i))

abbrev pub byte_clear : ℕ → ℕ → ℕ
byte_clear b i = u8 (bit_and b (2 ^ 32 - 1 - 1 <<< i))

set_row : ℕ → ℕ → ℕ → Bool
set_row b i j = bit_at (byte_set b i) j == (if i == j then 1 else bit_at b j)

clear_row : ℕ → ℕ → ℕ → Bool
clear_row b i j = bit_at (byte_clear b i) j == (if i == j then 0 else bit_at b j)

abbrev byte_table : (ℕ → ℕ → ℕ → Bool) → Bool
byte_table row = every_below (λ b. every_below (λ i. every_below (row b i) 8) 8) 256

set_table : byte_table set_row ≡ true
unfolding every_below set_row
set_table = refl

clear_table : byte_table clear_row ≡ true
unfolding every_below clear_row
clear_table = refl

byte_table-at :
    (row : ℕ → ℕ → ℕ → Bool) (b i j : ℕ)
    → byte_table row ≡ true
    → b < 256
    → i < 8
    → j < 8
    → row b i j ≡ true
byte_table-at row b i j t hb hi hj = every_below-at (row b i) 8 j hj (
    every_below-at (λ k. every_below (row b k) 8) 8 i hi
      (every_below-at (λ x. every_below (λ k. every_below (row x k) 8) 8) 256 b hb t))

pub bit_at-byte_set :
    (b i j : ℕ)
    → b < 256
    → i < 8
    → j < 8
    → bit_at (byte_set b i) j ≡ (if i == j then 1 else bit_at b j)
unfolding set_row
bit_at-byte_set b i j hb hi hj = (==_iff _ _).0 (byte_table-at set_row b i j set_table hb hi hj)

pub bit_at-byte_clear :
    (b i j : ℕ)
    → b < 256
    → i < 8
    → j < 8
    → bit_at (byte_clear b i) j ≡ (if i == j then 0 else bit_at b j)
unfolding clear_row
bit_at-byte_clear b i j hb hi hj =
    (==_iff _ _).0 (byte_table-at clear_row b i j clear_table hb hi hj)

-- A native bit operation stands for a recursion on the binary digits with as much fuel as the
-- first number is large. More fuel gives the same result.
module _ (end_digits : ℕ → ℕ) (digit : ℕ → ℕ → ℕ) where
  digits_exact :
      (bound fuel a b : ℕ)
      → fuel ≤ bound
      → a ≤ fuel
      → digits end_digits digit fuel a b ≡ digits end_digits digit a a b
  digits_exact bound zero zero b h k = refl
  digits_exact bound (suc fuel) zero b h k = refl
  digits_exact bound zero (suc a) b h k = absurd (omega arith)
  digits_exact zero (suc fuel) (suc a) b h k = absurd (omega arith)
  digits_exact (suc bound) (suc fuel) (suc a) b h k =
      let half = suc a / 2 in
      rw
        (
          digits_exact bound fuel half (b / 2) (omega arith) (omega arith),
          digits_exact bound a half (b / 2) (omega arith) (omega arith),
        )
        refl

  -- The lowest digit, and the rest.
  pub bitwise_lowest :
      (a b : ℕ)
      → 0 < a
      → bitwise end_digits digit a b
        ≡ bitwise end_digits digit (a / 2) (b / 2) * 2 + digit (a % 2) (b % 2)
  bitwise_lowest zero b h = absurd (omega arith)
  bitwise_lowest (suc a) b h =
      rw (digits_exact a a (suc a / 2) (b / 2) (omega arith) (omega arith)) refl

pub lowest_of_or : (x y : ℕ) → bit_or x y ≡ 2 * bit_or (x / 2) (y / 2) + max (x % 2) (y % 2)
lowest_of_or zero y = simp bit_or-bitwise (omega arith)
lowest_of_or (suc n) y =
    let lowest = bitwise_lowest (λ t. t) max (suc n) y (omega arith) in
    simp bit_or-bitwise (omega (arith, lowest))

-- The same for `&`.
pub lowest_of_and : (x y : ℕ) → bit_and x y ≡ 2 * bit_and (x / 2) (y / 2) + min (x % 2) (y % 2)
lowest_of_and zero y = simp bit_and-bitwise (omega arith)
lowest_of_and (suc n) y =
    let lowest = bitwise_lowest (λ _. zero) min (suc n) y (omega arith) in
    simp bit_and-bitwise (omega (arith, lowest))

-- Zero on the right, for numbers of at most `k` digits.
zero_right : (k a : ℕ) → a < 2 ^ k → (bit_and a 0 ≡ 0) × (bit_or a 0 ≡ a)
zero_right zero a h = let e : a ≡ 0 = omega arith in rw e (refl, refl)
zero_right (suc k) a h =
    let ih = zero_right k (a / 2) (omega (arith, pow-suc 2 k)) in
    (omega (arith, lowest_of_and a 0, ih.0), omega (arith, lowest_of_or a 0, ih.1))

lt-two-pow : (a : ℕ) → a < 2 ^ a
lt-two-pow zero = omega arith
lt-two-pow (suc a) = omega (arith, lt-two-pow a, pow-suc 2 a)

pub bit_and-zero : (a : ℕ) → bit_and a 0 ≡ 0
bit_and-zero a = (zero_right a a (lt-two-pow a)).0

pub bit_or-zero : (a : ℕ) → bit_or a 0 ≡ a
bit_or-zero a = (zero_right a a (lt-two-pow a)).1

mod-double : (m a : ℕ) → 0 < m → a % (2 * m) ≡ (a / 2 % m) * 2 + a % 2
mod-double m a h =
    ap (λ (t : ℕ). t % (2 * m)) split
    ∙ mul-add-mod_self_left (2 * m) (a / 2 / m) (a / 2 % m * 2 + a % 2)
    ∙ mod-eq_of_lt (omega (arith, mod-lt (a / 2) h))
  where
    split : a ≡ 2 * m * (a / 2 / m) + (a / 2 % m * 2 + a % 2)
    split = omega (arith, div-add-mod (a / 2) m)

-- A mask of `k` low bits is the remainder by `2 ^ k`.
pub bit_and_mask : (k a : ℕ) → bit_and a (2 ^ k - 1) ≡ a % 2 ^ k
bit_and_mask zero a = rw bit_and-zero (omega arith)
bit_and_mask (suc k) a = ground (
  arith,
  lowest_of_and a (2 ^ suc k - 1),
  pow-suc 2 k,
  one-le-pow k 2,
  bit_and_mask k (a / 2),
  mod-double (2 ^ k) a,
)

double-div : (n : ℕ) → (n * 2) / 2 ≡ n
double-div n = omega arith

bit_and_double : (x m : ℕ) → bit_and x (m * 2) ≡ bit_and (x / 2) m * 2
bit_and_double x m = ground (arith, lowest_of_and x (m * 2), double-div m)

-- A mask shifted left by `k` clears the `k` low bits.
pub bit_and_shifted : (k x m : ℕ) → bit_and x (m * 2 ^ k) ≡ bit_and (x / 2 ^ k) m * 2 ^ k
bit_and_shifted zero x m = ground arith
bit_and_shifted (suc k) x m =
    ap (bit_and x) wide
    ∙ bit_and_double x (m * 2 ^ k)
    ∙ ap (λ (t : ℕ). t * 2) (bit_and_shifted k (x / 2) m)
    ∙ regroup
  where
    wide : m * 2 ^ suc k ≡ m * 2 ^ k * 2
    wide = omega (arith, ap (λ (t : ℕ). m * t) (pow-suc 2 k))

    quotient : x / 2 / 2 ^ k ≡ x / 2 ^ suc k
    quotient = div-div-eq-div-mul x 2 (2 ^ k) ∙ ap (λ (t : ℕ). x / t) (omega (arith, pow-suc 2 k))

    regroup : bit_and (x / 2 / 2 ^ k) m * 2 ^ k * 2 ≡ bit_and (x / 2 ^ suc k) m * 2 ^ suc k
    regroup =
        rw quotient (omega (arith, ap (λ (t : ℕ). bit_and (x / 2 ^ suc k) m * t) (pow-suc 2 k)))

-- `x & ~(2^k - 1)` in 64 bits rounds down to a multiple of `2^k`.
pub bit_and_align : (x : ℕ) → x < 2 ^ 64 → bit_and x 0xffff_ffff_ffff_f000 ≡ x / 4096 * 4096
bit_and_align x h = omega (arith, bit_and_shifted 12 x (2 ^ 52 - 1), bit_and_mask 52 (x / 4096))

-- Every element is below the bound, by evaluation.
unfoldable pub all_below : ℕ → List ℕ → Bool
all_below n [] = true
all_below n (x ∷ xs) = ltb x n && all_below n xs

pub get_or-below : (n : ℕ) (l : List ℕ) (i : ℕ) → 1 ≤ n → all_below n l ≡ true → get_or l i 0 < n
unfolding all_below
get_or-below n [] i one h = one
get_or-below n (x ∷ xs) zero one h = ground (arith, h)
get_or-below n (x ∷ xs) (suc i) one h = get_or-below n xs i one (ground (arith, h))

bit_or_double : (m b : ℕ) → bit_or (m * 2) b ≡ bit_or m (b / 2) * 2 + b % 2
bit_or_double m b = ground (arith, lowest_of_or (m * 2) b, double-div m)

pub bit_or_comm : (k x y : ℕ) → x < 2 ^ k → y < 2 ^ k → bit_or x y ≡ bit_or y x
bit_or_comm zero x y h l =
    let x_is : x ≡ 0 = omega (arith, h) in
    let y_is : y ≡ 0 = omega (arith, l) in rw (x_is, y_is) refl
bit_or_comm (suc k) x y h l =
    let ih =
      bit_or_comm k (x / 2) (y / 2) (omega (arith, h, pow-suc 2 k))
        (omega (arith, l, pow-suc 2 k)) in
    omega (arith, lowest_of_or x y, lowest_of_or y x, ih)

-- `|` of two parts that share no bit is their sum.
pub bit_or_shifted : (k a b : ℕ) → b < 2 ^ k → bit_or (a * 2 ^ k) b ≡ a * 2 ^ k + b
bit_or_shifted zero a b h =
    let none_left : b ≡ 0 = omega (arith, h) in rw (none_left, bit_or-zero) (omega arith)
bit_or_shifted (suc k) a b h =
    let below : b / 2 < 2 ^ k = omega (arith, h, pow-suc 2 k) in
    let wide : a * 2 ^ suc k ≡ a * 2 ^ k * 2 = omega (arith, ap (λ (t : ℕ). a * t) (pow-suc 2 k)) in
    ap (λ t. bit_or t b) wide
    ∙ bit_or_double (a * 2 ^ k) b
    ∙ omega (arith, bit_or_shifted k a (b / 2) below, wide)
