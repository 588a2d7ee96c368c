-- ===== src/Prelude/Bits.antt =====
-- Binary digits of `&`, `|`, powers of two and complements.
use Prim.Native.Nat.{
  ℕ, zero, suc, ◌+◌, ◌-◌, ◌*◌, ◌/◌, ◌%◌, ◌^◌, ◌≤◌, ◌<◌, min, max, bit_and, bit_or, digits,
  bit_and-bitwise, bit_or-bitwise,
}
use mathlib.Core.Path.{◌≡◌, refl, ap, ◌∙◌}
use native.Mathlib.Omega.{arith}
use native.Mathlib.Nat.{pow-suc, one-le-pow, div-div-eq-div-mul, mul_comm}
use osm_re_exam.Prelude.Tests.{◌==◌, if◌then◌else◌}

-- The digit of weight 2 ^ k, and what is left of `x` above it.
unfoldable pub digit : ℕ → ℕ → ℕ
digit x zero = x % 2
digit x (suc k) = digit (x / 2) k

pub digit-lt_two : (k x : ℕ) → digit x k < 2
unfolding digit
digit-lt_two zero x = omega arith
digit-lt_two (suc k) x = digit-lt_two k (x / 2)

pub digit-eq_shift : (k x : ℕ) → digit x k ≡ x / 2 ^ k % 2
unfolding digit
digit-eq_shift zero x = omega arith
digit-eq_shift (suc k) x =
    rw (digit-eq_shift k (x / 2), div-div-eq-div-mul, pow-suc 2 k, mul_comm (2 ^ k) 2)

-- More fuel than digits changes nothing.
enough :
    (z : ℕ → ℕ) (f : ℕ → ℕ → ℕ) (n m a b : ℕ) → a ≤ n → a ≤ m → digits z f n a b ≡ digits z f m a b
enough z f zero zero zero b h h' = refl
enough z f zero (suc m) zero b h h' = refl
enough z f (suc n) zero zero b h h' = refl
enough z f (suc n) (suc m) zero b h h' = refl
enough z f n zero (suc a) b h h' = absurd (omega arith)
enough z f zero (suc m) (suc a) b h h' = absurd (omega arith)
enough z f (suc n) (suc m) (suc a) b h h' =
    rw (enough z f n m (suc a / 2) (b / 2) (omega arith) (omega arith))

bit_and_step : (a b : ℕ) → bit_and a b ≡ bit_and (a / 2) (b / 2) * 2 + min (a % 2) (b % 2)
bit_and_step zero b = omega (arith, bit_and-bitwise 0 b, bit_and-bitwise 0 (b / 2))
bit_and_step (suc a) b = omega (
  arith,
  bit_and-bitwise (suc a) b,
  bit_and-bitwise (suc a / 2) (b / 2),
  enough (λ _. 0) min a (suc a / 2) (suc a / 2) (b / 2) (omega arith) (omega arith),
)

bit_or_step : (a b : ℕ) → bit_or a b ≡ bit_or (a / 2) (b / 2) * 2 + max (a % 2) (b % 2)
bit_or_step zero b = omega (arith, bit_or-bitwise 0 b, bit_or-bitwise 0 (b / 2))
bit_or_step (suc a) b = omega (
  arith,
  bit_or-bitwise (suc a) b,
  bit_or-bitwise (suc a / 2) (b / 2),
  enough (λ y. y) max a (suc a / 2) (suc a / 2) (b / 2) (omega arith) (omega arith),
)

pub digit-bit_and : (k a b : ℕ) → digit (bit_and a b) k ≡ min (digit a k) (digit b k)
unfolding digit
digit-bit_and zero a b = omega (arith, bit_and_step a b)
digit-bit_and (suc k) a b =
    let e : bit_and a b / 2 ≡ bit_and (a / 2) (b / 2) = omega (arith, bit_and_step a b) in
    rw e (digit-bit_and k (a / 2) (b / 2))

pub digit-bit_or : (k a b : ℕ) → digit (bit_or a b) k ≡ max (digit a k) (digit b k)
unfolding digit
digit-bit_or zero a b = omega (arith, bit_or_step a b)
digit-bit_or (suc k) a b =
    let e : bit_or a b / 2 ≡ bit_or (a / 2) (b / 2) = omega (arith, bit_or_step a b) in
    rw e (digit-bit_or k (a / 2) (b / 2))

pub digit-zero : (k : ℕ) → digit 0 k ≡ 0
unfolding digit
digit-zero zero = refl
digit-zero (suc k) = digit-zero k

pub two-pow-suc : (j : ℕ) → 2 ^ suc j ≡ 2 * 2 ^ j
two-pow-suc j = omega (arith, pow-suc 2 j)

pub digit-pow : (j k : ℕ) → digit (2 ^ j) k ≡ (if k == j then 1 else 0)
unfolding digit
digit-pow zero zero = refl
digit-pow zero (suc k) = ground (arith, digit-zero k)
digit-pow (suc j) zero = ground (arith, two-pow-suc j)
digit-pow (suc j) (suc k) =
    let e : 2 ^ suc j / 2 ≡ 2 ^ j = omega (arith, two-pow-suc j) in
    rw e (digit-pow j k ∙ ground arith)

-- The complement within `n` digits.
pub digit-complement : (n k x : ℕ) → x < 2 ^ n → k < n → digit (2 ^ n - 1 - x) k ≡ 1 - digit x k
unfolding digit
digit-complement zero k x h h' = absurd (omega arith)
digit-complement (suc n) zero x h h' = omega (arith, two-pow-suc n)
digit-complement (suc n) (suc k) x h h' =
    let e : (2 ^ suc n - 1 - x) / 2 ≡ 2 ^ n - 1 - x / 2 = omega (arith, two-pow-suc n) in
    rw e (digit-complement n k (x / 2) (omega (arith, two-pow-suc n)) (omega arith))

-- A word with no zero digit is all ones, and the all-ones word has none.
pub all_ones : (n x : ℕ) → x < 2 ^ n → ((k : ℕ) → k < n → digit x k ≡ 1) → x ≡ 2 ^ n - 1
unfolding digit
all_ones zero x h ones = omega arith
all_ones (suc n) x h ones = omega (
  arith,
  two-pow-suc n,
  one-le-pow n 2,
  ones 0 (omega arith),
  all_ones n (x / 2) (omega (arith, two-pow-suc n)) (λ k l. ones (suc k) (omega arith)),
)

pub digit_of_ones : (n k : ℕ) → k < n → digit (2 ^ n - 1) k ≡ 1
digit_of_ones n k h =
    let e : 2 ^ n - 1 ≡ 2 ^ n - 1 - 0 = omega arith in
    rw e (omega (arith, digit-complement n k 0 (omega (arith, one-le-pow n 2)) h, digit-zero k))

-- `&` and `|` stay within a width.
zero-bit_and : (b : ℕ) → bit_and 0 b ≡ 0
zero-bit_and b = bit_and-bitwise 0 b

pub bit_and-le : (n a b : ℕ) → a ≤ n → bit_and a b ≤ a
bit_and-le n zero b h = omega (arith, zero-bit_and b)
bit_and-le zero (suc a) b h = absurd (omega arith)
bit_and-le (suc n) (suc a) b h =
    omega (arith, bit_and_step (suc a) b, bit_and-le n (suc a / 2) (b / 2) (omega arith))

bit_and-zero : (n x : ℕ) → x ≤ n → bit_and x 0 ≡ 0
bit_and-zero n zero h = zero-bit_and 0
bit_and-zero zero (suc x) h = absurd (omega arith)
bit_and-zero (suc n) (suc x) h =
    omega (arith, bit_and_step (suc x) 0, bit_and-zero n (suc x / 2) (omega arith))

pub bit_or-lt : (n a b : ℕ) → a < 2 ^ n → b < 2 ^ n → bit_or a b < 2 ^ n
bit_or-lt zero zero zero h h' = omega (arith, bit_or-bitwise 0 0)
bit_or-lt zero (suc a) b h h' = absurd (omega arith)
bit_or-lt zero a (suc b) h h' = absurd (omega arith)
bit_or-lt (suc n) a b h h' = omega (
  arith,
  two-pow-suc n,
  bit_or_step a b,
  bit_or-lt n (a / 2) (b / 2) (omega (arith, two-pow-suc n)) (omega (arith, two-pow-suc n)),
)

pub bit_and-one : (a : ℕ) → bit_and a 1 ≡ a % 2
bit_and-one a = omega (arith, bit_and_step a 1, bit_and-zero (a / 2) (a / 2) (omega arith))

-- `&` with a single one.
pub bit_and-pow : (d p : ℕ) → bit_and p (2 ^ d) ≡ digit p d * 2 ^ d
unfolding digit
bit_and-pow zero p = omega (arith, bit_and-one p)
bit_and-pow (suc d) p =
    let e : 2 ^ suc d / 2 ≡ 2 ^ d = omega (arith, two-pow-suc d) in
    let ih = bit_and-pow d (p / 2) in
    let twice = ap (λ (t : ℕ). digit (p / 2) d * t) (two-pow-suc d) in
    ground (arith, bit_and_step p (2 ^ suc d), two-pow-suc d, ap (bit_and (p / 2)) e, ih, twice)

-- `&` with as many ones as the number has digits.
pub bit_and-ones : (n x : ℕ) → x < 2 ^ n → bit_and x (2 ^ n - 1) ≡ x
bit_and-ones zero x h = omega (arith, bit_and-zero x x (omega arith))
bit_and-ones (suc n) x h =
    let e : (2 ^ suc n - 1) / 2 ≡ 2 ^ n - 1 = omega (arith, two-pow-suc n) in
    let half : x / 2 < 2 ^ n = omega (arith, two-pow-suc n) in
    let ih = ap (bit_and (x / 2)) e ∙ bit_and-ones n (x / 2) half in
    let odd : (2 ^ suc n - 1) % 2 ≡ 1 = omega (arith, two-pow-suc n, one-le-pow n 2) in
    omega (arith, bit_and_step x (2 ^ suc n - 1), ih, odd)

-- `x & 3` and `x & 0xfffffffc`
pub bit_and-three : (x : ℕ) → bit_and x 3 ≡ x % 4
bit_and-three x = omega (arith, bit_and_step x 3, bit_and-one (x / 2))

pub bit_and-multiple_of_four : (x : ℕ) → x < 2 ^ 32 → bit_and x 0xffff_fffc ≡ x / 4 * 4
bit_and-multiple_of_four x h = omega (
  arith,
  bit_and_step x 0xffff_fffc,
  bit_and_step (x / 2) 0x7fff_fffe,
  bit_and-ones 30 (x / 2 / 2) (omega arith),
)
