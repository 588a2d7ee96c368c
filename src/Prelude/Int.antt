-- ===== src/Prelude/Int.antt =====
-- C `int` values, over the native numbers: `negsuc n` is -(n + 1).
use Prim.Native.Nat.{ℕ, zero, suc, ◌+◌, ◌-◌, ◌%◌, ◌^◌}
use mathlib.Core.Bool.{Bool, true, false, not}
use mathlib.Core.Path.{◌≡◌, refl, ap}
use mathlib.Core.Logic.{◌≢◌, inl, inr}
use osm_re_exam.Prelude.Tests.{◌==◌, if◌then◌else◌, ltb, ==→eq, eq→==, Bool-cases}

pub data ℤ : Type 0 where
  pos : ℕ → ℤ
  negsuc : ℕ → ℤ

abbrev pub minus_one : ℤ
minus_one = negsuc 0

infix 50 ◌==ℤ◌
abbrev pub ◌==ℤ◌ : ℤ → ℤ → Bool
pos a ==ℤ pos b = a == b
negsuc a ==ℤ negsuc b = a == b
_ ==ℤ _ = false

abbrev pub ltb_ℤ : ℤ → ℤ → Bool
ltb_ℤ (pos a) (pos b) = ltb a b
ltb_ℤ (negsuc a) (negsuc b) = ltb b a
ltb_ℤ (negsuc a) (pos b) = true
ltb_ℤ (pos a) (negsuc b) = false

abbrev pub leb_ℤ : ℤ → ℤ → Bool
leb_ℤ a b = not (ltb_ℤ b a)

-- `n + 1` and `n - 1`
abbrev pub succ : ℤ → ℤ
succ (pos n) = pos (n + 1)
succ (negsuc zero) = pos 0
succ (negsuc (suc n)) = negsuc n

abbrev pub prev : ℤ → ℤ
prev (pos zero) = negsuc 0
prev (pos (suc n)) = pos n
prev (negsuc n) = negsuc (suc n)

pub ==ℤ_refl : (a : ℤ) → (a ==ℤ a) ≡ true
==ℤ_refl (pos n) = eq→== n n refl
==ℤ_refl (negsuc n) = eq→== n n refl

pub ==ℤ→eq : (a b : ℤ) → (a ==ℤ b) ≡ true → a ≡ b
==ℤ→eq (pos a) (pos b) h = ap pos (==→eq a b h)
==ℤ→eq (negsuc a) (negsuc b) h = ap negsuc (==→eq a b h)
==ℤ→eq (pos a) (negsuc b) h = cc
==ℤ→eq (negsuc a) (pos b) h = cc

pub ne→==ℤ : (a b : ℤ) → a ≢ b → (a ==ℤ b) ≡ false
ne→==ℤ a b h = elim (Bool-cases (a ==ℤ b)) [ inl e ↦ absurd (h (==ℤ→eq a b e)) | inr e ↦ e ]

-- `a - b` for two unsigned values that fit into an int.
abbrev pub sub : ℕ → ℕ → ℤ
sub a zero = pos a
sub zero (suc b) = negsuc b
sub (suc a) (suc b) = sub a b

pub sub_self : (a : ℕ) → sub a a ≡ pos 0
sub_self zero = refl
sub_self (suc a) = sub_self a

pub sub_zero : (a b : ℕ) → sub a b ≡ pos 0 → a ≡ b
sub_zero zero zero e = refl
sub_zero (suc a) zero e = cc
sub_zero zero (suc b) e = cc
sub_zero (suc a) (suc b) e = ap suc (sub_zero a b e)

-- The sum and the difference of two words, and a word as an int.
abbrev pub word_add : ℕ → ℕ → ℕ
word_add a b = (a + b) % 2 ^ 32

abbrev pub word_sub : ℕ → ℕ → ℕ
word_sub a b = (a + (2 ^ 32 - b)) % 2 ^ 32

abbrev pub as_int : ℕ → ℤ
as_int w = if ltb w (2 ^ 31) then pos w else negsuc (2 ^ 32 - w - 1)
