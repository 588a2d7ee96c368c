-- ===== src/Prelude/Result.antt =====
-- What a kernel routine comes to: a value, a stop in KERNEL_PANIC or KERNEL_ASSERT, or an access
-- outside of an array, which C leaves undefined.
use Prim.Native.Nat.{ℕ, ◌<◌}
use mathlib.Core.Path.{◌≡◌, refl, sym}
use mathlib.Core.List.{List}
use mathlib.Core.Option.{none, some}
use mathlib.Core.Bool.{Bool, true, false}
use osm_re_exam.Prelude.Lists.{length, get_elem?, get_or, set, get_elem?-eq_some}
use osm_re_exam.Prelude.Tests.{ltb, if◌then◌else◌, lt→ltb}

pub data Result {ℓ} (A : Type ℓ) : Type ℓ where
  ok : A → Result A
  panic : Result A
  fault : Result A

-- The routine comes to a value, and that value satisfies `P`.
pub data Yields {ℓ κ} {A : Type ℓ} (P : A → Type κ) : Result A → Type (ℓ ⊔ κ) where
  yields : {a : A} → P a → Yields P (ok a)

infixl 5 ◌>>=◌ ◌>>◌
abbrev pub ◌>>=◌ {ℓ κ} : {A : Type ℓ} {B : Type κ} → Result A → (A → Result B) → Result B
ok a >>= f = f a
panic >>= f = panic
fault >>= f = fault

abbrev pub ◌>>◌ {ℓ} : {B : Type ℓ} → Result (Unit {0}) → Result B → Result B
m >> k = m >>= λ _. k

-- `KERNEL_ASSERT(condition)`
abbrev pub kernel_assert : Bool → Result (Unit {0})
kernel_assert true = ok tt
kernel_assert false = panic

module _ {ℓ} {A : Type ℓ} where
  -- `xs[i]`
  unfoldable pub read : List A → ℕ → Result A
  read xs i = elim (get_elem? xs i) [ none ↦ fault | some a ↦ ok a ]

  -- `xs[i] = v`
  unfoldable pub write : List A → ℕ → A → Result (List A)
  write xs i v = if ltb i (length xs) then ok (set xs i v) else fault

  pub read-ok : (xs : List A) (i : ℕ) (d : A) → i < length xs → read xs i ≡ ok (get_or xs i d)
  unfolding read
  read-ok xs i d h = rw (get_elem?-eq_some xs i d h, read)

  pub write-ok : (xs : List A) (i : ℕ) (v : A) → i < length xs → write xs i v ≡ ok (set xs i v)
  unfolding write
  write-ok xs i v h = rw (lt→ltb _ _ h)

module _ {ℓ κ} {A : Type ℓ} {P : A → Type κ} where
  pub Yields-eq : {r : Result A} → Yields P r → (a : A) × (r ≡ ok a) × P a
  Yields-eq (yields {a} h) = (a, refl, h)

  pub Yields-bind {μ ν} :
      {B : Type μ} {Q : B → Type ν} {r : Result A} (f : A → Result B)
      → Yields P r
      → ((a : A) → P a → Yields Q (f a))
      → Yields Q (r >>= f)
  Yields-bind f (yields {a} h) next = next a h

  pub Yields-ok : {a : A} → Yields P (ok a) → P a
  Yields-ok (yields h) = h

  pub Yields-at : {a : A} (r : Result A) → Yields P r → r ≡ ok a → P a
  Yields-at r y e = Yields-ok (rw (sym e) y)

  pub Yields-mono {ν} :
      {Q : A → Type ν} {r : Result A} → Yields P r → ((a : A) → P a → Q a) → Yields Q r
  Yields-mono (yields {a} h) weaken = yields (weaken a h)

module _ {ℓ κ μ} {A : Type ℓ} {P : A → Type κ} {Q : A → Type μ} where
  pub Yields-both : {r : Result A} → Yields P r → Yields Q r → Yields (λ a. P a × Q a) r
  Yields-both (yields {a} h) y = yields (h, Yields-ok y)
