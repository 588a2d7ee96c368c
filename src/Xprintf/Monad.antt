-- ===== src/Xprintf/Monad.antt =====
-- What a call of the routines of buenos/lib/xprintf.c comes to.
use osm_re_exam.Prelude.{Bool, true, false, if◌then◌else◌}

-- A value, a step that C leaves undefined, or a loop that is not over when the fuel is.
pub data Run {ℓ} (A : Type ℓ) : Type ℓ where
  finished : A → Run A
  undefined : Run A
  out_of_fuel : Run A

infixl 5 ◌>>=◌
abbrev pub ◌>>=◌ {ℓ κ} : {A : Type ℓ} {B : Type κ} → Run A → (A → Run B) → Run B
finished a >>= f = f a
undefined >>= f = undefined
out_of_fuel >>= f = out_of_fuel

-- The fuel is enough, and a value satisfies `P`.
pub data Ends {ℓ κ} {A : Type ℓ} (P : A → Type κ) : Run A → Type (ℓ ⊔ κ) where
  ends : {a : A} → P a → Ends P (finished a)
  breaks : Ends P undefined

-- If there is a value, it satisfies `P`.
pub data Gives {ℓ κ} {A : Type ℓ} (P : A → Type κ) : Run A → Type (ℓ ⊔ κ) where
  gives : {a : A} → P a → Gives P (finished a)
  gives_undefined : Gives P undefined
  gives_none : Gives P out_of_fuel

module _ {ℓ κ} {A : Type ℓ} {P : A → Type κ} where
  pub Ends-bind {μ ν} :
      {B : Type μ} {Q : B → Type ν} {r : Run A} (f : A → Run B)
      → Ends P r
      → ((a : A) → P a → Ends Q (f a))
      → Ends Q (r >>= f)
  Ends-bind f (ends {a} h) k = k a h
  Ends-bind f breaks k = breaks

  pub Gives-bind {μ ν} :
      {B : Type μ} {Q : B → Type ν} {r : Run A} (f : A → Run B)
      → Gives P r
      → ((a : A) → P a → Gives Q (f a))
      → Gives Q (r >>= f)
  Gives-bind f (gives {a} h) k = k a h
  Gives-bind f gives_undefined k = gives_undefined
  Gives-bind f gives_none k = gives_none

  pub Ends-if : (b : Bool) {r s : Run A} → Ends P r → Ends P s → Ends P (if b then r else s)
  Ends-if true h k = h
  Ends-if false h k = k

  pub Gives-if : (b : Bool) {r s : Run A} → Gives P r → Gives P s → Gives P (if b then r else s)
  Gives-if true h k = h
  Gives-if false h k = k
