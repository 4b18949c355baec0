-- ===== src/Prelude.antt =====
-- The names that the other modules share: those of the libraries, passed on, the Boolean tests on
-- native numbers, a result type for code that throws, and small facts about Booleans.
use Prim.Native.Nat.{compare, Ordering}
pub use Prim.Native.Nat.{ℕ, zero, suc, ◌+◌, ◌-◌, ◌≤◌, ◌<◌}
pub use Prim.Native.String.{String}
pub use mathlib.Core.Path.{◌≡◌, refl, sym, ap, ◌∙◌}
pub use mathlib.Core.Logic.{◌≢◌, ◌↔◌, ◌⊎◌, inl, inr}
pub use mathlib.Core.Bool.{Bool, true, false, not, ◌&&◌, ◌||◌}
pub use mathlib.Core.Option.{Option, none, some}
pub use mathlib.Core.List.{List, [], ◌∷◌, ◌++◌, map}
pub use native.Mathlib.Omega.{arith}
pub use text.Mathlib.Text.{◌==◌}
pub use text.Mathlib.TextEquality.{eq_iff}

abbrev pub ltb : ℕ → ℕ → Bool
ltb a b = elim (compare a b) [ Ordering.lt ↦ true | _ ↦ false ]

abbrev pub leb : ℕ → ℕ → Bool
leb a b = elim (compare a b) [ Ordering.gt ↦ false | _ ↦ true ]

abbrev pub nat_eq : ℕ → ℕ → Bool
nat_eq a b = elim (compare a b) [ Ordering.eq ↦ true | _ ↦ false ]

infix 1 if◌then◌else◌
abbrev pub if◌then◌else◌ {ℓ} : {A : Type ℓ} → Bool → A → A → A
if true then x else y = x
if false then x else y = y

-- What a function that may throw returns.
pub data Result {ℓ κ} (E : Type ℓ) (A : Type κ) : Type (ℓ ⊔ κ) where
  ok : A → Result E A
  thrown : E → Result E A

infixl 5 ◌>>=◌ ◌>>◌
abbrev pub ◌>>=◌ {ℓ κ μ} :
    {E : Type ℓ} {A : Type κ} {B : Type μ} → Result E A → (A → Result E B) → Result E B
ok a >>= f = f a
thrown e >>= f = thrown e

abbrev pub ◌>>◌ {ℓ μ} : {E : Type ℓ} {B : Type μ} → Result E (Unit {0}) → Result E B → Result E B
m >> k = m >>= λ _. k

abbrev pub guard {ℓ} : {E : Type ℓ} → Bool → E → Result E (Unit {0})
guard true e = ok tt
guard false e = thrown e

pub Bool-cases : (b : Bool) → (b ≡ true) ⊎ (b ≡ false)
Bool-cases true = inl refl
Bool-cases false = inr refl

-- A JavaScript string is falsy exactly if it is empty.
abbrev pub truthy : String → Bool
truthy s = not (s == "")

module _ {ℓ κ μ} {E : Type ℓ} {A : Type κ} {B : Type μ} where
  -- A chain that returned: its first step did, and so did the rest after it.
  pub bind_returned :
      (r : Result E A) (rest : A → Result E B) {out : B}
      → (r >>= rest) ≡ ok out
      → (x : A) × (rest x ≡ ok out) × (r ≡ ok x)
  bind_returned (thrown e) rest p = cc
  bind_returned (ok x) rest p = (x, p, refl)

pub ok-injective {ℓ κ} :
    {E : Type ℓ} {A : Type κ} {a b : A} → ◌≡◌ {A = Result E A} (ok a) (ok b) → a ≡ b
ok-injective h = cc

-- texts that the test tells apart, and texts that it must tell apart
pub apart : (x y : String) → (x == y) ≡ false → x ≢ y
apart x y h = λ e. ground (arith, eq_iff x y)

pub differ : (x y : String) → x ≢ y → (x == y) ≡ false
differ x y n = ground (arith, eq_iff x y)

-- A chain that went on past its guard.
pub guard_passed {ℓ κ} :
    {E : Type ℓ} {B : Type κ} (b : Bool) (why : E) (rest : Result E B) {out : B}
    → (guard b why >> rest) ≡ ok out
    → (b ≡ true) × (rest ≡ ok out)
guard_passed true why rest p = (refl, p)
guard_passed false why rest p = cc

pub guard-true {ℓ} : {E : Type ℓ} (b : Bool) (why : E) → guard b why ≡ ok tt → b ≡ true
guard-true true why p = refl
guard-true false why p = cc

pub some-injective {ℓ} : {A : Type ℓ} {a b : A} → some a ≡ some b → a ≡ b
some-injective e = cc
