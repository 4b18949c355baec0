-- ===== src/Table.antt =====
-- Lists of ids, and JavaScript objects and Maps keyed by ids as association lists in the order of
-- insertion.
use chatgpt_codex_orchestrat.Prelude.{
  String, Bool, ◌≡◌, refl, false, ◌||◌, none, some, Option, List, [], ◌∷◌, ◌++◌, if◌then◌else◌,
  ◌==◌, eq_iff, arith,
}

unfoldable pub is_in : String → List String → Bool
is_in x [] = false
is_in x (y ∷ ys) = y == x || is_in x ys

unfoldable pub lookup {ℓ} : {A : Type ℓ} → String → List (String × A) → Option A
lookup x [] = none
lookup x ((y, a) ∷ ys) = if y == x then some a else lookup x ys

-- `object[x] = a`
unfoldable pub store {ℓ} : {A : Type ℓ} → String → A → List (String × A) → List (String × A)
store x a [] = (x, a) ∷ []
store x a ((y, b) ∷ ys) = if y == x then (y, a) ∷ ys else (y, b) ∷ store x a ys

-- `map.delete(x)`
unfoldable pub remove {ℓ} : {A : Type ℓ} → String → List (String × A) → List (String × A)
remove x [] = []
remove x ((y, b) ∷ ys) = let rest = remove x ys in if y == x then rest else (y, b) ∷ rest

pub lookup-store {ℓ} :
    {A : Type ℓ} (x y : String) (a : A) (xs : List (String × A))
    → lookup y (store x a xs) ≡ (if x == y then some a else lookup y xs)
unfolding lookup store
lookup-store x y a [] = refl
lookup-store x y a ((z, b) ∷ xs) =
    ground (arith, eq_iff x y, eq_iff z x, eq_iff z y, lookup-store x y a xs)

pub lookup-store_other {ℓ} :
    {A : Type ℓ} (x y : String) (a b : A) (xs : List (String × A))
    → lookup x xs ≡ none
    → lookup y xs ≡ some b
    → lookup y (store x a xs) ≡ some b
lookup-store_other x y a b xs n e = ground (arith, eq_iff x y, lookup-store x y a xs)

pub is_in-append :
    (x y : String) (ys : List String) → is_in x (ys ++ y ∷ []) ≡ (is_in x ys || y == x)
unfolding is_in
is_in-append x y [] = ground arith
is_in-append x y (z ∷ ys) = ground (arith, is_in-append x y ys)

-- No id is there twice.
abbrev pub Distinct : List String → Type 0
Distinct [] = Unit
Distinct (x ∷ xs) = (is_in x xs ≡ false) × Distinct xs

pub append-Distinct :
    (y : String) (xs : List String) → is_in y xs ≡ false → Distinct xs → Distinct (xs ++ y ∷ [])
unfolding is_in
append-Distinct y [] n d = (refl, tt)
append-Distinct y (x ∷ xs) n d = (
  ground (arith, n, d.0, is_in-append x y xs, eq_iff x y, eq_iff y x),
  append-Distinct y xs (ground (arith, n)) d.1,
)

pub lookup-remove {ℓ} :
    {A : Type ℓ} (x y : String) (xs : List (String × A))
    → lookup y (remove x xs) ≡ (if x == y then none else lookup y xs)
unfolding lookup remove
lookup-remove x y [] = ground arith
lookup-remove x y ((z, b) ∷ xs) =
    ground (arith, eq_iff x y, eq_iff z x, eq_iff z y, lookup-remove x y xs)

pub lookup-append_new {ℓ} :
    {A : Type ℓ} (x : String) (a : A) (xs : List (String × A))
    → lookup x xs ≡ none
    → lookup x (xs ++ (x, a) ∷ []) ≡ some a
unfolding lookup
lookup-append_new x a [] n = ground (arith, eq_iff x x)
lookup-append_new x a ((z, b) ∷ xs) n = ground (arith, n, lookup-append_new x a xs)
