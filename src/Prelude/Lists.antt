-- ===== src/Prelude/Lists.antt =====
-- Lists measured by native numbers, and tests over lists.
use Prim.Native.Nat.{ℕ, suc, ◌+◌}
use mathlib.Core.Path.{◌≡◌, refl, ap}
use mathlib.Core.Bool.{Bool, true, false, ◌&&◌, ◌||◌}
use mathlib.Core.List.{List, [], ◌∷◌, ◌++◌, map}
use native.Mathlib.Omega.{arith}

module _ {ℓ} {A : Type ℓ} where
  abbrev pub length : List A → ℕ
  length [] = 0
  length (x ∷ xs) = suc (length xs)

  pub length-append : (xs ys : List A) → length (xs ++ ys) ≡ length xs + length ys
  length-append [] ys = omega arith
  length-append (x ∷ xs) ys = omega (arith, length-append xs ys)

  -- Python's `any(p(x) for x in xs)` and `all(...)`
  abbrev pub any : (A → Bool) → List A → Bool
  any p [] = false
  any p (x ∷ xs) = p x || any p xs

  abbrev pub all : (A → Bool) → List A → Bool
  all p [] = true
  all p (x ∷ xs) = p x && all p xs

  abbrev pub All {κ} : (A → Type κ) → List A → Type κ
  All P [] = Unit
  All P (x ∷ xs) = P x × All P xs

  pub any-append : (p : A → Bool) (xs ys : List A) → any p (xs ++ ys) ≡ (any p xs || any p ys)
  any-append p [] ys = refl
  any-append p (x ∷ xs) ys = ground (arith, any-append p xs ys)

pub length-map {ℓ κ} :
    {A : Type ℓ} {B : Type κ} (f : B → A) (xs : List B) → length (map f xs) ≡ length xs
length-map f [] = refl
length-map f (x ∷ xs) = ap suc (length-map f xs)

module _ {ℓ} {A : Type ℓ} (p : A → Bool) where
  -- `all`, `any` and filters by what holds at each element
  pub All-all : (xs : List A) → all p xs ≡ true → All (λ x. p x ≡ true) xs
  All-all [] h = tt
  All-all (x ∷ xs) h = (ground (arith, h), All-all xs (ground (arith, h)))

  pub all-All : (xs : List A) → All (λ x. p x ≡ true) xs → all p xs ≡ true
  all-All [] h = refl
  all-All (x ∷ xs) h = ground (arith, h.0, all-All xs h.1)

  pub All-any : (xs : List A) → any p xs ≡ false → All (λ x. p x ≡ false) xs
  All-any [] h = tt
  All-any (x ∷ xs) h = (ground (arith, h), All-any xs (ground (arith, h)))

  pub any-All : (xs : List A) → All (λ x. p x ≡ false) xs → any p xs ≡ false
  any-All [] h = refl
  any-All (x ∷ xs) h = ground (arith, h.0, any-All xs h.1)
