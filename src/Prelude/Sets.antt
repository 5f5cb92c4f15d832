-- ===== src/Prelude/Sets.antt =====
-- Sets of keys as lists: membership, and lists in which no key stands twice.
use dsh_base_agent.Prelude.{
  ◌≤◌, ◌≡◌, refl, subst, ap, sym, ◌∙◌, Bool, true, false, not, ◌||◌, List, [], ◌∷◌, ◌++◌, map,
  arith, Eq, ◌==◌, eq_of_beq, eq_refl, if◌then◌else◌, Bool-cases, inl, inr,
}
use dsh_base_agent.Prelude.Lists.{length, any, All, any-append}

module _ {ℓ} {A : Type ℓ} where
  abbrev pub filter : (A → Bool) → List A → List A
  filter p [] = []
  filter p (x ∷ xs) = if p x then x ∷ filter p xs else filter p xs

  pub length-filter-le : (p : A → Bool) (xs : List A) → length (filter p xs) ≤ length xs
  length-filter-le p [] = omega arith
  length-filter-le p (x ∷ xs) = ground (arith, length-filter-le p xs)

  pub All-map {κ μ} :
      {P : A → Type κ} {Q : A → Type μ}
      → ((x : A) → P x → Q x)
      → (xs : List A) → All P xs
      → All Q xs
  All-map f [] a = tt
  All-map f (x ∷ xs) a = (f x a.0, All-map f xs a.1)

  pub All-both {κ μ} :
      (P : A → Type κ) (Q : A → Type μ) (xs : List A)
      → All P xs
      → All Q xs
      → All (λ x. P x × Q x) xs
  All-both P Q [] a b = tt
  All-both P Q (x ∷ xs) a b = ((a.0, b.0), All-both P Q xs a.1 b.1)

  -- a bound that may depend on the element
  pub All-at {κ μ} :
      {K : Type κ} (P : K → A → Type μ) (f : A → K) (xs : List A)
      → ((k : K) → All (P k) xs)
      → All (λ x. P (f x) x) xs
  All-at P f [] a = tt
  All-at P f (x ∷ xs) a = ((a (f x)).0, All-at P f xs (λ k. (a k).1))

  -- nothing passes the filter
  pub filter-eq-nil : (p : A → Bool) (xs : List A) → filter p xs ≡ [] → All (λ x. p x ≡ false) xs
  filter-eq-nil p [] h = tt
  filter-eq-nil p (x ∷ xs) h = elim (Bool-cases (p x)) [
    | inl e ↦ cc (h, e)
    | inr e ↦ (e, filter-eq-nil p xs (cc (h, e)))
  ]

module _ {A : Type 0} ⦃e : Eq A⦄ where
  -- `x in xs`
  abbrev pub mem : A → List A → Bool
  mem x xs = any (λ y. x == y) xs

  abbrev pub IsUnique : List A → Type 0
  IsUnique [] = Unit
  IsUnique (x ∷ xs) = (mem x xs ≡ false) × IsUnique xs

  module _ {B : Type 0} (key : B → A) where
    pub mem-filter :
        (p : B → Bool) (x : A) (xs : List B)
        → mem x (map key (filter p xs)) ≡ true
        → mem x (map key xs) ≡ true
    mem-filter p x [] h = h
    mem-filter p x (y ∷ ys) h = ground (arith, mem-filter p x ys)

    -- the keys of the list itself
    pub All-mem : (xs : List B) → All (λ x. mem (key x) (map key xs) ≡ true) xs
    All-mem [] = tt
    All-mem (y ∷ ys) =
        (ground (arith, eq_refl (key y)), All-map (λ x h. ground (arith, h)) ys (All-mem ys))

    -- what holds of each element's key holds of each key
    pub All-key {κ} :
        (Q : A → Type κ) (xs : List B) (x : A)
        → All (λ y. Q (key y)) xs
        → mem x (map key xs) ≡ true
        → Q x
    All-key Q [] x a h = cc
    All-key Q (y ∷ ys) x a h = elim (Bool-cases (x == key y)) [
      | inl same ↦ subst Q (sym (eq_of_beq x (key y) same)) a.0
      | inr other ↦ All-key Q ys x a.1 (ground (arith, h, other))
    ]

    pub All-filter_kept :
        (p : B → Bool) (xs : List B)
        → All (λ x. p x ≡ true → mem (key x) (map key (filter p xs)) ≡ true) xs
    All-filter_kept p [] = tt
    All-filter_kept p (y ∷ ys) = (
      (λ h. ground (arith, eq_refl (key y), h)),
      All-map (λ x h k. ground (arith, h k)) ys (All-filter_kept p ys),
    )

    -- With distinct keys, the keys that a filter leaves are those of the elements that it takes.
    pub All-mem-filter :
        (p : B → Bool) (xs : List B)
        → IsUnique (map key xs)
        → All (λ x. mem (key x) (map key (filter p xs)) ≡ true → p x ≡ true) xs
    All-mem-filter p [] u = tt
    All-mem-filter p (y ∷ ys) u = (
      (λ h. ground (arith, h, u.0, mem-filter p (key y) ys)),
      All-map
          (λ x h k. elim (Bool-cases (key x == key y)) [
            | inl same ↦ cc (h.0, u.0, eq_of_beq (key x) (key y) same)
            | inr other ↦ h.1 (ground (arith, k, other))
          ])
          ys (All-both _ _ ys (All-mem ys) (All-mem-filter p ys u.1)),
    )

  pub mem-append : (x : A) (xs ys : List A) → mem x (xs ++ ys) ≡ (mem x xs || mem x ys)
  mem-append x xs ys = any-append (λ y. x == y) xs ys

  abbrev without : A → List A → List A
  without x xs = filter (λ y. not (x == y)) xs

  -- `dict.fromkeys(xs)`: each key once, where it stands first. Its length is that of `set(xs)`.
  abbrev pub from_keys : List A → List A
  from_keys [] = []
  from_keys (x ∷ xs) = x ∷ without x (from_keys xs)

  without-absent : (x : A) (xs : List A) → mem x xs ≡ false → without x xs ≡ xs
  without-absent x [] h = refl
  without-absent x (y ∷ ys) h = elim (Bool-cases (x == y)) [
    | inl e ↦ cc (h, e)
    | inr e ↦ rw e (ap (λ zs. y ∷ zs) (without-absent x ys (ground (arith, h, e))))
  ]

  mem-without : (x y : A) (xs : List A) → mem y (without x xs) ≡ true → mem y xs ≡ true
  mem-without x y [] h = h
  mem-without x y (z ∷ zs) h = ground (arith, mem-without x y zs)

  without-removes : (x : A) (xs : List A) → mem x (without x xs) ≡ false
  without-removes x [] = refl
  without-removes x (y ∷ ys) = ground (arith, without-removes x ys)

  IsUnique-without : (x : A) (xs : List A) → IsUnique xs → IsUnique (without x xs)
  IsUnique-without x [] u = tt
  IsUnique-without x (y ∷ ys) u = elim (Bool-cases (x == y)) [
    | inl e ↦ rw e (IsUnique-without x ys u.1)
    | inr e ↦ rw e (ground (arith, u.0, mem-without x y ys), IsUnique-without x ys u.1)
  ]

  pub IsUnique-from_keys : (xs : List A) → IsUnique (from_keys xs)
  IsUnique-from_keys [] = tt
  IsUnique-from_keys (x ∷ xs) =
      (without-removes x (from_keys xs), IsUnique-without x (from_keys xs) (IsUnique-from_keys xs))

  -- Distinct keys stay as they are.
  pub from_keys_of_IsUnique : (xs : List A) → IsUnique xs → from_keys xs ≡ xs
  from_keys_of_IsUnique [] u = refl
  from_keys_of_IsUnique (x ∷ xs) u =
      let rest = from_keys_of_IsUnique xs u.1 in
      ap (λ ys. x ∷ ys) (ap (without x) rest ∙ without-absent x xs u.0)

  length-from_keys-le : (xs : List A) → length (from_keys xs) ≤ length xs
  length-from_keys-le [] = omega arith
  length-from_keys-le (x ∷ xs) =
      omega (arith, length-filter-le (λ y. not (x == y)) (from_keys xs), length-from_keys-le xs)

  filter-full : (p : A → Bool) (xs : List A) → length (filter p xs) ≡ length xs → filter p xs ≡ xs
  filter-full p [] h = refl
  filter-full p (x ∷ xs) h = elim (Bool-cases (p x)) [
    | inl e ↦ rw e (ap (λ ys. x ∷ ys) (filter-full p xs (ground (arith, h, e))))
    | inr e ↦ ground (arith, h, e, length-filter-le p xs)
  ]

  from_keys_of_length : (xs : List A) → length (from_keys xs) ≡ length xs → from_keys xs ≡ xs
  from_keys_of_length [] h = refl
  from_keys_of_length (x ∷ xs) h =
      let kept = length-filter-le (λ y. not (x == y)) (from_keys xs) in
      let rest = from_keys_of_length xs (omega (arith, h, kept, length-from_keys-le xs)) in
      ap (λ ys. x ∷ ys)
        (filter-full (λ y. not (x == y)) (from_keys xs)
            (omega (arith, h, kept, length-from_keys-le xs))
          ∙ rest)

  -- `len(xs) == len(set(xs))` says that no key stands twice.
  pub IsUnique-length : (xs : List A) → length xs ≡ length (from_keys xs) → IsUnique xs
  IsUnique-length xs h = subst IsUnique (from_keys_of_length xs (sym h)) (IsUnique-from_keys xs)

  pub All-at_mem {κ} : (Q : A → Type κ) (xs : List A) (x : A) → All Q xs → mem x xs ≡ true → Q x
  All-at_mem Q [] x a h = cc
  All-at_mem Q (y ∷ ys) x a h = elim (Bool-cases (x == y)) [
    | inl same ↦ subst Q (sym (eq_of_beq x y same)) a.0
    | inr other ↦ All-at_mem Q ys x a.1 (ground (arith, h, other))
  ]

  All-without {κ} : (P : A → Type κ) (x : A) (xs : List A) → All P xs → All P (without x xs)
  All-without P x [] a = tt
  All-without P x (y ∷ ys) a = elim (Bool-cases (x == y)) [
    | inl e ↦ rw e (All-without P x ys a.1)
    | inr e ↦ rw e (a.0, All-without P x ys a.1)
  ]

  pub All-from_keys {κ} : (P : A → Type κ) (xs : List A) → All P xs → All P (from_keys xs)
  All-from_keys P [] a = tt
  All-from_keys P (x ∷ xs) a = (a.0, All-without P x (from_keys xs) (All-from_keys P xs a.1))
