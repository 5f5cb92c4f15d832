-- ===== src/Prelude/Results.antt =====
-- Exceptions as values. Control-store errors keep the class of the Python exception.
use mathlib.Core.Path.{◌≡◌, refl}
use mathlib.Core.Bool.{Bool, true, false}
use mathlib.Core.List.{List, [], ◌∷◌}
use mathlib.Core.Option.{Option, none, some}

-- store/sqlite.py's exception classes, the built-in ones that the code raises, and those that
-- `sqlite3` raises. `store_error` is a plain `StoreError`; its reason stands for the message.
pub data Reason : Type 0 where
  not_initialized requires_postgres not_active identity_mismatch pending_action : Reason

pub data Error : Type 0 where
  store_error : Reason → Error
  run_not_found conversation_not_found attempt_not_found : Error
  plan_not_found required_action_not_found : Error
  revision_conflict idempotency_conflict lease_lost : Error
  value_error integrity_error operational_error : Error

pub data Result {ℓ} (E A : Type ℓ) : Type ℓ where
  ok : A → Result E A
  err : E → Result E A

infixl 5 ◌>>=◌ ◌>>◌
abbrev pub ◌>>=◌ {ℓ} : {E A B : Type ℓ} → Result E A → (A → Result E B) → Result E B
err raised >>= next = err raised
ok value >>= next = next value

abbrev pub ◌>>◌ {ℓ} : {E B : Type ℓ} → Result E (Unit {ℓ}) → Result E B → Result E B
first >> next = first >>= λ _. next

-- `if bad: raise e`
abbrev pub raise_if {ℓ} : {E : Type ℓ} → Bool → E → Result E (Unit {ℓ})
raise_if true e = err e
raise_if false e = ok tt

-- tests made one after another, up to the first that raises
abbrev pub in_order {ℓ} : {E : Type ℓ} → List (Result E (Unit {ℓ})) → Result E (Unit {ℓ})
in_order [] = ok tt
in_order (ok _ ∷ rest) = in_order rest
in_order (err e ∷ rest) = err e

abbrev pub or_raise {ℓ} : {E A : Type ℓ} → Option A → E → Result E A
or_raise none e = err e
or_raise (some a) e = ok a

pub ok_eq {ℓ} : {E A : Type ℓ} (a b : A) → (let x : Result E A = ok a in x) ≡ ok b → a ≡ b
ok_eq a b h = cc

-- what a block that returns says of its first action
pub returned_then {ℓ} :
    {E B : Type ℓ} (first : Result E (Unit {ℓ})) (rest : Result E B) {b : B}
    → (first >> rest) ≡ ok b
    → (first ≡ ok tt) × (rest ≡ ok b)
returned_then (err e) rest h = cc
returned_then (ok _) rest h = (refl, h)

pub returned_or {ℓ} :
    {E A B : Type ℓ} (found : Option A) (e : E) (rest : A → Result E B) {b : B}
    → (or_raise found e >>= rest) ≡ ok b
    → (a : A) × (found ≡ some a) × (rest a ≡ ok b)
returned_or none e rest h = cc
returned_or (some a) e rest h = (a, refl, h)

pub then_returns {ℓ} :
    {E B : Type ℓ} (first : Result E (Unit {ℓ})) (rest : Result E B) {b : B}
    → first ≡ ok tt
    → rest ≡ ok b
    → (first >> rest) ≡ ok b
then_returns (err e) rest h k = cc
then_returns (ok _) rest h k = k

pub or_returns {ℓ} :
    {E A B : Type ℓ} (found : Option A) (e : E) (rest : A → Result E B) {a : A} {b : B}
    → found ≡ some a
    → rest a ≡ ok b
    → (or_raise found e >>= rest) ≡ ok b
or_returns none e rest h k = cc
or_returns (some x) e rest h k = cc (h, k)
