-- ===== src/Common/Outcome.antt =====
-- What a call of C code comes to: a value, the end of the process by `exit`, or a step that C
-- leaves undefined (a read or write outside an object, an index with no element, the use of
-- memory that was never written). `timeout` means that the fuel of a loop ran out.
use mathlib.Core.Path.{◌≡◌, ap}
use mathlib.Core.Option.{Option, none, some}

pub data Result {ℓ} (A : Type ℓ) : Type ℓ where
  ok : A → Result A
  exited : Result A
  fault : Result A
  timeout : Result A

infixl 5 ◌>>=◌
abbrev pub ◌>>=◌ {ℓ ℓ'} : {A : Type ℓ} {B : Type ℓ'} → Result A → (A → Result B) → Result B
exited >>= k = exited
fault >>= k = fault
timeout >>= k = timeout
ok value >>= k = k value

-- An index that has no element is a fault.
abbrev pub must {ℓ} : {A : Type ℓ} → Option A → Result A
must none = fault
must (some a) = ok a

-- What holds of a value, if there is one.
abbrev pub Returns {ℓ} : {A : Type ℓ} → Result A → (A → Type 0) → Type 0
Returns (ok a) P = P a
Returns exited P = Unit
Returns fault P = Unit
Returns timeout P = Unit

pub Returns-bind {ℓ κ} :
    {A : Type ℓ} {B : Type κ} (P : B → Type 0) (f : A → Result B)
    → ((a : A) → Returns (f a) P)
    → (m : Result A) → Returns (m >>= f) P
Returns-bind P f h (ok a) = h a
Returns-bind P f h exited = tt
Returns-bind P f h fault = tt
Returns-bind P f h timeout = tt

pub Returns-imp {ℓ} :
    {A : Type ℓ} (P Q : A → Type 0)
    → ((a : A) → P a → Q a)
    → (m : Result A) → Returns m P
    → Returns m Q
Returns-imp P Q f (ok a) h = f a h
Returns-imp P Q f exited h = tt
Returns-imp P Q f fault h = tt
Returns-imp P Q f timeout h = tt

value_or {ℓ} : {A : Type ℓ} → A → Result A → A
value_or a (ok b) = b
value_or a exited = a
value_or a fault = a
value_or a timeout = a

pub ok_inj {ℓ} : {A : Type ℓ} {a b : A} → ok a ≡ ok b → a ≡ b
unfolding value_or
ok_inj {a} e = ap (value_or a) e

pub Returns-chain {ℓ κ} :
    {A : Type ℓ} {B : Type κ} (P : A → Type 0) (Q : B → Type 0) (f : A → Result B)
    → ((a : A) → P a → Returns (f a) Q)
    → (m : Result A) → Returns m P
    → Returns (m >>= f) Q
Returns-chain P Q f h (ok a) p = h a p
Returns-chain P Q f h exited p = tt
Returns-chain P Q f h fault p = tt
Returns-chain P Q f h timeout p = tt
