-- ===== src/Common/Results.antt =====
-- Fallible results, and operations that change a state and may fail. What an operation changed
-- before it failed stays changed, so a failure carries the state too.
use mathlib.Core.Path.{◌≡◌, refl}
use mathlib.Core.Bool.{Bool, true, false}
use mathlib.Core.Option.{Option, none, some}

pub data Result {ℓ κ} (E : Type ℓ) (A : Type κ) : Type (ℓ ⊔ κ) where
  ok : A → Result E A
  err : E → Result E A

-- What an operation leaves behind: a value or an error, and the state after it.
pub data Outcome {ℓ κ μ} (E : Type ℓ) (S : Type κ) (A : Type μ) : Type (ℓ ⊔ κ ⊔ μ) where
  done : A → S → Outcome E S A
  fail : E → S → Outcome E S A

abbrev pub Op {ℓ κ μ} : Type ℓ → Type κ → Type μ → Type (ℓ ⊔ κ ⊔ μ)
Op E S A = S → Outcome E S A

module _ {ℓ κ μ} {E : Type ℓ} {S : Type κ} {A : Type μ} where
  abbrev pub state_of : Outcome E S A → S
  state_of (done a s) = s
  state_of (fail e s) = s

  abbrev pub result_of : Outcome E S A → Result E A
  result_of (done a s) = ok a
  result_of (fail e s) = err e

  abbrev pub return : A → Op E S A
  return a s = done a s

  abbrev pub throw : E → Op E S A
  throw e s = fail e s

  abbrev pub lift : Result E A → Op E S A
  lift (ok a) s = done a s
  lift (err e) s = fail e s

module _ {ℓ κ} {E : Type ℓ} {S : Type κ} where
  abbrev pub get : Op E S S
  get s = done s s

  abbrev pub put : S → Op E S (Unit {0})
  put s' s = done tt s'

module _ {ℓ κ μ} {E : Type ℓ} {S : Type κ} {A : Type μ} where
  abbrev pub continue {ν} : {B : Type ν} → Outcome E S A → (A → Op E S B) → Outcome E S B
  continue (done a s) f = f a s
  continue (fail e s) f = fail e s

  infixl 5 ◌>>=◌ ◌>>◌
  abbrev pub ◌>>=◌ {ν} : {B : Type ν} → Op E S A → (A → Op E S B) → Op E S B
  ◌>>=◌ m f s = continue (m s) f

  abbrev pub ◌>>◌ {ν} : {B : Type ν} → Op E S A → Op E S B → Op E S B
  m >> k = m >>= λ _. k

  -- `map_err` on the result of an operation.
  abbrev pub on_error {ν} : {F : Type ν} → (E → F) → Outcome E S A → Outcome F S A
  on_error g (done a s) = done a s
  on_error g (fail e s) = fail (g e) s

module _ {ℓ κ} {E : Type ℓ} {A : Type κ} where
  abbrev pub ok_or : Option A → E → Result E A
  ok_or (some a) e = ok a
  ok_or none e = err e

  abbrev pub map_err {μ} : {F : Type μ} → (E → F) → Result E A → Result F A
  map_err g (ok a) = ok a
  map_err g (err e) = err (g e)

  abbrev pub and_then {μ} : {B : Type μ} → Result E A → (A → Result E B) → Result E B
  and_then (ok a) f = f a
  and_then (err e) f = err e

-- An early return with an error when the test holds.
abbrev pub refuse_if {ℓ κ} : {E : Type ℓ} {S : Type κ} → Bool → E → Op E S (Unit {0})
refuse_if true e s = fail e s
refuse_if false e s = done tt s

module _ {ℓ κ} {E : Type ℓ} {A : Type κ} where
  abbrev pub is_ok : Result E A → Bool
  is_ok (ok a) = true
  is_ok (err e) = false

  -- Inversions.
  pub is_ok-value : (r : Result E A) → is_ok r ≡ true → (a : A) × (r ≡ ok a)
  is_ok-value (ok a) h = (a, refl)
  is_ok-value (err e) h = cc

  pub and_then-eq_ok {μ} :
      {B : Type μ} (r : Result E A) (f : A → Result E B) {b : B}
      → and_then r f ≡ ok b
      → (a : A) × (r ≡ ok a) × (f a ≡ ok b)
  and_then-eq_ok (ok a) f h = (a, refl, h)
  and_then-eq_ok (err e) f h = cc

-- Inversions of an operation that ends with a value.
module _ {ℓ κ μ ν} {E : Type ℓ} {S : Type κ} {A : Type μ} {B : Type ν} where
  pub continue-eq_done :
      (o : Outcome E S A) (f : A → Op E S B) {b : B} {s' : S}
      → continue o f ≡ done b s'
      → (a : A) × (s : S) × (o ≡ done a s) × (f a s ≡ done b s')
  continue-eq_done (done a s) f h = (a, s, refl, h)
  continue-eq_done (fail e s) f h = cc

module _ {ℓ κ μ} {E : Type ℓ} {S : Type κ} {A : Type μ} where
  pub lift-eq_done :
      (r : Result E A) {s s' : S} {a : A} → lift r s ≡ done a s' → (r ≡ ok a) × (s ≡ s')
  lift-eq_done (ok a) h = (cc, cc)
  lift-eq_done (err e) h = cc

  pub on_error-eq_done {ν} :
      {F : Type ν} (g : E → F) (o : Outcome E S A) {a : A} {s : S}
      → on_error g o ≡ done a s
      → o ≡ done a s
  on_error-eq_done g (done a s) h = cc
  on_error-eq_done g (fail e s) h = cc

pub refuse_if-eq_done {ℓ κ} :
    {E : Type ℓ} {S : Type κ} (test : Bool) (e : E) {s s' : S} {u : Unit {0}}
    → refuse_if test e s ≡ done u s'
    → (test ≡ false) × (s ≡ s')
refuse_if-eq_done true e h = cc
refuse_if-eq_done false e h = (refl, cc)
