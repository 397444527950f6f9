-- ===== src/Prelude/Outcomes.antt =====
-- What a Go call can come to: a value, an error value, a run-time panic.
-- `stuck` is no Go outcome: a loop modelled on fuel ran out of it.
use mathlib.Core.Option.{Option, none, some}
use mathlib.Core.Bool.{Bool, true, false}
use mathlib.Core.Path.{◌≡◌, refl}
use native.Mathlib.Omega.{arith}

pub data Result {ℓ} (E : Type 0) (A : Type ℓ) : Type ℓ where
  ok : A → Result E A
  err : E → Result E A
  panic : Result E A
  stuck : Result E A

infixl 5 ◌>>=◌ ◌>>◌
abbrev pub ◌>>=◌ {ℓ κ} :
    {E : Type 0} {A : Type ℓ} {B : Type κ} → Result E A → (A → Result E B) → Result E B
ok a >>= f = f a
err e >>= f = err e
panic >>= f = panic
stuck >>= f = stuck

abbrev pub ◌>>◌ {ℓ} : {E : Type 0} {B : Type ℓ} → Result E (Unit {0}) → Result E B → Result E B
m >> k = m >>= λ _. k

-- `if !test { return err }`
abbrev pub guard : {E : Type 0} → Bool → E → Result E (Unit {0})
guard true e = ok tt
guard false e = err e

-- The (value, bool) or nil-able answer of a call, as a value or an error.
abbrev pub or_err {ℓ} : {E : Type 0} {A : Type ℓ} → Option A → E → Result E A
or_err none e = err e
or_err (some a) e = ok a

-- A pointer that is used without a test
abbrev pub or_panic {ℓ} : {E : Type 0} {A : Type ℓ} → Option A → Result E A
or_panic none = panic
or_panic (some a) = ok a

-- A chain that comes to a value has a value at each link.
pub ok_of_bind {ℓ κ} :
    {E : Type 0} {A : Type ℓ} {B : Type κ} (m : Result E A) (f : A → Result E B) (b : B)
    → (m >>= f) ≡ ok b
    → (a : A) × (m ≡ ok a) × (f a ≡ ok b)
ok_of_bind (ok a) f b h = (a, refl, h)
ok_of_bind (err e) f b h = absurd (ground arith)
ok_of_bind panic f b h = absurd (ground arith)
ok_of_bind stuck f b h = absurd (ground arith)

-- An error of one kind passed on as one of another, as fmt.Errorf with %w does.
abbrev pub lift_err {ℓ} : {E F : Type 0} {A : Type ℓ} → (E → F) → Result E A → Result F A
lift_err f (ok a) = ok a
lift_err f (err e) = err (f e)
lift_err f panic = panic
lift_err f stuck = stuck

pub ok_of_lift_err {ℓ} :
    {E F : Type 0} {A : Type ℓ} (f : E → F) (m : Result E A) (a : A)
    → lift_err f m ≡ ok a
    → m ≡ ok a
ok_of_lift_err f (ok b) a h = ground arith
ok_of_lift_err f (err e) a h = absurd (ground arith)
ok_of_lift_err f panic a h = absurd (ground arith)
ok_of_lift_err f stuck a h = absurd (ground arith)

pub ok_of_guard : {E : Type 0} (b : Bool) (e : E) (t : Unit {0}) → guard b e ≡ ok t → b ≡ true
ok_of_guard true e t h = refl
ok_of_guard false e t h = absurd (ground arith)

pub some_of_or_err {ℓ} :
    {E : Type 0} {A : Type ℓ} (o : Option A) (e : E) (a : A) → or_err o e ≡ ok a → o ≡ some a
some_of_or_err none e a h = absurd (ground arith)
some_of_or_err (some b) e a h = ground arith
