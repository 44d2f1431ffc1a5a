-- ===== src/Base/Checks.antt =====
-- Pure checks that may raise: `Result` in `do` blocks, for code that neither reads nor writes rows.
use mathlib.Core.Path.{◌≡◌, refl}
use mathlib.Core.Bool.{Bool, true, false}
use mathlib.Core.Option.{Option, none, some}
use native.Mathlib.Omega.{arith}
use backend_pluseops.Base.Results.{Error, Result, ok, err, Tx}

infixl 5 ◌>>=◌
abbrev pub ◌>>=◌ {ℓ κ} : {A : Type ℓ} {B : Type κ} → Result A → (A → Result B) → Result B
◌>>=◌ (ok value) next = next value
◌>>=◌ (err why) next = err why

abbrev pub require {ℓ} : {A : Type ℓ} → Option A → Error → Result A
require none e = err e
require (some a) e = ok a

abbrev pub fail_if : Bool → Error → Result (Unit {0})
fail_if true e = err e
fail_if false e = ok tt

infixl 5 ◌>>◌
abbrev pub ◌>>◌ {ℓ} : {B : Type ℓ} → Result (Unit {0}) → Result B → Result B
◌>>◌ check next = check >>= λ passed. next

-- A check in front of a transaction.
abbrev pub lift : {S A : Type 0} → Result A → Tx S A
lift (ok a) s = ok (a, s)
lift (err e) s = err e

pub >>=-eq-ok {ℓ κ} :
    {A : Type ℓ} {B : Type κ} (m : Result A) (f : A → Result B) (b : B)
    → (m >>= f) ≡ ok b
    → (a : A) × (m ≡ ok a) × (f a ≡ ok b)
>>=-eq-ok (ok a) f b h = (a, refl, h)
>>=-eq-ok (err e) f b h = cc

-- What holds of the value of a check that passes.
abbrev pub Holds {ℓ κ} : {A : Type ℓ} → (A → Type κ) → Result A → Type κ
Holds P (ok a) = P a
Holds P (err e) = Unit

module _ {ℓ κ μ} {A : Type ℓ} {B : Type κ} (P : B → Type μ) where
  pub Holds-bind :
      (m : Result A) (f : A → Result B) → ((a : A) → m ≡ ok a → Holds P (f a)) → Holds P (m >>= f)
  Holds-bind (ok a) f h = h a refl
  Holds-bind (err e) f h = tt

module _ {ℓ κ} {B : Type ℓ} (P : B → Type κ) where
  pub Holds-fail_if :
      (c : Bool) (e : Error) (m : Result B) → (c ≡ false → Holds P m) → Holds P (fail_if c e >> m)
  Holds-fail_if true e m h = tt
  Holds-fail_if false e m h = h refl

  pub Holds-require {μ} :
      {A : Type μ} (o : Option A) (e : Error) (f : A → Result B)
      → ((a : A) → o ≡ some a → Holds P (f a))
      → Holds P (require o e >>= f)
  Holds-require none e f h = tt
  Holds-require (some a) e f h = h a refl

pub Holds-ok {ℓ κ} :
    {A : Type ℓ} (P : A → Type κ) (m : Result A) (a : A) → Holds P m → m ≡ ok a → P a
Holds-ok P m a h e = rw e at h

pub Holds-check {κ} :
    (P : Unit {0} → Type κ) (c : Bool) (e : Error) → (c ≡ false → P tt) → Holds P (fail_if c e)
Holds-check P true e h = tt
Holds-check P false e h = h refl

pub Holds-map {ℓ κ μ} :
    {A : Type ℓ} (P : A → Type κ) (Q : A → Type μ) (m : Result A)
    → ((a : A) → P a → Q a)
    → Holds P m
    → Holds Q m
Holds-map P Q (ok a) f h = f a h
Holds-map P Q (err e) f h = tt

-- A check leaves the state alone.
pub lift-eq :
    {S A : Type 0} (m : Result A) (s : S) (a : A) (t : S)
    → lift m s ≡ ok (a, t)
    → (m ≡ ok a) × (t ≡ s)
lift-eq (ok b) s a t h = (ground arith, ground arith)
lift-eq (err e) s a t h = (ground arith, ground arith)
