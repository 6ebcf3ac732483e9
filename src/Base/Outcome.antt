-- ===== src/Base/Outcome.antt =====
-- The outcomes of a Go call: a value, an error value, or a run-time panic. The texts of errors
-- are not modelled; what the program tells apart is.
use Prim.Native.Nat.{ℕ}
use mathlib.Core.Path.{◌≡◌, refl}
use mathlib.Core.Logic.{◌⊎◌, inl, inr}

-- `server code` is an `*afp.Error`; `eof` is io.EOF; `not_exist`, `permission` and `exist` are the
-- os sentinels; `transport` is any error of a connection or a context, told apart by a number.
pub data Error : Type 0 where
  server : ℕ → Error
  truncated malformed unsupported auth_failed : Error
  eof not_exist permission exist closed : Error
  transport : ℕ → Error

pub data Outcome {ℓ} (A : Type ℓ) : Type ℓ where
  ok : A → Outcome A
  err : Error → Outcome A
  panic : Outcome A

infixl 5 ◌>>=◌
abbrev pub ◌>>=◌ {ℓ κ} : {A : Type ℓ} {B : Type κ} → Outcome A → (A → Outcome B) → Outcome B
ok a >>= f = f a
err e >>= f = err e
panic >>= f = panic

-- The call does not end in a run-time panic.
abbrev pub NoPanic {ℓ} : {A : Type ℓ} → Outcome A → Type 0
NoPanic (ok a) = Unit
NoPanic (err e) = Unit
NoPanic panic = ⊥

pub Outcome-cases :
    {A : Type 0} (o : Outcome A)
    → ((a : A) × (o ≡ ok a)) ⊎ (((e : Error) × (o ≡ err e)) ⊎ (o ≡ panic))
Outcome-cases (ok a) = inl (a, refl)
Outcome-cases (err e) = inr (inl (e, refl))
Outcome-cases panic = inr (inr refl)

pub NoPanic->>= {ℓ κ} :
    {A : Type ℓ} {B : Type κ} (m : Outcome A) (f : A → Outcome B)
    → NoPanic m
    → ((a : A) → NoPanic (f a))
    → NoPanic (m >>= f)
NoPanic->>= (ok a) f h k = k a
NoPanic->>= (err e) f h k = tt
NoPanic->>= panic f h k = h
