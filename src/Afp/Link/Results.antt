-- ===== src/Afp/Link/Results.antt =====
-- internal/afp/session.go: the calls behind a call that has succeeded.
use goafp.Base.{◌≡◌, refl, ap, inl, inr, ◌==◌, ==_iff, Bool-cases}
use goafp.Base.Outcome.{server, Outcome, ok, err, panic}
use goafp.Afp.Codes.{ResultCode, result_err, res_no_err}
use goafp.Afp.Link.{M, ◌>>=◌, step, check}

-- A call that is followed by others and succeeds has succeeded.
step-ok :
    {A B W : Type 0} (o : Outcome A) (w : W) (f : A → M W B) (b : B) (w' : W)
    → step o w f ≡ (ok b, w')
    → (a : A) × (o ≡ ok a) × (f a w ≡ (ok b, w'))
step-ok (ok a) w f b w' h = (a, refl, h)
step-ok (err e) w f b w' h = absurd cc
step-ok panic w f b w' h = absurd cc

pub seq-ok :
    {A B W : Type 0} (m : M W A) (f : A → M W B) (w : W) (b : B) (w' : W)
    → (m >>= f) w ≡ (ok b, w')
    → (a : A) × (w1 : W) × (m w ≡ (ok a, w1)) × (f a w1 ≡ (ok b, w'))
seq-ok m f w b w' h =
    let (a, e, h1) = step-ok (m w).0 (m w).1 f b w' h in (a, (m w).1, ap (λ o. (o, (m w).1)) e, h1)

pub check-ok :
    {W : Type 0} (code : ResultCode) (w w' : W)
    → check (result_err code) w ≡ (ok tt, w')
    → (code ≡ res_no_err) × (w ≡ w')
unfolding result_err
check-ok {W = W} code w w' h = elim (Bool-cases (code == res_no_err)) [
  | inl fine ↦
      let done : ◌≡◌ {A = Outcome (Unit {0}) × W} (ok tt, w) (ok tt, w') = rw fine at h in
      ((==_iff code res_no_err).0 fine, ap (λ p. p.1) done)
  | inr bad ↦
      let refused : ◌≡◌ {A = Outcome (Unit {0}) × W} (err (server code), w) (ok tt, w') =
        rw bad at h in
      absurd cc
]
