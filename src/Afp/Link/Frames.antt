-- ===== src/Afp/Link/Frames.antt =====
-- internal/afp/session.go: what requests keep, and the calls made of them.
use goafp.Base.{ℕ, Bool, if◌then◌else◌, Option, none, some, if_lem}
use goafp.Base.Bytes.{Bytes}
use goafp.Base.Outcome.{Error, Outcome, ok, err, panic}
use goafp.Afp.Codes.{result_err}
use goafp.Afp.Link.{M, ◌>>=◌, step, check, Link, command, run, ask}

module _ {W : Type 0} (I : W → Type 0) where
  abbrev pub Keeps : {A : Type 0} → M W A → Type 0
  Keeps m = (w : W) → I w → I (m w).1

  abbrev pub KeepsLink : Link W → Type 0
  KeepsLink link = (cmd offset : ℕ) (payload : Bytes) → Keeps (link.request cmd offset payload)

  step-Keeps :
      {A B : Type 0} (o : Outcome A) (w : W) (f : A → M W B)
      → I w
      → ((a : A) → Keeps (f a))
      → I (step o w f).1
  step-Keeps (ok a) w f h keeps = keeps a w h
  step-Keeps (err e) w f h keeps = h
  step-Keeps panic w f h keeps = h

  pub bind-Keeps :
      {A B : Type 0} (m : M W A) (f : A → M W B)
      → Keeps m
      → ((a : A) → Keeps (f a))
      → Keeps (m >>= f)
  bind-Keeps m f keeps keeps' w h = step-Keeps (m w).0 (m w).1 f (keeps w h) keeps'

  pub check-Keeps : (e : Option Error) → Keeps (check {W = W} e)
  check-Keeps none w h = h
  check-Keeps (some e) w h = h

  pub if-Keeps :
      {A : Type 0} (b : Bool) (m m' : M W A) → Keeps m → Keeps m' → Keeps (if b then m else m')
  if-Keeps b m m' keeps keeps' = if_lem Keeps b m m' (λ _. keeps) (λ _. keeps')

  module _ (link : Link W) (keeps : KeepsLink link) where
    pub command-Keeps : (payload : Bytes) → Keeps (command link payload)
    unfolding command
    command-Keeps payload = bind-Keeps (link.request _ _ payload) _ (keeps _ _ payload) λ r w h. h

    pub run-Keeps : (payload : Bytes) → Keeps (run link payload)
    unfolding run
    run-Keeps payload =
        bind-Keeps (command link payload) _ (command-Keeps payload)
          λ (p, code). check-Keeps (result_err code)

    pub ask-Keeps : (payload : Bytes) → Keeps (ask link payload)
    unfolding ask
    ask-Keeps payload = bind-Keeps (command link payload) _ (command-Keeps payload) λ (reply, code).
        bind-Keeps (check (result_err code)) _ (check-Keeps (result_err code)) λ u w h. h
