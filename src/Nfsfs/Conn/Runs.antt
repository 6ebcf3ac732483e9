-- ===== src/Nfsfs/Conn/Runs.antt =====
-- internal/nfsfs/conn.go: `do`, by what its function keeps.
use goafp.Base.{ℕ, ◌≡◌, refl, ap, ◌∙◌, inl, inr, true, Option, none, some, ◌==◌, Bool-cases}
use goafp.Base.Outcome.{Outcome, ok, err, panic}
use goafp.Afp.Link.{M, step}
use goafp.Nfsfs.Conn.{
  Live, ConnManager, Network, State, close_live, redialled, reconnect, vol_of, run_on, retry,
  unless_dead, first_run, do_op,
}

-- The world is as `I` says, and a result is as `Q` says.
abbrev pub Ends : {W A : Type 0} → (W → Type 0) → (A → W → Type 0) → Outcome A × W → Type 0
Ends I Q (ok a, w) = I w × Q a w
Ends I Q (err e, w) = I w
Ends I Q (panic, w) = I w

module _ {W C V : Type 0} (net : Network W C V) {A : Type 0} (fn : Option V → M W A)
    (others : ℕ → State net → State net) (I : W → Type 0) (Q : A → W → Type 0)
    (keeps : (v : Option V) (w : W) → I w → Ends I Q (fn v w))
    (dials : (w : W) → I w → I (net.dial w).1) (closes : (c : C) (w : W) → I w → I (net.close c w))
    (spare : (k : ℕ) (s : State net) → I s.1 → I (others k s).1) where
  abbrev EndsAll : Outcome A × State net → Type 0
  EndsAll (o, (m, w)) = Ends I Q (o, w)

  run_on-Ends : (v : Option V) (s : State net) → I s.1 → EndsAll (run_on net fn v s)
  run_on-Ends v (m, w) h = keeps v w h

  close_live-keeps : (l : Option (Live C V)) (w : W) → I w → I (close_live net l w)
  close_live-keeps none w h = h
  close_live-keeps (some l) w h = closes l.conn w h

  redialled-keeps :
      (m : ConnManager C V) (r : Outcome (Live C V) × W) → I r.1 → I (redialled net m r).1.1
  redialled-keeps m (ok l, w) h = h
  redialled-keeps m (err e, w) h = h
  redialled-keeps m (panic, w) h = h

  reconnect-keeps : (g : ℕ) (s : State net) → I s.1 → I (reconnect net g s).1.1
  unfolding reconnect
  reconnect-keeps g (m, w) h = elim (Bool-cases (m.gen == g)) [
    | inl same ↦ rw same (
        redialled-keeps m (net.dial (close_live net m.live w))
          (dials (close_live net m.live w) (close_live-keeps m.live w h)))
    | inr other ↦ rw other h
  ]

  after_reconnect-Ends :
      (o : Outcome (Unit {0})) (s t : State net)
      → I s.1
      → I t.1
      → EndsAll (step o s (λ _ _. run_on net fn (vol_of net t.0.live) t))
  after_reconnect-Ends (ok u) s t h k = run_on-Ends (vol_of net t.0.live) t k
  after_reconnect-Ends (err e) s t h k = h
  after_reconnect-Ends panic s t h k = h

  retry-Ends : (g : ℕ) (s : State net) → I s.1 → EndsAll (retry net fn others g s)
  unfolding retry
  retry-Ends g s h =
      let k = reconnect-keeps g (others 1 s) (spare 1 s h) in
      let r = reconnect net g (others 1 s) in
      after_reconnect-Ends r.0 r.1 (others 2 r.1) k (spare 2 r.1 k)

  unless_dead-Ends :
      (g : ℕ) (l : Live C V) (r : Outcome A × State net)
      → EndsAll r
      → EndsAll (unless_dead net fn others g l r)
  unless_dead-Ends g l (ok a, s) h = h
  unless_dead-Ends g l (err e, s) h = elim (Bool-cases (net.is_alive l.conn s.1)) [
    | inl up ↦ rw up h
    | inr dead ↦ rw dead (retry-Ends g s h)
  ]
  unless_dead-Ends g l (panic, s) h = h

  first_run-Ends :
      (g : ℕ) (l : Option (Live C V)) (s : State net)
      → I s.1
      → EndsAll (first_run net fn others g l s)
  first_run-Ends g none s h = retry-Ends g s h
  first_run-Ends g (some l) s h =
      unless_dead-Ends g l (run_on net fn (some l.vol) (others 0 s))
        (run_on-Ends (some l.vol) (others 0 s) (spare 0 s h))

  pub do_op-Ends :
      (s : State net) → I s.1 → Ends I Q ((do_op net fn others s).0, (do_op net fn others s).1.1)
  unfolding do_op
  do_op-Ends s h = first_run-Ends s.0.gen s.0.live s h

-- On a link that is alive afterwards, with nobody else at work, `do` is one run of its function.
pub do_op-steady :
    {W C V : Type 0} (net : Network W C V) {A : Type 0} (fn : Option V → M W A)
    (m : ConnManager C V) (l : Live C V) (w w' : W) (o : Outcome A)
    → m.live ≡ some l
    → fn (some l.vol) w ≡ (o, w')
    → net.is_alive l.conn w' ≡ true
    → do_op net fn (λ _ s. s) (m, w) ≡ (o, (m, w'))
unfolding do_op
do_op-steady net {A} fn m l w w' o live run up =
    ap (λ x. first_run net fn (λ _ s. s) m.gen x (m, w)) live
    ∙ ap (λ x. unless_dead net fn (λ _ s. s) m.gen l (x.0, (m, x.1))) run
    ∙ one_run o
  where
    one_run : (o : Outcome A) → unless_dead net fn (λ _ s. s) m.gen l (o, (m, w')) ≡ (o, (m, w'))
    one_run (ok a) = refl
    one_run (err e) = rw up
    one_run panic = refl
