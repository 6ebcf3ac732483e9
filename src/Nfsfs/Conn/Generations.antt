-- ===== src/Nfsfs/Conn/Generations.antt =====
-- internal/nfsfs/conn.go: generations, and which volume an operation is run on.
use goafp.Base.{
  ℕ, zero, suc, ◌+◌, ◌%◌, ◌^◌, ◌≤◌, ◌<◌, ◌≡◌, refl, sym, ap, ◌∙◌, ◌≢◌, ◌⊎◌, inl, inr, true, false,
  Option, none, some, List, [], ◌∷◌, arith, ◌==◌, if◌then◌else◌, Bool-cases, length, replicate,
}
use goafp.Base.Outcome.{Outcome, ok, err, panic}
use goafp.Afp.Link.{M, step}
use goafp.Nfsfs.Conn.{
  Live, ConnManager, Network, State, close_live, redialled, reconnect, vol_of, run_on, retry,
  unless_dead, first_run, do_op,
}

module _ {W C V : Type 0} (net : Network W C V) where
  -- One caller after the other, each with the generation that it saw fail.
  unfoldable pub callers : List ℕ → State net → State net
  callers [] s = s
  callers (g ∷ gs) s = callers gs (reconnect net g s).1

  -- A generation has one live link: what a handle has opened in it is there or is gone.
  pub record Later (s t : State net) (n : ℕ) : Type 0 where
    pub after : s.0.gen ≤ t.0.gen
    pub within : t.0.gen ≤ s.0.gen + n
    pub same : t.0.gen ≡ s.0.gen → (t.0.live ≡ s.0.live) ⊎ (t.0.live ≡ none)

  redialled-Later :
      (m : ConnManager C V) (w : W) (o : Outcome (Live C V) × W)
      → m.gen + 1 < 2 ^ 64
      → Later (m, w) (redialled net m o).1 1
  redialled-Later m w (ok l, w') h = record {
    after = omega arith;
    within = omega arith;
    same = λ e. absurd (omega (arith, e));
  }
  redialled-Later m w (err e, w') h = record {
    after = omega arith;
    within = omega arith;
    same = λ e. inr refl;
  }
  redialled-Later m w (panic, w') h = record {
    after = omega arith;
    within = omega arith;
    same = λ e. inl refl;
  }

  reconnect-Later : (g : ℕ) (s : State net) → s.0.gen + 1 < 2 ^ 64 → Later s (reconnect net g s).1 1
  unfolding reconnect
  reconnect-Later g (m, w) h = elim (Bool-cases (m.gen == g)) [
    | inl same ↦ rw same (redialled-Later m w (net.dial (close_live net m.live w)) h)
    | inr differ ↦
        rw differ (record { after = omega arith; within = omega arith; same = λ e. inl refl })
  ]

  Later-trans : (s t u : State net) (n : ℕ) → Later s t 1 → Later t u n → Later s u (suc n)
  Later-trans s t u n h k = record {
    after = omega (arith, h.after, k.after);
    within = omega (arith, h.within, k.within);
    same = λ e.
        let et : t.0.gen ≡ s.0.gen = omega (arith, e, h.after, k.after) in
        let eu : u.0.gen ≡ t.0.gen = omega (arith, e, h.after, k.after) in
        elim (k.same eu) [
          | inr gone ↦ inr gone
          | inl kept ↦ elim (h.same et) [
            | inl kept' ↦ inl (kept ∙ kept')
            | inr gone' ↦ inr (kept ∙ gone')
          ]
        ];
  }

  -- While the generation counter does not wrap, any sequence of reconnects, each for whatever
  -- generation its caller saw fail, only raises the generation, by one per reconnect at most; and
  -- where the generation is the same afterwards, the live link is the same too or there is none.
  pub callers-Later :
      (gs : List ℕ) (s : State net)
      → s.0.gen + length gs < 2 ^ 64
      → Later s (callers gs s) (length gs)
  unfolding callers
  callers-Later [] s h = record { after = omega arith; within = omega arith; same = λ e. inl refl }
  callers-Later (g ∷ gs) s h =
      let first = reconnect-Later g s (omega arith) in
      Later-trans s (reconnect net g s).1 (callers gs (reconnect net g s).1) (length gs) first
        (callers-Later gs (reconnect net g s).1 (omega (arith, first.within)))

  redialled_gen :
      (m : ConnManager C V) (o : Outcome (Live C V) × W) (t : State net)
      → redialled net m o ≡ (ok tt, t)
      → t.0.gen ≡ (m.gen + 1) % 2 ^ 64
  redialled_gen m (ok l, w) t e = ap (λ x. x.1.0.gen) (sym e)
  redialled_gen m (err x, w) t e = absurd cc
  redialled_gen m (panic, w) t e = absurd cc

  reconnect_gen :
      (m : ConnManager C V) (w : W) (t : State net)
      → reconnect net m.gen (m, w) ≡ (ok tt, t)
      → t.0.gen ≡ (m.gen + 1) % 2 ^ 64
  unfolding reconnect
  reconnect_gen m w t e =
      let own : (m.gen == m.gen) ≡ true = ground arith in
      redialled_gen m (net.dial (close_live net m.live w)) t (rw own at e)

  reconnect_idle : (g : ℕ) (t : State net) → t.0.gen ≢ g → reconnect net g t ≡ (ok tt, t)
  unfolding reconnect
  reconnect_idle g t ne = let other : (t.0.gen == g) ≡ false = ground arith in rw other

  callers_idle : (n g : ℕ) (t : State net) → t.0.gen ≢ g → callers (replicate n g) t ≡ t
  unfolding callers
  callers_idle zero g t ne = refl
  callers_idle (suc n) g t ne =
      ap (λ s. callers (replicate n g) s.1) (reconnect_idle g t ne) ∙ callers_idle n g t ne

  -- Below the counter's wrap, once a reconnect for the present generation has succeeded, any
  -- number of further reconnects for that generation leaves the manager and the world as they are:
  -- nothing is dialled again.
  pub reconnect-once :
      (n : ℕ) (m : ConnManager C V) (w : W) (t : State net)
      → m.gen + 1 < 2 ^ 64
      → reconnect net m.gen (m, w) ≡ (ok tt, t)
      → callers (replicate n m.gen) t ≡ t
  reconnect-once n m w t h e =
      callers_idle n m.gen t λ same. omega (arith, same, reconnect_gen m w t e)

  module _ {A : Type 0} (fn fn' : Option V → M W A)
      (same : (v : V) (w : W) → fn (some v) w ≡ fn' (some v) w) where
    then_run-volume :
        (m : ConnManager C V) (o : Outcome (Live C V) × W)
        → step
            (redialled net m o).0
            (redialled net m o).1
            (λ _ _. run_on net fn (vol_of net (redialled net m o).1.0.live) (redialled net m o).1)
          ≡ step (redialled net m o).0 (redialled net m o).1 (λ _ _.
            run_on net fn' (vol_of net (redialled net m o).1.0.live) (redialled net m o).1)
    then_run-volume m (ok l, w) = rw (same l.vol w)
    then_run-volume m (err e, w) = refl
    then_run-volume m (panic, w) = refl

    retry-volume :
        (m : ConnManager C V) (w : W)
        → retry net fn (λ _ s. s) m.gen (m, w) ≡ retry net fn' (λ _ s. s) m.gen (m, w)
    unfolding retry reconnect
    retry-volume m w =
        let own : (m.gen == m.gen) ≡ true = ground arith in
        rw own (then_run-volume m (net.dial (close_live net m.live w)))

    unless_dead-volume :
        (m : ConnManager C V) (l : Live C V) (o : Outcome A) (w : W)
        → unless_dead net fn (λ _ s. s) m.gen l (o, (m, w))
          ≡ unless_dead net fn' (λ _ s. s) m.gen l (o, (m, w))
    unless_dead-volume m l (ok a) w = refl
    unless_dead-volume m l (err e) w =
        ap (λ x. if net.is_alive l.conn w then (err e, (m, w)) else x) (retry-volume m w)
    unless_dead-volume m l panic w = refl

    first_run-volume :
        (m : ConnManager C V) (live : Option (Live C V)) (w : W)
        → first_run net fn (λ _ s. s) m.gen live (m, w)
          ≡ first_run net fn' (λ _ s. s) m.gen live (m, w)
    first_run-volume m none w = retry-volume m w
    first_run-volume m (some l) w =
        rw (same l.vol w) (unless_dead-volume m l (fn' (some l.vol) w).0 (fn' (some l.vol) w).1)

  -- As long as nobody else changes the manager meanwhile, what `do` does depends on its function
  -- at volumes only, and not on what the function does with nil.
  pub do_op-volume :
      {A : Type 0} (fn fn' : Option V → M W A) (s : State net)
      → ((v : V) (w : W) → fn (some v) w ≡ fn' (some v) w)
      → do_op net fn (λ _ s. s) s ≡ do_op net fn' (λ _ s. s) s
  unfolding do_op
  do_op-volume fn fn' (m, w) same = first_run-volume fn fn' same m m.live w
