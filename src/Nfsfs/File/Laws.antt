-- ===== src/Nfsfs/File/Laws.antt =====
-- internal/nfsfs/file.go: which fork an operation gets, and `Close` after a reconnect.
use goafp.Base.{
  ℕ, ◌≡◌, refl, ap, ◌∙◌, ◌≢◌, inl, inr, false, Option, none, some, List, arith, ◌==◌, ==_iff,
  Bool-cases,
}
use goafp.Base.Outcome.{Outcome, ok, err, panic}
use mathlib.Core.Path.{fun_ext}
use goafp.Afp.Text.{Norm}
use goafp.Afp.Link.{M, ◌>>◌, step, pure, Link}
use goafp.Afp.Fork.{Fork, Chunk}
use goafp.Nfsfs.Conn.{Live, ConnManager, Network, first_run, do_op}
use goafp.Nfsfs.File.{
  VolumeRef, Scope, set_fork, scoped, Around, fork_of, reopen, open_or, open_file, on_fork,
  with_fork, close_on, close_open, close_file,
}

-- What `File.open` leaves behind when it returns a fork.
abbrev Opened : {W : Type 0} → VolumeRef → Outcome Fork × Scope W → Type 0
Opened v (ok f, s) = s.file.fork ≡ some (f, v.ref)
Opened v (err e, s) = Unit
Opened v (panic, s) = Unit

module _ {W C : Type 0} (net : Network W C VolumeRef) (link : VolumeRef → Link W) (norm : Norm)
    (sched : ℕ → ℕ → List Chunk) where
  noted-Opened :
      (v : VolumeRef) (s : Scope W) (o : Outcome Fork) (w : W)
      → Opened v (step o (record s { world = w }) (λ f. set_fork f v.ref >> pure f))
  noted-Opened v s (ok f) w = refl
  noted-Opened v s (err e) w = tt
  noted-Opened v s panic w = tt

  reopen-Opened : (v : VolumeRef) (s : Scope W) → Opened v (reopen net link norm sched v s)
  reopen-Opened v s =
      let (o, w) = fork_of net link norm sched v s.file s.world in noted-Opened v s o w

  open_or-Opened :
      (v : VolumeRef) (o : Option (Fork × ℕ)) (s : Scope W)
      → s.file.fork ≡ o
      → Opened v (open_or net link norm sched v o s)
  open_or-Opened v none s e = reopen-Opened v s
  open_or-Opened v (some (f, ref)) s e = elim (Bool-cases (ref == v.ref)) [
    | inl own ↦
        let er : ref ≡ v.ref = (==_iff ref v.ref).0 own in rw own (e ∙ ap (λ r. some (f, r)) er)
    | inr stale ↦ rw stale (reopen-Opened v s)
  ]

  step-same :
      {A : Type 0} (v : VolumeRef) (r : Outcome Fork × Scope W) (fn fn' : Fork → M (Scope W) A)
      → ((f : Fork) (s : Scope W) → s.file.fork ≡ some (f, v.ref) → fn f s ≡ fn' f s)
      → Opened v r
      → step r.0 r.1 fn ≡ step r.0 r.1 fn'
  step-same v (ok f, s) fn fn' same h = same f s h
  step-same v (err e, s) fn fn' same h = refl
  step-same v (panic, s) fn fn' same h = refl

  module _ (fn fn' : VolumeRef → Fork → M (Scope W) (Unit {0}))
      (same : (v : VolumeRef) (f : Fork) (s : Scope W)
        → s.file.fork ≡ some (f, v.ref)
        → fn v f s ≡ fn' v f s) where
    on_fork-same :
        (v : Option VolumeRef) (s : Scope W)
        → on_fork net link norm sched fn v s ≡ on_fork net link norm sched fn' v s
    unfolding open_file
    on_fork-same none s = refl
    on_fork-same (some v) s =
        step-same v (open_or net link norm sched v s.file.fork s) (fn v) (fn' v) (same v)
          (open_or-Opened v s.file.fork s refl)

    -- `withFork` runs its function on no fork but one that the file holds for the volume of that
    -- run: functions that agree there give the same, whatever the file held before and whatever
    -- reconnects come between.
    pub with_fork-current :
        (others : ℕ → Around net link norm sched → Around net link norm sched)
        (a : Around net link norm sched)
        → with_fork net link norm sched others fn a ≡ with_fork net link norm sched others fn' a
    unfolding with_fork
    with_fork-current others a =
        let e : on_fork net link norm sched fn ≡ on_fork net link norm sched fn' =
          fun_ext λ v. fun_ext λ s. on_fork-same v s in
        ap (λ g. do_op (scoped net link norm sched) g others a) e

  -- Closing a file whose fork belongs to another volume than that of the live link succeeds,
  -- forgets the fork and asks nothing of a server; only other goroutines change the manager.
  pub close_file-stale :
      (others : ℕ → Around net link norm sched → Around net link norm sched)
      (m : ConnManager C VolumeRef) (s : Scope W) (l : Live C VolumeRef) (f : Fork) (ref : ℕ)
      → m.live ≡ some l
      → s.file.fork ≡ some (f, ref)
      → l.vol.ref ≢ ref
      → close_file net link norm sched others (m, s)
        ≡ (ok tt, others 0 (m, record s { file = record s.file { fork = none } }))
  unfolding close_file do_op
  close_file-stale others m s l f ref live opened stale =
      let s' = record s { file = record s.file { fork = none } } in
      let differ : (l.vol.ref == ref) ≡ false = ground arith in
      ap (λ o. close_open net link norm sched others o (m, s)) opened
      ∙ ap
          (λ o.
            first_run (scoped net link norm sched) (close_on net link norm sched others f ref)
              others m.gen o (m, s'))
          live
      ∙ rw differ
