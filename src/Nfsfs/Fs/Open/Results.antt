-- ===== src/Nfsfs/Fs/Open/Results.antt =====
-- internal/nfsfs/fs.go: what a file is like that `OpenFile` returns.
use goafp.Base.{
  ℕ, ◌≡◌, refl, sym, ap, ◌∙◌, ◌≢◌, inl, inr, Bool, true, false, ◌&&◌, Option, none, some, List, [],
  ◌==◌, if◌then◌else◌, if_lem, Bool-cases,
}
use goafp.Base.Int.{ℤ, pos, signed64}
use goafp.Base.Bytes.{Bytes}
use goafp.Base.Outcome.{Outcome, ok, err, panic}
use goafp.Afp.Text.{Norm}
use goafp.Afp.Link.{M, ◌>>◌, step, pure, Link}
use goafp.Afp.Volume.{create_file}
use goafp.Afp.Fork.{Fork, Chunk}
use goafp.Afp.Write.{truncate}
use goafp.Afp.Entry.{root_dir_id}
use goafp.Nfsfs.Conn.{Network, State}
use goafp.Nfsfs.Conn.Runs.{Ends, do_op-Ends}
use goafp.Nfsfs.File.{
  VolumeRef, File, Scope, within, scoped, Around, fork_of, open_or, open_file, set_fork,
}
use goafp.Nfsfs.Paths.{resolve}
use goafp.Nfsfs.Fs.{mapped}
use goafp.Nfsfs.Fs.Open.{
  Flags, new_file, set_size, created, create_step, trunc_step, open_body, around_scope, leave,
  open_with,
}

-- A file as `OpenFile` returns it for the path `p`.
pub record IsOpened (flags : Flags) (p : Bytes) (f : File) : Type 0 where
  pub path_is : f.path ≡ p
  pub writable_is : f.writable ≡ flags.writable
  pub has_fork : (g : Fork × ℕ) × (f.fork ≡ some g)
  pub placed : f.cursor ≡ (if flags.append then f.size else pos 0)
  pub truncated_is : (flags.trunc && flags.writable) ≡ true → f.size ≡ pos 0

-- What does not change while the closure of `OpenFile` runs.
record Kept (flags : Flags) (p : Bytes) (f : File) : Type 0 where
  path_is : f.path ≡ p
  writable_is : f.writable ≡ flags.writable
  at_start : f.cursor ≡ pos 0

false-true : false ≢ true
false-true e = cc

step-Ends :
    {S A B : Type 0} (I : S → Type 0) (Q : A → S → Type 0) (R : B → S → Type 0) (r : Outcome A × S)
    (f : A → M S B)
    → Ends I Q r
    → ((a : A) (s : S) → I s → Q a s → Ends I R (f a s))
    → Ends I R (step r.0 r.1 f)
step-Ends I Q R (ok a, s) f h k = k a s h.0 h.1
step-Ends I Q R (err e, s) f h k = h
step-Ends I Q R (panic, s) f h k = h

mapped-Ends :
    {S A : Type 0} (I : S → Type 0) (Q : A → S → Type 0) (r : Outcome A × S)
    → Ends I Q r
    → Ends I Q (mapped r)
mapped-Ends I Q (ok a, s) h = h
mapped-Ends I Q (err e, s) h = h
mapped-Ends I Q (panic, s) h = h

module _ {W C : Type 0} (net : Network W C VolumeRef) (link : VolumeRef → Link W) (norm : Norm)
    (sched : ℕ → ℕ → List Chunk) (others : ℕ → State net → State net) (base : Bytes) (flags : Flags)
    (p : Bytes) where
  abbrev I : Scope W → Type 0
  I s = Kept flags p s.file

  abbrev Any : {A : Type 0} → A → Scope W → Type 0
  Any a s = Unit

  abbrev Forked : {A : Type 0} → A → Scope W → Type 0
  Forked a s = (g : Fork × ℕ) × (s.file.fork ≡ some g)

  abbrev Done : Unit {0} → Scope W → Type 0
  Done u s = Forked u s × ((flags.trunc && flags.writable) ≡ true → s.file.size ≡ pos 0)

  outcome-Ends : {A : Type 0} (o : Outcome A) (s : Scope W) → I s → Ends I Any (o, s)
  outcome-Ends (ok a) s h = (h, tt)
  outcome-Ends (err e) s h = h
  outcome-Ends panic s h = h

  create_step-Ends :
      (v : VolumeRef) (s : Scope W)
      → I s
      → Ends I Any (create_step net link norm sched others base flags p v s)
  create_step-Ends v s h =
      let r = create_file (link v) norm v.volume root_dir_id p false s.world in
      if_lem (λ x. Ends I Any x) flags.create (created flags r.0, record s { world = r.1 })
        (ok tt, s) (λ _. outcome-Ends (created flags r.0) (record s { world = r.1 }) h)
        (λ _. (h, tt))

  reopened-Ends :
      (v : VolumeRef) (s : Scope W) (o : Outcome Fork) (w : W)
      → I s
      → Ends I Forked (step o (record s { world = w }) (λ f. set_fork f v.ref >> pure f))
  reopened-Ends v s (ok f) w h = (
    record { path_is = h.path_is; writable_is = h.writable_is; at_start = h.at_start },
    ((f, v.ref), refl),
  )
  reopened-Ends v s (err e) w h = h
  reopened-Ends v s panic w h = h

  open_or-Ends :
      (v : VolumeRef) (o : Option (Fork × ℕ)) (s : Scope W)
      → s.file.fork ≡ o
      → I s
      → Ends I Forked (open_or net link norm sched v o s)
  open_or-Ends v none s e h =
      let r = fork_of net link norm sched v s.file s.world in reopened-Ends v s r.0 r.1 h
  open_or-Ends v (some (f, ref)) s e h = elim (Bool-cases (ref == v.ref)) [
    | inl own ↦ rw own (h, ((f, ref), e))
    | inr stale ↦
        let r = fork_of net link norm sched v s.file s.world in
        rw stale (reopened-Ends v s r.0 r.1 h)
  ]

  sized-Kept :
      (size : ℤ) (s : Scope W) → I s → I (record s { file = record s.file { size = size } })
  sized-Kept size s h = record {
    path_is = h.path_is;
    writable_is = h.writable_is;
    at_start = h.at_start;
  }

  truncated-Ends : (o : Outcome (Unit {0})) (s : Scope W) → I s → Forked tt s → Ends I Forked (o, s)
  truncated-Ends (ok a) s h k = (h, k)
  truncated-Ends (err e) s h k = h
  truncated-Ends panic s h k = h

  trunc_step-Ends :
      (v : VolumeRef) (f : Fork) (s : Scope W)
      → I s
      → Forked tt s
      → Ends I Done (trunc_step net link norm sched others base flags v f s)
  trunc_step-Ends v f s h k =
      let r = truncate (link v) f (pos 0) s.world in
      if_lem (λ m. Ends I Done (m s)) (flags.trunc && flags.writable)
        ((λ s. mapped (within (truncate (link v) f (pos 0)) s)) >> set_size (pos 0)) (pure tt)
        (λ _.
          step-Ends I Forked Done (mapped (r.0, record s { world = r.1 })) _
            (mapped-Ends I Forked (r.0, record s { world = r.1 })
              (truncated-Ends r.0 (record s { world = r.1 }) h k))
            λ _ t h' k'. (sized-Kept (pos 0) t h', (k', λ _. refl)))
        λ no_trunc. (h, (k, λ e. absurd (false-true (sym no_trunc ∙ e))))

  open_body-Ends :
      (v : Option VolumeRef) (s : Scope W)
      → I s
      → Ends I Done (open_body net link norm sched others base flags p v s)
  unfolding open_body open_file
  open_body-Ends none s h = h
  open_body-Ends (some v) s h =
      step-Ends I Any Done (create_step net link norm sched others base flags p v s) _
        (create_step-Ends v s h)
        λ _ s1 h1 _.
          step-Ends I Forked Done (mapped (open_or net link norm sched v s1.file.fork s1)) _
            (mapped-Ends I Forked (open_or net link norm sched v s1.file.fork s1)
              (open_or-Ends v s1.file.fork s1 refl h1))
            λ f s2 h2 k.
              trunc_step-Ends v f (record s2 { file = record s2.file { size = signed64 f.size } })
                (sized-Kept (signed64 f.size) s2 h2) k

-- The file in the result of `OpenFile`, if there is one.
abbrev pub Returns : {S : Type 0} → (File → Type 0) → Outcome File × S → Type 0
Returns P (ok f, s) = P f
Returns P (err e, s) = Unit
Returns P (panic, s) = Unit

module _ {W C : Type 0} (net : Network W C VolumeRef) (link : VolumeRef → Link W) (norm : Norm)
    (sched : ℕ → ℕ → List Chunk) (others : ℕ → State net → State net) (base : Bytes) (flags : Flags)
    (p : Bytes) where
  left-IsOpened :
      (r : Outcome (Unit {0}) × Around net link norm sched)
      → Ends
          (I net link norm sched others base flags p)
          (Done net link norm sched others base flags p)
          (r.0, r.1.1)
      → Returns (IsOpened flags p) (leave net link norm sched others base flags r)
  left-IsOpened (ok u, (m, s)) (h, (k, t)) =
      let f = s.file in
      let placed = λ (b : Bool). if b then f.size else pos 0 in
      if_lem (IsOpened flags p) flags.append (record f { cursor = f.size }) f
        (λ e. record {
          path_is = h.path_is;
          writable_is = h.writable_is;
          has_fork = k;
          placed = sym (ap placed e);
          truncated_is = t;
        })
        λ e. record {
          path_is = h.path_is;
          writable_is = h.writable_is;
          has_fork = k;
          placed = h.at_start ∙ sym (ap placed e);
          truncated_is = t;
        }
  left-IsOpened (err e, (m, s)) h = tt
  left-IsOpened (panic, (m, s)) h = tt

module _ {W C : Type 0} (net : Network W C VolumeRef) (link : VolumeRef → Link W) (norm : Norm)
    (sched : ℕ → ℕ → List Chunk) (others : ℕ → State net → State net) (base : Bytes) where
  -- Whatever the network, the servers and other goroutines do, a file that `OpenFile` returns has
  -- the resolved path, is writable as the flags say and has a fork; its cursor is at its size with
  -- O_APPEND and at 0 without; and where it was truncated its size is 0.
  pub open_with-IsOpened :
      (name : Bytes) (flags : Flags) (a : State net)
      → Returns
          (IsOpened flags (resolve base name))
          (open_with net link norm sched others base name flags a)
  unfolding open_with
  open_with-IsOpened name flags (m, w) =
      let p = resolve base name in
      let s : Scope W = record { world = w; file = new_file p flags; n = 0; p = [] } in
      left-IsOpened net link norm sched others base flags p _ (
        do_op-Ends (scoped net link norm sched) (open_body net link norm sched others base flags p)
          (around_scope net link norm sched others base) (I net link norm sched others base flags p)
          (Done net link norm sched others base flags p)
          (open_body-Ends net link norm sched others base flags p) (λ s h. h) (λ c s h. h)
          (λ k s h. h) (m, s) (record { path_is = refl; writable_is = refl; at_start = refl }))
