-- ===== src/Nfsfs/Fs/Dirs/Made.antt =====
-- internal/nfsfs/fs.go: `MkdirAll` against a server that makes directories.
use goafp.Base.{
  ℕ, zero, suc, ◌≡◌, refl, sym, ap, ◌∙◌, ◌≢◌, ◌⊎◌, inl, inr, true, false, some, List, [], ◌∷◌, ◌++◌,
  append-nil, append_assoc, take, if◌then◌else◌, All,
}
use goafp.Base.Bytes.{Bytes}
use goafp.Base.Outcome.{server, Outcome, ok, err}
use mathlib.Core.Path.{subst}
use goafp.Dsi.Header.{cmd_command}
use goafp.Dsi.Conn.{Reply}
use goafp.Afp.Text.{Norm}
use goafp.Afp.Builder.{◌▷◌, path}
use goafp.Afp.Codes.{result_err, res_no_err, res_object_exists, cmd_create_dir}
use goafp.Afp.Entry.{root_dir_id}
use goafp.Afp.Link.{Link, command, run}
use goafp.Afp.Volume.{mkdir, on_volume}
use goafp.Afp.Fork.{Chunk}
use goafp.Nfsfs.Conn.{Live, ConnManager, Network, State}
use goafp.Nfsfs.Conn.Runs.{do_op-steady}
use goafp.Nfsfs.Errors.{map_err}
use goafp.Nfsfs.File.{VolumeRef}
use goafp.Nfsfs.Paths.{is_empty, split_slash, join_slash, resolve}
use goafp.Nfsfs.Paths.Resolved.{IsComponent, resolve-components, split_slash-join_slash}
use goafp.Nfsfs.Fs.{Op, on_vol}
use goafp.Nfsfs.Fs.Dirs.{prefixes, or_there, mkdir_each, mkdir_all}

-- What a server says of a directory that is there afterwards: it has made it, or it was there.
abbrev pub Made : Reply → Type 0
Made r = (r.header.err_code ≡ res_no_err) ⊎ (r.header.err_code ≡ res_object_exists)

false-true : false ≢ true
false-true e = cc

module _ {W C : Type 0} (net : Network W C VolumeRef) (link : VolumeRef → Link W) (norm : Norm)
    (sched : ℕ → ℕ → List Chunk) (base : Bytes) (m : ConnManager C VolumeRef) (l : Live C VolumeRef)
    (live : m.live ≡ some l) (There : List Bytes → W → Type 0)
    (alive : (w : W) → There [] w → net.is_alive l.conn w ≡ true)
    (makes : (q : List Bytes) (c : Bytes) (w : W)
      → IsComponent c
      → There q w
      → (r : Reply) × (w' : W) × ((link l.vol).request cmd_command 0
            (on_volume cmd_create_dir 0 l.vol.volume root_dir_id
              ▷ path norm (join_slash (q ++ c ∷ [])))
            w
          ≡ (ok r, w'))
        × Made r
        × There (q ++ c ∷ []) w'
        × ((p : List Bytes) → There p w → There p w')) where
  abbrev steady : ℕ → State net → State net
  steady k s = s

  mkdir_lem :
      (q : List Bytes) (c : Bytes) (w : W)
      → IsComponent c
      → There q w
      → (o : Outcome (Unit {0})) × (w' : W) × (mkdir
            (link l.vol)
            norm
            l.vol.volume
            root_dir_id
            (join_slash (q ++ c ∷ []))
            w
          ≡ (o, w'))
        × ((o ≡ ok tt) ⊎ (o ≡ err (server res_object_exists)))
        × There (q ++ c ∷ []) w'
        × ((p : List Bytes) → There p w → There p w')
  unfolding mkdir run command result_err
  mkdir_lem q c w name h =
      let (r, w', req, made, h', keeps) = makes q c w name h in
      elim made [
        | inl new ↦ (ok tt, w', rw (req, new), inl refl, h', keeps)
        | inr old ↦ (err (server res_object_exists), w', rw (req, old), inr refl, h', keeps)
      ]

  or_there_lem :
      (o : Outcome (Unit {0})) (a : State net)
      (more : Op net link norm sched steady base (Unit {0}))
      → (o ≡ ok tt) ⊎ (o ≡ err (server res_object_exists))
      → or_there net link norm sched steady base (o, a) more ≡ more a
  unfolding map_err
  or_there_lem o a more (inl e) = rw e
  or_there_lem o a more (inr e) = rw e

  -- The directories from `q` down through the names `ps`.
  abbrev Along : List Bytes → List Bytes → W → Type 0
  Along q ps w = (n : ℕ) → There (q ++ take n ps) w

  Along-nil : (q : List Bytes) (w : W) → There q w → Along q [] w
  Along-nil q w h zero = subst (λ x. There x w) (sym (append-nil q)) h
  Along-nil q w h (suc n) = subst (λ x. There x w) (sym (append-nil q)) h

  Along-cons :
      (q : List Bytes) (p : Bytes) (ps : List Bytes) (w : W)
      → There q w
      → Along (q ++ p ∷ []) ps w
      → Along q (p ∷ ps) w
  Along-cons q p ps w h more zero = subst (λ x. There x w) (sym (append-nil q)) h
  Along-cons q p ps w h more (suc n) =
      subst (λ x. There x w) (append_assoc q (p ∷ []) (take n ps)) (more n)

  mkdir_each_lem :
      (q ps : List Bytes) (w : W)
      → All IsComponent ps
      → There [] w
      → There q w
      → (w' : W) × (mkdir_each net link norm sched steady base (prefixes q ps) (m, w)
          ≡ (ok tt, (m, w')))
        × Along q ps w'
        × ((p : List Bytes) → There p w → There p w')
  unfolding mkdir_each
  mkdir_each_lem q [] w flat root h = (w, refl, Along-nil q w h, λ p there. there)
  mkdir_each_lem q (p ∷ ps) w flat root h =
      let (o, w1, made, good, h1, keeps) = mkdir_lem q p w flat.0 h in
      let root1 = keeps [] root in
      let one =
        do_op-steady net
          (on_vol net link norm sched steady base
            (λ v. mkdir (link v) norm v.volume root_dir_id (join_slash (q ++ p ∷ []))))
          m l w w1 o live made (alive w1 root1) in
      let (w2, rest, along, keeps') = mkdir_each_lem (q ++ p ∷ []) ps w1 flat.1 root1 h1 in
      (
        w2,
        ap
              (λ x.
                or_there net link norm sched steady base x
                  (mkdir_each net link norm sched steady base (prefixes (q ++ p ∷ []) ps)))
              one
            ∙ or_there_lem o (m, w1) _ good
            ∙ rest,
        Along-cons q p ps w2 (keeps' q (keeps q h)) along,
        λ x there. keeps' x (keeps x there),
      )

  -- `MkdirAll` behind `resolve`.
  abbrev from_path : Bytes → Op net link norm sched steady base (Unit {0})
  from_path p a =
      if is_empty p
      then (ok tt, a)
      else mkdir_each net link norm sched steady base (prefixes [] (split_slash p)) a

  made_from :
      (cs : List Bytes) (w : W)
      → All IsComponent cs
      → There [] w
      → (w' : W) × (from_path (join_slash cs) (m, w) ≡ (ok tt, (m, w'))) × Along [] cs w'
  made_from [] w flat h = (w, refl, Along-nil [] w h)
  made_from ([] ∷ cs) w flat h = absurd (false-true (sym flat.0.there))
  made_from ((x ∷ c) ∷ cs) w flat h =
      let (w', run, along, _) = mkdir_each_lem [] ((x ∷ c) ∷ cs) w flat h h in
      (
        w',
        ap (λ ps. mkdir_each net link norm sched steady base (prefixes [] ps) (m, w))
              (split_slash-join_slash (x ∷ c) cs flat)
            ∙ run,
        along,
      )

  -- Let the link be live and stay alive, and nobody else change the manager. Let the server answer
  -- a request to create one component in a directory that is there with no error or "object
  -- exists", after which the new directory is there and none has gone; it need not create several
  -- at once. Then, if the root is there, `MkdirAll` succeeds for every base and name: the resolved
  -- path is a join of components, and the directory of every first few of them, and so the path's
  -- own, is there afterwards.
  pub mkdir_all-Made :
      (name : Bytes) (w : W)
      → There [] w
      → (cs : List Bytes) × (w' : W) × (resolve base name ≡ join_slash cs)
        × All IsComponent cs
        × (mkdir_all net link norm sched steady base name (m, w) ≡ (ok tt, (m, w')))
        × ((n : ℕ) → There (take n cs) w')
  unfolding mkdir_all
  mkdir_all-Made name w h =
      let (cs, e, flat) = resolve-components base name in
      let (w', run, along) = made_from cs w flat h in
      (cs, w', e, flat, ap (λ p. from_path p (m, w)) e ∙ run, along)
