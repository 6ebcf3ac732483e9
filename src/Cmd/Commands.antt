-- ===== src/Cmd/Commands.antt =====
-- cmd/goafp/main.go: the commands. The target's parser, the local files and the standard output are
-- parameters; errors of `fmt.Errorf` are `malformed`.
use goafp.Base.{ℕ, Bool, true, false, ◌||◌, Option, none, some, List, [], ◌∷◌, map, if◌then◌else◌}
use goafp.Base.Bytes.{Bytes}
use goafp.Base.Outcome.{Outcome, ok, err, malformed}
use goafp.Dsi.Setup.{Transport}
use goafp.Afp.Text.{Norm, codes, same, trim}
use goafp.Afp.Link.{M, ◌>>=◌, ◌>>◌, lift, pure, Link}
use goafp.Afp.Entry.{root_dir_id}
use goafp.Afp.Session.{logout}
use goafp.Afp.Volume.{
  Volume, VolumeInfo, list_volumes, open_volume, close_volume, read_dir, create_file, mkdir, delete,
  rename, split_path,
}
use goafp.Afp.Fork.{Fork, Chunk, open_fork_ro, open_fork_rw, close_fork, write_to}
use goafp.Afp.Write.{Filled, WriteResult, read_from}
use goafp.Cmd.Target.{Url, Target, parse_target}
use goafp.Base.Int.{ℤ}
use goafp.Cmd.Output.{int64_total, volume_line, say_each, print_entries, say_wrote}
use goafp.Cmd.Connect.{deferred, quietly, or_undo, Secrets, connect}

abbrev pub is_empty : Bytes → Bool
is_empty [] = true
is_empty (c ∷ cs) = false

abbrev pub refuse_if : {A W : Type 0} → Bool → M W A → M W A
refuse_if refused m = if refused then lift (err malformed) else m

-- The name of the local file: the second argument, or the last component of the path.
abbrev pub local_name : Option Bytes → Bytes → Bytes
local_name (some name) p = name
local_name none [] = []
local_name none (c ∷ cs) = (split_path (c ∷ cs)).1

unfoldable pub no_name : Bytes → Bool
no_name name = is_empty name || same name (codes ".") || same name (codes "/")

-- The length that `ReadFrom` returns, or its error.
abbrev pub as_result : Option WriteResult → Outcome (Option ℕ)
as_result none = ok none
as_result (some r) = elim r.first_err [ none ↦ ok (some r.total) | some e ↦ err e ]

module _ {W C : Type 0} (net : Transport W C) (secrets : Secrets W) (norm : Norm)
    (parse : Bytes → Outcome Url) where
  -- The connection is closed last, after the logout.
  abbrev pub with_session : {A : Type 0} → Target → (Link W → M W A) → M W A
  with_session t fn = do
    (c, link) ← connect net secrets t
    deferred (net.close c) (deferred (quietly (logout link)) (fn link))

  abbrev pub with_target : {A : Type 0} → Target → (Link W → Volume → M W A) → M W A
  with_target t fn = with_session t λ link. open_volume link norm t.volume >>= λ v.
      deferred (quietly (close_volume link norm v)) (fn link v)

  unfoldable pub with_volume : {A : Type 0} → Bytes → (Link W → Volume → Target → M W A) → M W A
  with_volume raw fn = do
    t ← lift (parse_target parse raw)
    refuse_if (is_empty t.volume) (with_target t λ link v. fn link v t)

  unfoldable pub with_fork : {A : Type 0} → Bytes → (Link W → Fork → M W A) → M W A
  with_fork raw fn = do
    t ← lift (parse_target parse raw)
    refuse_if (is_empty t.volume || is_empty t.path) (
        with_target t λ link v. open_fork_ro link norm v root_dir_id t.path >>= λ f.
        deferred (quietly (close_fork link f)) (fn link f))

  unfoldable pub run_volumes :
      (Bytes → W → W) → (List VolumeInfo → List VolumeInfo) → Bytes → M W (Unit {0})
  run_volumes print sort raw = do
    t ← lift (parse_target parse raw)
    with_session t
        λ link. list_volumes link norm sort >>= λ vols. say_each print (map volume_line vols)

  -- `none` is out of fuel.
  unfoldable pub run_ls : (ℤ → Bytes) → (Bytes → W → W) → ℕ → Bytes → M W (Option (Unit {0}))
  run_ls show_time print fuel raw =
      with_volume raw
        λ link v t. read_dir link norm fuel v root_dir_id t.path >>= print_entries show_time print

  unfoldable pub run_cat :
      (Bytes → M W (Unit {0})) → ℕ → (Fork → ℕ → List Chunk) → Bytes → M W (Option ℤ)
  run_cat out fuel sched raw = with_fork raw λ link f. write_to link out fuel (sched f) f

  -- `create` makes the local file and gives what writes to it and what closes it; the file is
  -- closed a second time when the call ends.
  unfoldable pub run_get :
      (Bytes → W → W)
      → (Bytes → M W ((Bytes → M W (Unit {0})) × M W (Unit {0})))
      → ℕ
      → (Fork → ℕ → List Chunk)
      → Bytes
      → Option Bytes
      → M W (Option ℤ)
  run_get log create fuel sched raw local = do
    t ← lift (parse_target parse raw)
    let name = local_name local t.path
    refuse_if (no_name name) (
        with_fork raw λ link f. create name >>= λ (out, close).
        deferred (quietly close)
          (write_to link out fuel (sched f) f >>= λ n. say_wrote log name n >> close >> pure n))

  -- `open_local` opens the local file and gives what fills a buffer from it and what closes it.
  unfoldable pub run_put :
      (Bytes → W → W)
      → (Bytes → M W ((ℕ → W → Filled × W) × M W (Unit {0})))
      → ℕ
      → (Fork → ℕ → ℕ → List Chunk)
      → Bytes
      → Bytes
      → M W (Option ℕ)
  run_put log open_local fuel sched local raw = do
    t ← lift (parse_target parse raw)
    refuse_if (is_empty t.volume || is_empty t.path) (
        open_local local >>= λ (fill, close). deferred (quietly close) (
          with_target t λ link v.
            create_file link norm v root_dir_id t.path true
            >> (open_fork_rw link norm v root_dir_id t.path >>= λ f.
                deferred (quietly (close_fork link f)) (
                  read_from link fill fuel (sched f) f >>= λ r.
                  lift (as_result r) >>= λ n. say_wrote log t.path (int64_total n) >> pure n))))

  abbrev pub on_path : Bytes → (Link W → Volume → Bytes → M W (Unit {0})) → M W (Unit {0})
  on_path raw fn = with_volume raw λ link v t. refuse_if (is_empty t.path) (fn link v t.path)

  unfoldable pub run_mkdir : Bytes → M W (Unit {0})
  run_mkdir raw = on_path raw λ link v p. mkdir link norm v root_dir_id p

  unfoldable pub run_rm : Bytes → M W (Unit {0})
  run_rm raw = on_path raw λ link v p. delete link norm v root_dir_id p

  unfoldable pub run_mv : Bytes → Bytes → M W (Unit {0})
  run_mv raw new_path = on_path raw λ link v p. rename link norm v root_dir_id p (trim new_path)

  -- The dialer of `runMount`: a connection with the volume open.
  unfoldable pub mount_dial : Target → M W (C × Link W × Volume)
  mount_dial t = do
    (c, link) ← connect net secrets t
    v ← or_undo (net.close c) (open_volume link norm t.volume)
    pure (c, link, v)
