-- ===== src/Cmd/Main.antt =====
-- cmd/goafp/main.go: `main`, `runStatus` and `runMount`. What the operating system, the standard
-- library and go-nfs do for them is a record; exit statuses are numbers.
use goafp.Base.{ℕ, Bool, Option, none, some, List, [], ◌∷◌, if◌then◌else◌}
use goafp.Base.Int.{ℤ}
use goafp.Base.Bytes.{Bytes}
use goafp.Base.Outcome.{Error, Outcome, ok, err, panic, malformed}
use goafp.Dsi.Setup.{Transport}
use goafp.Afp.Text.{Norm, codes, same}
use goafp.Afp.Link.{M, ◌>>=◌, ◌>>◌, lift, pure}
use goafp.Afp.Volume.{VolumeInfo}
use goafp.Afp.Fork.{Fork, Chunk}
use goafp.Afp.Write.{Filled}
use goafp.Nfsfs.Conn.{ConnManager, Network}
use goafp.Nfsfs.File.{VolumeRef}
use goafp.Nfsfs.Fs.{new_fs, close_fs}
use goafp.Cmd.Target.{Url, Target, parse_target}
use goafp.Cmd.Connect.{deferred, Secrets, fetch_status}
use goafp.Cmd.Output.{newline, usage, joined, status_text, mount_help, say}
use goafp.Cmd.Commands.{
  is_empty, refuse_if, run_volumes, run_ls, run_cat, run_get, run_put, run_mkdir, run_rm, run_mv,
  mount_dial,
}

-- A listener's address: as text, its host, its port.
pub record Address : Type 0 where
  pub text : Bytes
  pub ip : Bytes
  pub port : ℕ

-- `print` and `log` are the prints to standard output and standard error, `stdout` is the writer that
-- a file is streamed to; `create` and `open_local` are as in the commands. `alive` is `IsAlive`, and
-- `new_ref` tells the pointers of opened volumes apart. `serve` is `nfs.Serve` on a listener, for a
-- file system by its base and its manager, with a number of cache entries.
pub record Host (W C L : Type 0) : Type 0 where
  pub print : Bytes → W → W
  pub log : Bytes → W → W
  pub stdout : Bytes → M W (Unit {0})
  pub create : Bytes → M W ((Bytes → M W (Unit {0})) × M W (Unit {0}))
  pub open_local : Bytes → M W ((ℕ → W → Filled × W) × M W (Unit {0}))
  pub sort : List VolumeInfo → List VolumeInfo
  pub show_time : ℤ → Bytes
  pub show_err : Error → Bytes
  pub quoted : Bytes → Bytes
  pub darwin : Bool
  pub alive : C → W → Bool
  pub new_ref : M W ℕ
  pub listen : Bytes → M W L
  pub address : L → Address
  pub serve : L → Bytes → ℕ → M (ConnManager C VolumeRef × W) (Unit {0})

-- The orders in which servers take the requests of a window.
pub record Orders : Type 0 where
  pub reads : Fork → ℕ → List Chunk
  pub writes : Fork → ℕ → ℕ → List Chunk

-- A command that has no result, or whose result does not count.
abbrev pub plain_run : {W : Type 0} → M W (Unit {0}) → M W (Option (Unit {0}))
plain_run m = m >>= λ _. pure (some tt)

abbrev pub dropped : {A : Type 0} → Option A → Option (Unit {0})
dropped none = none
dropped (some n) = some tt

abbrev pub counted_run : {A W : Type 0} → M W (Option A) → M W (Option (Unit {0}))
counted_run m = m >>= λ n. pure (dropped n)

-- The first argument of the rest, or the command's usage error.
abbrev pub with_second :
    {W : Type 0} → List Bytes → (Bytes → M W (Option (Unit {0}))) → M W (Option (Unit {0}))
with_second [] fn = lift (err malformed)
with_second (b ∷ rest) fn = fn b

abbrev pub second : List Bytes → Option Bytes
second [] = none
second (b ∷ rest) = some b

abbrev pub listen_addr : List Bytes → Bytes
listen_addr [] = codes "127.0.0.1:2049"
listen_addr (b ∷ rest) = b

-- A call beside the manager of a file system.
abbrev pub beside : {S W A : Type 0} → M W A → M (S × W) A
beside m (s, w) = let (o, w') = m w in (o, (s, w'))

-- A call on a manager that is made for it.
abbrev pub with_manager : {S W A : Type 0} → S → M (S × W) A → M W A
with_manager s m w = let (o, (s', w')) = m (s, w) in (o, w')

module _ {W C L : Type 0} (net : Transport W C) (secrets : Secrets W) (norm : Norm)
    (parse : Bytes → Outcome Url) (host : Host W C L) where
  unfoldable pub run_status : Bytes → M W (Unit {0})
  run_status addr = do info ← fetch_status net secrets addr; say host.print (status_text info)

  -- The dialer of `runMount`, as the connection manager takes it.
  abbrev pub mount_network : Target → Network W C VolumeRef
  mount_network t = record {
    dial = mount_dial net secrets norm parse t >>= λ (c, link, v).
        host.new_ref >>= λ r. pure (record { conn = c; vol = record { ref = r; volume = v } });
    close = net.close;
    is_alive = host.alive;
  }

  abbrev pub help_text : Target → Address → Bytes
  help_text t a = mount_help host.darwin (host.quoted t.volume) a.text a.ip a.port

  unfoldable pub run_mount : Bytes → List Bytes → M W (Unit {0})
  run_mount raw rest = do
    t ← lift (parse_target parse raw)
    refuse_if (is_empty t.volume) (
        new_fs (mount_network t) >>= λ (m, base). with_manager m (
          deferred (close_fs (mount_network t)) (
            beside (host.listen (listen_addr rest)) >>= λ l.
            beside (say host.print (help_text t (host.address l))) >> host.serve l base 4096)))

  -- The switch of `main`; `none` is its default.
  unfoldable pub dispatch :
      ℕ → Orders → Bytes → Bytes → List Bytes → Option (M W (Option (Unit {0})))
  dispatch fuel orders name raw rest =
      if same name (codes "status")
      then some (plain_run (run_status raw))
      else if same name (codes "volumes")
      then some (plain_run (run_volumes net secrets norm parse host.print host.sort raw))
      else if same name (codes "ls")
      then some (run_ls net secrets norm parse host.show_time host.print fuel raw)
      else if same name (codes "cat")
      then some (counted_run (run_cat net secrets norm parse host.stdout fuel orders.reads raw))
      else if same name (codes "get")
      then some (
          counted_run (
            run_get net secrets norm parse host.log host.create fuel orders.reads raw
              (second rest)))
      else if same name (codes "put")
      then some (
          with_second rest λ b.
            counted_run
              (run_put net secrets norm parse host.log host.open_local fuel orders.writes raw b))
      else if same name (codes "mkdir")
      then some (plain_run (run_mkdir net secrets norm parse raw))
      else if same name (codes "rm")
      then some (plain_run (run_rm net secrets norm parse raw))
      else if same name (codes "mv")
      then some (with_second rest λ b. plain_run (run_mv net secrets norm parse raw b))
      else if same name (codes "mount")
      then some (plain_run (run_mount raw rest))
      else none

  -- The end of `main`: Go gives a panic the status 2. Out of fuel there is no status.
  abbrev pub exit_status : Outcome (Option (Unit {0})) × W → Option ℕ × W
  exit_status (ok none, w) = (none, w)
  exit_status (ok (some _), w) = (some 0, w)
  exit_status (err e, w) =
      (some 1, host.log (joined (codes "goafp: " ∷ host.show_err e ∷ newline ∷ [])) w)
  exit_status (panic, w) = (some 2, w)

  abbrev pub or_usage : Option (M W (Option (Unit {0}))) → W → Option ℕ × W
  or_usage none w = (some 2, host.log usage w)
  or_usage (some m) w = exit_status (m w)

  -- `main` on `os.Args`.
  unfoldable pub main : ℕ → Orders → List Bytes → W → Option ℕ × W
  unfolding dispatch
  main fuel orders (program ∷ name ∷ raw ∷ rest) w = or_usage (dispatch fuel orders name raw rest) w
  main fuel orders _ w = (some 2, host.log usage w)
