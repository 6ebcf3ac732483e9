-- ===== src/Nfsfs/Fs/Attributes.antt =====
-- internal/nfsfs/fs.go: `Chmod`, `Chown` and `Chtimes`.
use goafp.Base.{ℕ, Bool, List, bit_and, bit_or, if◌then◌else◌}
use goafp.Base.Int.{ℤ, pos, negsuc, low32}
use goafp.Base.Bytes.{Bytes}
use goafp.Base.Outcome.{Outcome, ok, err, panic}
use goafp.Afp.Text.{Norm}
use goafp.Afp.Entry.{DirEntry, root_dir_id}
use goafp.Afp.Link.{M, step, Link}
use goafp.Afp.Volume.{stat, set_unix_privs, set_mod_time}
use goafp.Afp.Fork.{Chunk}
use goafp.Nfsfs.Conn.{Network, State}
use goafp.Nfsfs.Errors.{map_outcome}
use goafp.Nfsfs.File.{VolumeRef}
use goafp.Nfsfs.Paths.{resolve}
use goafp.Nfsfs.Fs.{Op, do_vol, has_unix_privs, mapped}

-- The file type within a Unix mode.
abbrev pub s_ifmt : ℕ
s_ifmt = 0o170000

-- The permission bits that `Chmod` is given, and the file type that the entry has.
unfoldable pub with_type : ℕ → ℕ → ℕ
with_type mode old = bit_or (bit_and mode 0o7777) (bit_and old s_ifmt)

-- An id that is not negative replaces the old one.
unfoldable pub new_id : ℤ → ℕ → ℕ
new_id (pos n) old = low32 (pos n)
new_id (negsuc n) old = old

module _ {W C : Type 0} (net : Network W C VolumeRef) (link : VolumeRef → Link W) (norm : Norm)
    (sched : ℕ → ℕ → List Chunk) (others : ℕ → State net → State net) (base : Bytes) where
  abbrev pub if_supported :
      Op net link norm sched others base (Unit {0})
      → Outcome Bool × State net
      → Outcome (Unit {0}) × State net
  if_supported op (ok supported, a) = if supported then op a else (ok tt, a)
  if_supported op (err e, a) = (err e, a)
  if_supported op (panic, a) = (panic, a)

  -- `mapErr` is called inside the closure, on each of the two calls.
  abbrev pub change_privs :
      (DirEntry → VolumeRef → M W (Unit {0})) → Bytes → VolumeRef → M W (Unit {0})
  change_privs set p v w =
      let r = stat (link v) norm v.volume root_dir_id p w in
      step (map_outcome r.0) r.1 λ e w. mapped (set e v w)

  unfoldable pub chmod : Bytes → ℕ → Op net link norm sched others base (Unit {0})
  chmod name mode a =
      if_supported
        (do_vol net link norm sched others base (
          change_privs
            (λ e v.
              set_unix_privs (link v) norm v.volume root_dir_id (resolve base name) e.unix_privs.uid
                e.unix_privs.gid (with_type mode e.unix_privs.permissions))
            (resolve base name)))
        (has_unix_privs net link norm sched others base a)

  unfoldable pub chown : Bytes → ℤ → ℤ → Op net link norm sched others base (Unit {0})
  chown name uid gid a =
      if_supported
        (do_vol net link norm sched others base (
          change_privs
            (λ e v.
              set_unix_privs (link v) norm v.volume root_dir_id (resolve base name)
                (new_id uid e.unix_privs.uid) (new_id gid e.unix_privs.gid)
                e.unix_privs.permissions)
            (resolve base name)))
        (has_unix_privs net link norm sched others base a)

  -- The access time is ignored.
  unfoldable pub chtimes : Bytes → ℤ → Op net link norm sched others base (Unit {0})
  chtimes name mtime =
      do_vol net link norm sched others base (λ v w.
        mapped (set_mod_time (link v) norm v.volume root_dir_id (resolve base name) mtime w))
