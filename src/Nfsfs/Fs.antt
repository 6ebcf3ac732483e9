-- ===== src/Nfsfs/Fs.antt =====
-- internal/nfsfs/fs.go: the operations of the file system, each by the AFP calls that it makes on the
-- volume of the connection manager. Errors are without the texts that `os.PathError` adds.
pub mod Open
pub mod Dirs
pub mod Attributes
use goafp.Base.{
  ℕ, zero, suc, ◌+◌, ◌-◌, ◌*◌, ◌/◌, ◌%◌, ◌^◌, ◌≤◌, ◌<◌, min, ◌≡◌, refl, sym, ap, ◌∙◌, ◌≢◌, ◌↔◌, ◌⊎◌,
  inl, inr, Bool, true, false, not, ◌&&◌, ◌||◌, Option, none, some, List, [], ◌∷◌, ◌++◌, map,
  append-nil, append_assoc, arith, bit_and, bit_or, ltb, leb, ◌==◌, if◌then◌else◌, ltb→lt, ltb→le,
  lt→ltb, le→ltb, ==_iff, Bool-cases, Option-cases, length, get_or, take, drop, replicate, All,
  length-append, take-append-drop, length-take, length-drop, length-replicate, take-append_length,
  drop-append_length, drop-drop, take-append_eq, get_or-append_length, drop-append_eq, All-append,
  take_all,
}
use goafp.Base.Int.{ℤ, pos, negsuc, ◌+ℤ◌, ◌-ℤ◌, ltb_ℤ, signed64, low64, add64}
use goafp.Base.Bytes.{
  Bytes, IsByte, IsBytes, be, from_be, length-be, be-IsBytes, from_be-be, from_be-lt, be-from_be,
}
use goafp.Base.Outcome.{
  Error, server, truncated, malformed, unsupported, auth_failed, eof, not_exist, permission, exist,
  closed, transport, Outcome, ok, err, panic, NoPanic,
}
use goafp.Afp.Text.{Norm}
use goafp.Afp.Entry.{DirEntry, root_dir_id}
use goafp.Afp.Link.{M, ◌>>=◌, ◌>>◌, step, lift, pure, Link}
use goafp.Afp.Volume.{Volume, supports_unix_privs, FsInfo}
use goafp.Afp.Volume
use goafp.Afp.Fork.{Fork, Chunk}
use goafp.Afp.Symlink as AfpLinks
use goafp.Nfsfs.Conn.{Live, ConnManager, Network, State, new_conn_manager, close, do_op}
use goafp.Nfsfs.Errors.{map_err, map_outcome}
use goafp.Nfsfs.File.{VolumeRef}
use goafp.Nfsfs.Paths.{is_empty, resolve}

-- The bits of `os.FileMode`.
abbrev pub mode_dir : ℕ
mode_dir = 2 ^ 31

abbrev pub mode_symlink : ℕ
mode_symlink = 2 ^ 27

-- `size` is an int64, and `none` is Go's zero time.
pub record FileInfo : Type 0 where
  pub name : Bytes
  pub size : ℤ
  pub mode : ℕ
  pub mod_time : Option ℤ
  pub is_dir : Bool

abbrev pub default_mode : DirEntry → ℕ
default_mode e = if e.is_dir then 0o755 else 0o644

unfoldable pub permissions : DirEntry → ℕ
permissions e =
    let mode = bit_and e.unix_privs.permissions 0o777 in if mode == 0 then default_mode e else mode

unfoldable pub entry_info : Bytes → DirEntry → FileInfo
unfolding permissions
entry_info name e = record {
  name = name;
  size = signed64 e.size;
  mode =
      if e.is_symlink
      then bit_or (permissions e) mode_symlink
      else if e.is_dir
      then bit_or (permissions e) mode_dir
      else permissions e;
  mod_time = e.mod_time;
  is_dir = e.is_dir;
}

abbrev pub root_info : FileInfo
root_info = record {
  name = b'/' ∷ [];
  size = pos 0;
  mode = bit_or mode_dir 0o755;
  mod_time = none;
  is_dir = true;
}

-- `path.Base` of a path that has no slash at its end.
abbrev pub base_name : Bytes → Bytes
base_name p = (Volume.split_path p).1

abbrev pub with_base : {S : Type 0} → Bytes → Outcome DirEntry × S → Outcome FileInfo × S
with_base p (ok e, s) = (ok (entry_info (base_name p) e), s)
with_base p (err e, s) = (err (map_err e), s)
with_base p (panic, s) = (panic, s)

abbrev pub mapped : {A S : Type 0} → Outcome A × S → Outcome A × S
mapped (o, s) = (map_outcome o, s)

-- `New`: a connection manager, and the base of the file system, which is the root of the volume.
unfoldable pub new_fs :
    {W C : Type 0} → Network W C VolumeRef → M W (ConnManager C VolumeRef × Bytes)
new_fs net = new_conn_manager net >>= λ m. pure (m, [])

unfoldable pub close_fs : {W C : Type 0} (net : Network W C VolumeRef) → State net → State net
close_fs net = close net

-- `others` is as in `do_op`; `fuel` bounds the rounds of a directory listing, and `none` of
-- `read_dir` is no Go result.
module _ {W C : Type 0} (net : Network W C VolumeRef) (link : VolumeRef → Link W) (norm : Norm)
    (sched : ℕ → ℕ → List Chunk) (others : ℕ → State net → State net) (base : Bytes) where
  abbrev pub Op : Type 0 → Type 0
  Op A = M (State net) A

  -- An operation on a nil volume panics.
  abbrev pub on_vol : {A : Type 0} → (VolumeRef → M W A) → Option VolumeRef → M W A
  on_vol fn none w = (panic, w)
  on_vol fn (some v) w = fn v w

  abbrev pub do_vol : {A : Type 0} → (VolumeRef → M W A) → Op A
  do_vol fn = do_op net (on_vol fn) others

  -- Only a panic passes; an error says no.
  abbrev pub or_false : Outcome Bool × State net → Outcome Bool × State net
  or_false (ok b, a) = (ok b, a)
  or_false (err e, a) = (ok false, a)
  or_false (panic, a) = (panic, a)

  -- `supportsUnixPrivs`.
  unfoldable pub has_unix_privs : Op Bool
  has_unix_privs a = or_false (do_vol (λ v. pure (supports_unix_privs v.volume)) a)

  unfoldable pub stat : Bytes → Op FileInfo
  stat name a =
      let p = resolve base name in
      if is_empty p
      then (ok root_info, a)
      else with_base p (do_vol (λ v. Volume.stat (link v) norm v.volume root_dir_id p) a)

  unfoldable pub rename : Bytes → Bytes → Op (Unit {0})
  rename old new a = mapped (
      do_vol
        (λ v.
          Volume.rename (link v) norm v.volume root_dir_id (resolve base old) (resolve base new))
        a)

  unfoldable pub remove : Bytes → Op (Unit {0})
  remove name a =
      mapped (do_vol (λ v. Volume.delete (link v) norm v.volume root_dir_id (resolve base name)) a)

  abbrev pub infos : Option (List DirEntry) → Option (List FileInfo)
  infos none = none
  infos (some es) = some (map (λ e. entry_info e.name e) es)

  abbrev pub with_infos :
      Outcome (Option (List DirEntry)) × State net → Outcome (Option (List FileInfo)) × State net
  with_infos (ok es, a) = (ok (infos es), a)
  with_infos (err e, a) = (err (map_err e), a)
  with_infos (panic, a) = (panic, a)

  unfoldable pub read_dir : ℕ → Bytes → Op (Option (List FileInfo))
  read_dir fuel name a =
      with_infos (
        do_vol (λ v. Volume.read_dir (link v) norm fuel v.volume root_dir_id (resolve base name)) a)

  unfoldable pub symlink : Bytes → Bytes → Op (Unit {0})
  symlink target name a = mapped (
      do_vol
        (λ v.
          AfpLinks.symlink (link v) norm (sched (length target)) v.volume root_dir_id
            (resolve base name) target)
        a)

  unfoldable pub read_link : Bytes → Op Bytes
  read_link name a = mapped (
      do_vol
        (λ v.
          AfpLinks.read_link (link v) norm (λ f. sched f.size f.chunk_size) v.volume root_dir_id
            (resolve base name))
        a)

  -- `connManager.statFS`.
  unfoldable pub stat_fs : Op FsInfo
  stat_fs = do_vol (λ v. Volume.stat_fs (link v) norm v.volume)

  -- `Chroot`: the base of the file system that it returns.
  abbrev pub chroot : Bytes → Bytes
  chroot p = resolve base p
