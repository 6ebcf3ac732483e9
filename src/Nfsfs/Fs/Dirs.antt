-- ===== src/Nfsfs/Fs/Dirs.antt =====
-- internal/nfsfs/fs.go: `MkdirAll`.
pub mod Made
use goafp.Base.{
  ℕ, zero, suc, ◌+◌, ◌-◌, ◌*◌, ◌/◌, ◌%◌, ◌^◌, ◌≤◌, ◌<◌, min, ◌≡◌, refl, sym, ap, ◌∙◌, ◌≢◌, ◌↔◌, ◌⊎◌,
  inl, inr, Bool, true, false, not, ◌&&◌, ◌||◌, Option, none, some, List, [], ◌∷◌, ◌++◌, map,
  append-nil, append_assoc, arith, bit_and, bit_or, ltb, leb, ◌==◌, if◌then◌else◌, ltb→lt, ltb→le,
  lt→ltb, le→ltb, ==_iff, Bool-cases, Option-cases, length, get_or, take, drop, replicate, All,
  length-append, take-append-drop, length-take, length-drop, length-replicate, take-append_length,
  drop-append_length, drop-drop, take-append_eq, get_or-append_length, drop-append_eq, All-append,
  take_all,
}
use goafp.Base.Int.{ℤ, pos, negsuc, ◌+ℤ◌, ◌-ℤ◌, ltb_ℤ, signed64, low64, add64}
use goafp.Base.Bytes.{
  Bytes, IsByte, IsBytes, be, from_be, length-be, be-IsBytes, from_be-be, from_be-lt, be-from_be,
}
use goafp.Base.Outcome.{
  Error, server, truncated, malformed, unsupported, auth_failed, eof, not_exist, permission, exist,
  closed, transport, Outcome, ok, err, panic, NoPanic,
}
use goafp.Afp.Text.{Norm}
use goafp.Afp.Entry.{root_dir_id}
use goafp.Afp.Link.{M, step, pure, Link}
use goafp.Afp.Volume.{mkdir}
use goafp.Afp.Fork.{Chunk}
use goafp.Nfsfs.Conn.{Network, State}
use goafp.Nfsfs.Errors.{map_err, is_exist}
use goafp.Nfsfs.File.{VolumeRef}
use goafp.Nfsfs.Paths.{is_empty, split_slash, join_slash, resolve}
use goafp.Nfsfs.Fs.{Op, do_vol}

-- `parts[:i+1]` for each i, behind what has gone before.
abbrev pub prefixes : List Bytes → List Bytes → List (List Bytes)
prefixes before [] = []
prefixes before (p ∷ ps) = (before ++ p ∷ []) ∷ prefixes (before ++ p ∷ []) ps

module _ {W C : Type 0} (net : Network W C VolumeRef) (link : VolumeRef → Link W) (norm : Norm)
    (sched : ℕ → ℕ → List Chunk) (others : ℕ → State net → State net) (base : Bytes) where
  abbrev pub mkdir_one : Bytes → Op net link norm sched others base (Unit {0})
  mkdir_one sub =
      do_vol net link norm sched others base (λ v. mkdir (link v) norm v.volume root_dir_id sub)

  -- A directory that is there already is no error.
  abbrev pub or_there :
      Outcome (Unit {0}) × State net
      → Op net link norm sched others base (Unit {0})
      → Outcome (Unit {0}) × State net
  or_there (ok u, a) more = more a
  or_there (err e, a) more = if is_exist (map_err e) then more a else (err (map_err e), a)
  or_there (panic, a) more = (panic, a)

  unfoldable pub mkdir_each : List (List Bytes) → Op net link norm sched others base (Unit {0})
  mkdir_each [] a = (ok tt, a)
  mkdir_each (p ∷ ps) a = or_there (mkdir_one (join_slash p) a) (mkdir_each ps)

  unfoldable pub mkdir_all : Bytes → Op net link norm sched others base (Unit {0})
  mkdir_all name a =
      let p = resolve base name in
      if is_empty p then (ok tt, a) else mkdir_each (prefixes [] (split_slash p)) a
