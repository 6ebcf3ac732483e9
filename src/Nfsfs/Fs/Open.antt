-- ===== src/Nfsfs/Fs/Open.antt =====
-- internal/nfsfs/fs.go: `OpenFile`, `Create`, `Open` and `TempFile`.
pub mod Results
use goafp.Base.{
  ℕ, zero, suc, ◌+◌, ◌-◌, ◌*◌, ◌/◌, ◌%◌, ◌^◌, ◌≤◌, ◌<◌, min, ◌≡◌, refl, sym, ap, ◌∙◌, ◌≢◌, ◌↔◌, ◌⊎◌,
  inl, inr, Bool, true, false, not, ◌&&◌, ◌||◌, Option, none, some, List, [], ◌∷◌, ◌++◌, map,
  append-nil, append_assoc, arith, bit_and, bit_or, ltb, leb, ◌==◌, if◌then◌else◌, ltb→lt, ltb→le,
  lt→ltb, le→ltb, ==_iff, Bool-cases, Option-cases, length, get_or, take, drop, replicate, All,
  length-append, take-append-drop, length-take, length-drop, length-replicate, take-append_length,
  drop-append_length, drop-drop, take-append_eq, get_or-append_length, drop-append_eq, All-append,
  take_all,
}
use goafp.Base.Int.{ℤ, pos, negsuc, ◌+ℤ◌, ◌-ℤ◌, ltb_ℤ, signed64, low64, add64}
use goafp.Base.Bytes.{
  Bytes, IsByte, IsBytes, be, from_be, length-be, be-IsBytes, from_be-be, from_be-lt, be-from_be,
}
use goafp.Base.Numerals.{digit}
use goafp.Base.Outcome.{
  Error, server, truncated, malformed, unsupported, auth_failed, eof, not_exist, permission, exist,
  closed, transport, Outcome, ok, err, panic, NoPanic,
}
use goafp.Afp.Text.{Norm}
use goafp.Afp.Entry.{root_dir_id}
use goafp.Afp.Link.{M, ◌>>=◌, ◌>>◌, step, pure, lift, Link}
use goafp.Afp.Volume.{create_file}
use goafp.Afp.Fork.{Fork, Chunk}
use goafp.Afp.Write.{truncate}
use goafp.Nfsfs.Conn.{Network, State, do_op}
use goafp.Nfsfs.Errors.{map_err, is_exist, map_outcome}
use goafp.Nfsfs.File.{VolumeRef, File, Scope, within, scoped, Around, open_file}
use goafp.Nfsfs.Paths.{resolve, path_join}
use goafp.Nfsfs.Fs.{Op, mapped}

-- The bits of `flag` that `OpenFile` asks for: O_WRONLY or O_RDWR, O_CREATE, O_EXCL, O_TRUNC, O_APPEND.
pub record Flags : Type 0 where
  pub writable : Bool
  pub create : Bool
  pub excl : Bool
  pub trunc : Bool
  pub append : Bool

abbrev pub create_flags : Flags
create_flags = record { writable = true; create = true; excl = false; trunc = true; append = false }

abbrev pub open_flags : Flags
open_flags = record {
  writable = false;
  create = false;
  excl = false;
  trunc = false;
  append = false;
}

abbrev pub temp_flags : Flags
temp_flags = record { writable = true; create = true; excl = true; trunc = false; append = false }

abbrev pub new_file : Bytes → Flags → File
new_file p flags = record {
  path = p;
  writable = flags.writable;
  fork = none;
  cursor = pos 0;
  size = pos 0;
}

-- `hex.EncodeToString`.
abbrev pub hex : Bytes → Bytes
hex [] = []
hex (b ∷ bs) = digit (b / 16) ∷ digit (b % 16) ∷ hex bs

module _ {W : Type 0} where
  abbrev pub set_size : ℤ → M (Scope W) (Unit {0})
  set_size size s = (ok tt, record s { file = record s.file { size = size } })

-- What the creation of the file comes to: a file that is there is an error with O_EXCL only.
abbrev pub created : Flags → Outcome (Unit {0}) → Outcome (Unit {0})
created flags (ok u) = ok u
created flags (err e) =
    if is_exist (map_err e) then (if flags.excl then err exist else ok tt) else err (map_err e)
created flags panic = panic

module _ {W C : Type 0} (net : Network W C VolumeRef) (link : VolumeRef → Link W) (norm : Norm)
    (sched : ℕ → ℕ → List Chunk) (others : ℕ → State net → State net) (base : Bytes) where
  abbrev pub create_step : Flags → Bytes → VolumeRef → M (Scope W) (Unit {0})
  create_step flags p v s =
      if flags.create
      then (let (o, w) = create_file (link v) norm v.volume root_dir_id p false s.world in
          (created flags o, record s { world = w }))
      else (ok tt, s)

  abbrev pub trunc_step : Flags → VolumeRef → Fork → M (Scope W) (Unit {0})
  trunc_step flags v f =
      if flags.trunc && flags.writable
      then (λ s. mapped (within (truncate (link v) f (pos 0)) s)) >> set_size (pos 0)
      else pure tt

  -- The closure of `OpenFile`.
  unfoldable pub open_body : Flags → Bytes → Option VolumeRef → M (Scope W) (Unit {0})
  open_body flags p none s = (panic, s)
  open_body flags p (some v) s =
      (create_step flags p v
          >> ((λ s. mapped (open_file net link norm sched v s)) >>= λ f.
              set_size (signed64 f.size) >> trunc_step flags v f))
        s

  -- The other goroutines, around a scope.
  abbrev pub around_scope : ℕ → Around net link norm sched → Around net link norm sched
  around_scope k (m, s) = let (m', w) = others k (m, s.world) in (m', record s { world = w })

  abbrev pub at_end : Flags → File → File
  at_end flags f = if flags.append then record f { cursor = f.size } else f

  abbrev pub leave :
      Flags → Outcome (Unit {0}) × Around net link norm sched → Outcome File × State net
  leave flags (ok u, (m, s)) = (ok (at_end flags s.file), (m, s.world))
  leave flags (err e, (m, s)) = (err e, (m, s.world))
  leave flags (panic, (m, s)) = (panic, (m, s.world))

  unfoldable pub open_with : Bytes → Flags → Op net link norm sched others base File
  open_with name flags (m, w) =
      let p = resolve base name in
      leave flags (
        do_op (scoped net link norm sched) (open_body flags p) around_scope
          (m, record { world = w; file = new_file p flags; n = 0; p = [] }))

  abbrev pub create : Bytes → Op net link norm sched others base File
  create name = open_with name create_flags

  abbrev pub open_read : Bytes → Op net link norm sched others base File
  open_read name = open_with name open_flags

  -- `bytes` are the eight random ones.
  abbrev pub temp_file : Bytes → Bytes → Bytes → Op net link norm sched others base File
  temp_file bytes dir prefix = open_with (path_join (dir ∷ (prefix ++ hex bytes) ∷ [])) temp_flags
