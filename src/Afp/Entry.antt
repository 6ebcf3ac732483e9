-- ===== src/Afp/Entry.antt =====
-- internal/afp/entry.go: directory entries and the bitmapped parameter block that holds one.
pub mod Format
pub mod RoundTrip
pub mod Bounds
use goafp.Base.{
  ℕ, zero, suc, ◌+◌, ◌-◌, ◌*◌, ◌/◌, ◌%◌, ◌^◌, ◌≤◌, ◌<◌, min, ◌≡◌, refl, sym, ap, ◌∙◌, ◌≢◌, ◌↔◌, ◌⊎◌,
  inl, inr, Bool, true, false, not, ◌&&◌, ◌||◌, Option, none, some, List, [], ◌∷◌, ◌++◌, map,
  append-nil, append_assoc, arith, bit_and, ltb, leb, ◌==◌, if◌then◌else◌, ltb→lt, ltb→le, lt→ltb,
  le→ltb, ==_iff, Bool-cases, Option-cases, length, get_or, take, drop, replicate, All,
  length-append, take-append-drop, length-take, length-drop, length-replicate, take-append_length,
  drop-append_length, drop-drop, take-append_eq, get_or-append_length, drop-append_eq, All-append,
  take_all,
}
use goafp.Base.Bytes.{
  Bytes, IsByte, IsBytes, be, from_be, length-be, be-IsBytes, from_be-be, from_be-lt, be-from_be,
}
use goafp.Base.Outcome.{
  Error, server, truncated, malformed, unsupported, auth_failed, eof, not_exist, permission, exist,
  closed, transport, Outcome, ok, err, panic, ◌>>=◌,
}
use goafp.Base.Int.{ℤ, pos, ◌+ℤ◌, signed32}
use goafp.Afp.Text.{Norm, codes, same}
use goafp.Afp.Builder.{◌▷◌}
use goafp.Afp.Reader.{Reader, reader, read, uint, pascal_at, pascal2_at}

-- Bits of the file and directory bitmaps.
abbrev pub attribute_bit : ℕ
attribute_bit = 0x0001

abbrev pub parent_dir_id_bit : ℕ
parent_dir_id_bit = 0x0002

abbrev pub create_date_bit : ℕ
create_date_bit = 0x0004

abbrev pub mod_date_bit : ℕ
mod_date_bit = 0x0008

abbrev pub backup_date_bit : ℕ
backup_date_bit = 0x0010

abbrev pub finder_info_bit : ℕ
finder_info_bit = 0x0020

abbrev pub long_name_bit : ℕ
long_name_bit = 0x0040

abbrev pub short_name_bit : ℕ
short_name_bit = 0x0080

abbrev pub node_id_bit : ℕ
node_id_bit = 0x0100

abbrev pub utf8_name_bit : ℕ
utf8_name_bit = 0x2000

abbrev pub unix_privs_bit : ℕ
unix_privs_bit = 0x8000

abbrev pub offspring_count_bit : ℕ
offspring_count_bit = 0x0200

abbrev pub owner_id_bit : ℕ
owner_id_bit = 0x0400

abbrev pub group_id_bit : ℕ
group_id_bit = 0x0800

abbrev pub access_rights_bit : ℕ
access_rights_bit = 0x1000

abbrev pub data_fork_len_bit : ℕ
data_fork_len_bit = 0x0200

abbrev pub rsrc_fork_len_bit : ℕ
rsrc_fork_len_bit = 0x0400

abbrev pub ext_data_fork_len_bit : ℕ
ext_data_fork_len_bit = 0x0800

abbrev pub launch_limit_bit : ℕ
launch_limit_bit = 0x1000

abbrev pub ext_rsrc_fork_len_bit : ℕ
ext_rsrc_fork_len_bit = 0x4000

-- `bitmap&bit != 0`.
unfoldable pub has : ℕ → ℕ → Bool
has bitmap bit = not (bit_and bitmap bit == 0)

abbrev pub root_dir_id : ℕ
root_dir_id = 2

pub record UnixPrivs : Type 0 where
  pub uid : ℕ
  pub gid : ℕ
  pub permissions : ℕ

-- Times are seconds of the Unix epoch; `none` is Go's zero time.
pub record DirEntry : Type 0 where
  pub name : Bytes
  pub is_dir : Bool
  pub size : ℕ
  pub node_id : ℕ
  pub parent_dir_id : ℕ
  pub offspring : ℕ
  pub create_time : Option ℤ
  pub mod_time : Option ℤ
  pub unix_privs : UnixPrivs
  pub has_unix : Bool
  pub is_symlink : Bool

abbrev pub afp_epoch_delta : ℕ
afp_epoch_delta = 946684800

unfoldable pub afp_date : ℕ → ℤ
afp_date v = signed32 v +ℤ pos afp_epoch_delta

abbrev pub blank : Bool → DirEntry
blank is_dir = record {
  name = [];
  is_dir = is_dir;
  size = 0;
  node_id = 0;
  parent_dir_id = 0;
  offspring = 0;
  create_time = none;
  mod_time = none;
  unix_privs = record { uid = 0; gid = 0; permissions = 0 };
  has_unix = false;
  is_symlink = false;
}

abbrev pub set_name : Bytes → DirEntry → DirEntry
set_name v e = record e { name = v }

abbrev pub set_size : ℕ → DirEntry → DirEntry
set_size v e = record e { size = v }

abbrev pub set_node_id : ℕ → DirEntry → DirEntry
set_node_id v e = record e { node_id = v }

abbrev pub set_parent_dir_id : ℕ → DirEntry → DirEntry
set_parent_dir_id v e = record e { parent_dir_id = v }

abbrev pub set_offspring : ℕ → DirEntry → DirEntry
set_offspring v e = record e { offspring = v }

abbrev pub set_create_time : ℕ → DirEntry → DirEntry
set_create_time v e = record e { create_time = some (afp_date v) }

abbrev pub set_mod_time : ℕ → DirEntry → DirEntry
set_mod_time v e = record e { mod_time = some (afp_date v) }

abbrev pub set_uid : ℕ → DirEntry → DirEntry
set_uid v e = record e {
  unix_privs = record { uid = v; gid = e.unix_privs.gid; permissions = e.unix_privs.permissions };
}

abbrev pub set_gid : ℕ → DirEntry → DirEntry
set_gid v e = record e {
  unix_privs = record { uid = e.unix_privs.uid; gid = v; permissions = e.unix_privs.permissions };
}

abbrev pub set_permissions : ℕ → DirEntry → DirEntry
set_permissions v e = record e {
  unix_privs = record { uid = e.unix_privs.uid; gid = e.unix_privs.gid; permissions = v };
}

abbrev pub set_has_unix : Bool → DirEntry → DirEntry
set_has_unix v e = record e { has_unix = v }

abbrev pub ignore : ℕ → DirEntry → DirEntry
ignore v e = e

-- A file whose Finder type is "slnk" is a symbolic link.
abbrev pub note_finder_info : Bytes → DirEntry → DirEntry
note_finder_info fi e =
    if leb 4 (length fi) && same (take 4 fi) (codes "slnk")
    then record e { is_symlink = true }
    else e

-- The variables of `parseEntryParams`.
pub record Parse : Type 0 where
  pub e : DirEntry
  pub r : Reader

-- `if … { … }` without an else.
abbrev pub when {ℓ} : {A : Type ℓ} → Bool → (A → A) → A → A
when b f p = if b then f p else p

-- A number of `k` bytes, and what is done with it.
unfoldable pub load : ℕ → (ℕ → DirEntry → DirEntry) → Parse → Parse
load k put p = let (v, r') = uint k p.r in record { e = put v p.e; r = r' }

abbrev pub or_empty : Option Bytes → Bytes
or_empty none = []
or_empty (some v) = v

unfoldable pub finder_info : Parse → Parse
finder_info p =
    let (fi, r') = read 32 p.r in record { e = note_finder_info (or_empty fi) p.e; r = r' }

abbrev pub named : Parse → Outcome Bytes → Outcome Parse
named p name = do v ← name; ok (record { e = set_name v p.e; r = p.r })

-- `if r.err == nil { … }` in front of a name.
abbrev pub if_no_error : Outcome (Unit {0}) → Parse → Outcome Parse → Outcome Parse
if_no_error (ok _) p m = m
if_no_error (err e) p m = ok p
if_no_error panic p m = panic

unfoldable pub long_name : Bytes → Parse → Outcome Parse
long_name block p =
    let off = (uint 2 p.r).0 in
    let p' = load 2 ignore p in if_no_error p'.r.err p' (named p' (pascal_at block off))

abbrev pub to_nfc : Norm → Outcome Bytes → Outcome Bytes
to_nfc norm name = do v ← name; ok (norm.nfc v)

-- The offset points at a text-encoding hint of four bytes, which stands before the string.
unfoldable pub utf8_name : Norm → Bytes → Parse → Outcome Parse
utf8_name norm block p =
    let off = (uint 2 p.r).0 in
    let p' = p ▷ load 2 ignore ▷ load 4 ignore in
    if_no_error p'.r.err p' (named p' (to_nfc norm (pascal2_at block (off + 4))))

unfoldable pub dates_and_flags : ℕ → Parse → Parse
dates_and_flags bitmap p =
    p
    ▷ when (has bitmap attribute_bit) (load 2 ignore)
    ▷ when (has bitmap parent_dir_id_bit) (load 4 set_parent_dir_id)
    ▷ when (has bitmap create_date_bit) (load 4 set_create_time)
    ▷ when (has bitmap mod_date_bit) (load 4 set_mod_time)
    ▷ when (has bitmap backup_date_bit) (load 4 ignore)
    ▷ when (has bitmap finder_info_bit) finder_info

unfoldable pub dir_fields : ℕ → Parse → Parse
dir_fields bitmap p =
    p
    ▷ when (has bitmap offspring_count_bit) (load 2 set_offspring)
    ▷ when (has bitmap owner_id_bit) (load 4 set_uid)
    ▷ when (has bitmap group_id_bit) (load 4 set_gid)
    ▷ when (has bitmap access_rights_bit) (load 4 ignore)

unfoldable pub file_fields : ℕ → Parse → Parse
file_fields bitmap p =
    p
    ▷ when (has bitmap data_fork_len_bit) (load 4 set_size)
    ▷ when (has bitmap rsrc_fork_len_bit) (load 4 ignore)
    ▷ when (has bitmap ext_data_fork_len_bit) (load 8 set_size)
    ▷ when (has bitmap launch_limit_bit) (load 2 ignore)

unfoldable pub middle_fields : Bool → ℕ → Parse → Parse
middle_fields is_dir bitmap p =
    p
    ▷ when (has bitmap short_name_bit) (load 2 ignore)
    ▷ when (has bitmap node_id_bit) (load 4 set_node_id)
    ▷ (if is_dir then dir_fields bitmap else file_fields bitmap)

abbrev pub has_not_failed : Reader → Bool
has_not_failed r = elim r.err [ ok _ ↦ true | err _ ↦ false | panic ↦ false ]

unfoldable pub unix_fields : Parse → Parse
unix_fields p =
    let p' = p ▷ load 4 set_uid ▷ load 4 set_gid ▷ load 4 set_permissions ▷ load 4 ignore in
    record { e = set_has_unix (has_not_failed p'.r) p'.e; r = p'.r }

unfoldable pub last_fields : Bool → ℕ → Parse → Parse
last_fields is_dir bitmap p =
    p
    ▷ when (has bitmap ext_rsrc_fork_len_bit && not is_dir) (load 8 ignore)
    ▷ when (has bitmap unix_privs_bit) unix_fields

abbrev pub when_ok : Bool → (Parse → Outcome Parse) → Parse → Outcome Parse
when_ok b f p = if b then f p else ok p

-- `return e, r.err`.
abbrev pub finish : Parse → Outcome DirEntry
finish p = do _ ← p.r.err; ok p.e

unfoldable pub parse_entry_params : Norm → Bytes → Bool → ℕ → Outcome DirEntry
parse_entry_params norm block is_dir bitmap = do
  let p0 = dates_and_flags bitmap (record { e = blank is_dir; r = reader block })
  p1 ← when_ok (has bitmap long_name_bit) (long_name block) p0
  p2 ← when_ok (has bitmap utf8_name_bit) (utf8_name norm block) (middle_fields is_dir bitmap p1)
  finish (last_fields is_dir bitmap p2)
