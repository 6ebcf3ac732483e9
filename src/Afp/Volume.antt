-- ===== src/Afp/Volume.antt =====
-- internal/afp/session.go, ops.go, setparams.go: an open volume and the commands on its files and
-- directories.
pub mod Listing
pub mod Enumerate
pub mod Paths
use goafp.Base.{
  ℕ, zero, suc, ◌+◌, ◌-◌, ◌*◌, ◌/◌, ◌%◌, ◌^◌, ◌≤◌, ◌<◌, min, ◌≡◌, refl, sym, ap, ◌∙◌, ◌≢◌, ◌↔◌, ◌⊎◌,
  inl, inr, Bool, true, false, not, ◌&&◌, ◌||◌, Option, none, some, List, [], ◌∷◌, ◌++◌, map,
  append-nil, append_assoc, arith, bit_and, bit_or, ltb, leb, ◌==◌, if◌then◌else◌, ltb→lt, ltb→le,
  lt→ltb, le→ltb, ==_iff, Bool-cases, Option-cases, length, get_or, take, drop, replicate, All,
  length-append, take-append-drop, length-take, length-drop, length-replicate, take-append_length,
  drop-append_length, drop-drop, take-append_eq, get_or-append_length, drop-append_eq, All-append,
  take_all,
}
use goafp.Base.Int.{ℤ, pos, negsuc, ◌-ℤ◌, signed32, low32}
use goafp.Base.Bytes.{
  Bytes, IsByte, IsBytes, be, from_be, length-be, be-IsBytes, from_be-be, from_be-lt, be-from_be,
}
use goafp.Base.Outcome.{
  Error, server, truncated, malformed, unsupported, auth_failed, eof, not_exist, permission, exist,
  closed, transport, Outcome, ok, err, panic, NoPanic,
}
use goafp.Afp.Text.{Norm, slash, trim}
use goafp.Afp.Builder.{◌▷◌, u8, u16, u32, u64, bytes, pascal, even_pad, path}
use goafp.Afp.Reader.{Reader, reader, uint, read}
use goafp.Afp.Reader as Reading
use goafp.Afp.Codes.{
  ResultCode, result_err, res_no_err, res_object_not_found, cmd_get_srvr_parms, cmd_open_vol,
  cmd_close_vol, cmd_enumerate_ext2, cmd_get_file_dir_parms, cmd_create_file, cmd_create_dir,
  cmd_delete, cmd_move_and_rename, cmd_set_file_dir_parms, cmd_get_vol_parms,
}
use goafp.Afp.Entry.{
  has, parent_dir_id_bit, create_date_bit, mod_date_bit, node_id_bit, utf8_name_bit,
  ext_data_fork_len_bit, finder_info_bit, offspring_count_bit, unix_privs_bit, DirEntry,
  afp_epoch_delta, parse_entry_params,
}
use goafp.Afp.Link.{M, ◌>>=◌, ◌>>◌, lift, pure, check, Link, command, run, ask}

pub record VolumeInfo : Type 0 where
  pub name : Bytes
  pub has_password : Bool

-- `if r.err != nil { return …, r.err }`.
abbrev pub need : Reader → Outcome (Unit {0})
need r = elim r.err [ ok u ↦ ok u | err e ↦ err e | panic ↦ panic ]

abbrev pub bind : {A B : Type 0} → Outcome A → (A → Outcome B) → Outcome B
bind (ok a) f = f a
bind (err e) f = err e
bind panic f = panic

-- The loop of `ListVolumes`, with the rounds that are left.
unfoldable pub read_volumes : ℕ → Reader → List VolumeInfo → Outcome (List VolumeInfo)
read_volumes zero r vols = ok vols
read_volumes (suc n) r vols =
    let (flags, r') = uint 1 r in
    let (name, r'') = Reading.pascal r' in
    bind (need r'')
      λ _. read_volumes n r'' (vols ++ (record { name = name; has_password = has flags 0x80 }) ∷ [])

-- The reply of FPGetSrvrParms up to the sort by name.
unfoldable pub parse_volumes : Bytes → Outcome (List VolumeInfo)
parse_volumes payload =
    let (_, r) = uint 4 (reader payload) in let (n, r') = uint 1 r in read_volumes n r' []

abbrev pub vol_attribute_bit : ℕ
vol_attribute_bit = 0x0001

abbrev pub vol_id_bit : ℕ
vol_id_bit = 0x0020

abbrev pub vol_ext_bytes_free_bit : ℕ
vol_ext_bytes_free_bit = 0x0200

abbrev pub vol_ext_bytes_total_bit : ℕ
vol_ext_bytes_total_bit = 0x0400

abbrev pub vol_block_size_bit : ℕ
vol_block_size_bit = 0x0800

abbrev pub vol_attr_supports_unix : ℕ
vol_attr_supports_unix = 0x20

pub record Volume : Type 0 where
  pub id : ℕ
  pub name : Bytes
  pub attributes : ℕ

unfoldable pub supports_unix_privs : Volume → Bool
supports_unix_privs v = has v.attributes vol_attr_supports_unix

-- The reply of FPOpenVol: the bitmap, then the parameters that it names, in the order of its bits.
unfoldable pub parse_volume : Bytes → Bytes → Outcome Volume
parse_volume name payload =
    let (bitmap, r) = uint 2 (reader payload) in
    let (attributes, r') = if has bitmap vol_attribute_bit then uint 2 r else (0, r) in
    let (id, r'') = if has bitmap vol_id_bit then uint 2 r' else (0, r') in
    bind (need r'') λ _. ok (record { id = id; name = name; attributes = attributes })

unfoldable pub file_bitmap : Volume → ℕ
file_bitmap v =
    let base =
      parent_dir_id_bit + create_date_bit + mod_date_bit + node_id_bit + utf8_name_bit
      + ext_data_fork_len_bit + finder_info_bit in
    if supports_unix_privs v then bit_or base unix_privs_bit else base

unfoldable pub dir_bitmap : Volume → ℕ
dir_bitmap v =
    let base =
      parent_dir_id_bit + create_date_bit + mod_date_bit + node_id_bit + utf8_name_bit
      + offspring_count_bit in
    if supports_unix_privs v then bit_or base unix_privs_bit else base

abbrev pub enumerate_batch : ℕ
enumerate_batch = 512

abbrev pub enumerate_reply_size : ℕ
enumerate_reply_size = 256 * 1024

-- The loop of `parseEnumerateReply`, with the rounds that are left.
unfoldable pub read_entries : Norm → ℕ → ℕ → ℕ → Reader → List DirEntry → Outcome (List DirEntry)
read_entries norm fb db zero r entries = ok entries
read_entries norm fb db (suc n) r entries =
    let (len, r1) = uint 2 r in
    let (dir_flag, r2) = uint 1 r1 in
    let (_, r3) = uint 1 r2 in
    let is_dir = not (dir_flag == 0) in
    bind (need r3) λ _.
      if ltb len 4
      then err malformed
      else (let (block, r4) = read (len - 4) r3 in
          bind (need r4) λ _.
            bind
              (parse_entry_params norm (Reading.or_empty block) is_dir (if is_dir then db else fb))
              λ e. read_entries norm fb db n r4 (entries ++ e ∷ []))

unfoldable pub parse_enumerate_reply : Norm → Bytes → Outcome (List DirEntry)
parse_enumerate_reply norm payload =
    let (fb, r1) = uint 2 (reader payload) in
    let (db, r2) = uint 2 r1 in
    let (count, r3) = uint 2 r2 in bind (need r3) λ _. read_entries norm fb db count r3 []

-- The reply of FPGetFileDirParms.
unfoldable pub parse_stat_reply : Norm → Bytes → Outcome DirEntry
parse_stat_reply norm payload =
    let (fb, r1) = uint 2 (reader payload) in
    let (db, r2) = uint 2 r1 in
    let (dir_flag, r3) = uint 1 r2 in
    let (_, r4) = uint 1 r3 in
    let is_dir = not (dir_flag == 0) in
    bind (need r4)
      λ _. parse_entry_params norm (drop r4.pos payload) is_dir (if is_dir then db else fb)

pub record FsInfo : Type 0 where
  pub total_bytes : ℕ
  pub free_bytes : ℕ
  pub block_size : ℕ

-- The reply of FPGetVolParms.
unfoldable pub parse_fs_info : Bytes → Outcome FsInfo
parse_fs_info payload =
    let (_, r1) = uint 2 (reader payload) in
    let (free, r2) = uint 8 r1 in
    let (total, r3) = uint 8 r2 in
    let (size, r4) = uint 4 r3 in
    bind (need r4) λ _. ok (record { total_bytes = total; free_bytes = free; block_size = size })

-- `strings.LastIndex(p, "/")` splits the path: what stands before the last slash, if there is one,
-- and what stands behind it.
abbrev pub extend : ℕ → Option Bytes → Bytes → Option Bytes × Bytes
extend c (some dir) base = (some (c ∷ dir), base)
extend c none base = if c == slash then (some [], base) else (none, c ∷ base)

unfoldable pub split_last : Bytes → Option Bytes × Bytes
split_last [] = (none, [])
split_last (c ∷ cs) = let (dir, base) = split_last cs in extend c dir base

abbrev pub or_root : Option Bytes → Bytes → Bytes × Bytes
or_root (some dir) base = (dir, base)
or_root none base = ([], base)

unfoldable pub split_path : Bytes → Bytes × Bytes
split_path p = let (dir, base) = split_last (trim p) in or_root dir base

abbrev pub create_soft : ℕ
create_soft = 0x00

abbrev pub create_hard : ℕ
create_hard = 0x80

-- Payloads of requests on a path: command, flag, volume and directory.
abbrev pub on_volume : ℕ → ℕ → Volume → ℕ → Bytes
on_volume cmd flag v dir_id = [] ▷ u8 cmd ▷ u8 flag ▷ u16 v.id ▷ u32 dir_id

unfoldable pub write_params_header : Norm → Volume → ℕ → ℕ → Bytes → Bytes
write_params_header norm v bitmap dir_id p =
    on_volume cmd_set_file_dir_parms 0 v dir_id ▷ u16 bitmap ▷ path norm p ▷ even_pad

abbrev pub non_empty : List DirEntry → Option (List DirEntry)
non_empty [] = none
non_empty (e ∷ es) = some (e ∷ es)

-- The end of the loop of `ReadDir`, or its next round.
abbrev pub go_on :
    {W : Type 0}
    → (ℕ → List DirEntry → M W (Option (List DirEntry)))
    → ℕ
    → List DirEntry
    → Option (List DirEntry)
    → M W (Option (List DirEntry))
go_on again start all none = pure (some all)
go_on again start all (some entries) = again ((start + length entries) % 2 ^ 32) (all ++ entries)

module _ {W : Type 0} (link : Link W) (norm : Norm) where
  unfoldable pub list_volumes : (List VolumeInfo → List VolumeInfo) → M W (List VolumeInfo)
  list_volumes sort = do
    payload ← ask link (cmd_get_srvr_parms ∷ 0 ∷ [])
    vols ← lift (parse_volumes payload)
    pure (sort vols)

  unfoldable pub open_volume : Bytes → M W Volume
  open_volume name = do
    payload ←
        ask link ([] ▷ u8 cmd_open_vol ▷ u8 0 ▷ u16 (vol_attribute_bit + vol_id_bit) ▷ pascal name)
    lift (parse_volume name payload)

  unfoldable pub close_volume : Volume → M W (Unit {0})
  close_volume v = run link ([] ▷ u8 cmd_close_vol ▷ u8 0 ▷ u16 v.id)

  abbrev pub enumerate_request : Volume → ℕ → Bytes → ℕ → Bytes
  enumerate_request v dir_id p start =
      on_volume cmd_enumerate_ext2 0 v dir_id
      ▷ u16 (file_bitmap v)
      ▷ u16 (dir_bitmap v)
      ▷ u16 enumerate_batch
      ▷ u32 start
      ▷ u32 enumerate_reply_size
      ▷ path norm p

  -- One round of the loop of `ReadDir`: `none` ends it.
  unfoldable pub next_batch : Volume → ℕ → Bytes → ℕ → M W (Option (List DirEntry))
  next_batch v dir_id p start = do
    (payload, code) ← command link (enumerate_request v dir_id p start)
    if code == res_object_not_found then pure none else do
      check (result_err code)
      entries ← lift (parse_enumerate_reply norm payload)
      pure (non_empty entries)

  -- `ReadDir`, by rounds; `none` is no Go result: the fuel ran out. `start` is a uint32.
  unfoldable pub read_dir_from :
      ℕ → Volume → ℕ → Bytes → ℕ → List DirEntry → M W (Option (List DirEntry))
  read_dir_from zero v dir_id p start all = pure none
  read_dir_from (suc fuel) v dir_id p start all = do
    batch ← next_batch v dir_id p start
    go_on (read_dir_from fuel v dir_id p) start all batch

  abbrev pub read_dir : ℕ → Volume → ℕ → Bytes → M W (Option (List DirEntry))
  read_dir fuel v dir_id p = read_dir_from fuel v dir_id p 1 []

  unfoldable pub stat : Volume → ℕ → Bytes → M W DirEntry
  stat v dir_id p = do
    payload ← ask link (
        on_volume cmd_get_file_dir_parms 0 v dir_id
        ▷ u16 (file_bitmap v)
        ▷ u16 (dir_bitmap v)
        ▷ path norm p)
    lift (parse_stat_reply norm payload)

  unfoldable pub create_file : Volume → ℕ → Bytes → Bool → M W (Unit {0})
  create_file v dir_id p overwrite = run link (
      on_volume cmd_create_file (if overwrite then create_hard else create_soft) v dir_id
      ▷ path norm p)

  unfoldable pub mkdir : Volume → ℕ → Bytes → M W (Unit {0})
  mkdir v dir_id p = run link (on_volume cmd_create_dir 0 v dir_id ▷ path norm p)

  unfoldable pub delete : Volume → ℕ → Bytes → M W (Unit {0})
  delete v dir_id p = run link (on_volume cmd_delete 0 v dir_id ▷ path norm p)

  unfoldable pub rename : Volume → ℕ → Bytes → Bytes → M W (Unit {0})
  rename v dir_id from to =
      let (dest_dir, new_name) = split_path to in
      run link (
        on_volume cmd_move_and_rename 0 v dir_id
        ▷ u32 dir_id
        ▷ path norm from
        ▷ path norm dest_dir
        ▷ path norm new_name)

  unfoldable pub set_unix_privs : Volume → ℕ → Bytes → ℕ → ℕ → ℕ → M W (Unit {0})
  set_unix_privs v dir_id p uid gid mode =
      run link
        (write_params_header norm v unix_privs_bit dir_id p ▷ u32 uid ▷ u32 gid ▷ u32 mode ▷ u32 0)

  -- The date is the Unix time of `mtime`.
  unfoldable pub set_mod_time : Volume → ℕ → Bytes → ℤ → M W (Unit {0})
  set_mod_time v dir_id p mtime = run link (
      write_params_header norm v mod_date_bit dir_id p ▷ u32 (low32 (mtime -ℤ pos afp_epoch_delta)))

  unfoldable pub stat_fs : Volume → M W FsInfo
  stat_fs v = do
    payload ← ask link (
        []
        ▷ u8 cmd_get_vol_parms
        ▷ u8 0
        ▷ u16 v.id
        ▷ u16 (vol_ext_bytes_free_bit + vol_ext_bytes_total_bit + vol_block_size_bit))
    lift (parse_fs_info payload)
