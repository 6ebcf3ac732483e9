-- ===== src/Afp/Entry/Format.antt =====
-- The format of a parameter block as the protocol lays it out: the parameters that the bitmap
-- names, in the order of its bits, each of a fixed width. It is stated with no reader in sight.
use goafp.Base.{ℕ, ◌^◌, ◌<◌, ◌≡◌, Bool, true, false, not, ◌&&◌, [], ◌++◌, if◌then◌else◌, length}
use goafp.Base.Bytes.{Bytes, be}
use goafp.Afp.Builder.{◌▷◌}
use goafp.Afp.Entry.{
  has, attribute_bit, parent_dir_id_bit, create_date_bit, mod_date_bit, backup_date_bit,
  finder_info_bit, long_name_bit, short_name_bit, node_id_bit, utf8_name_bit, unix_privs_bit,
  offspring_count_bit, owner_id_bit, group_id_bit, access_rights_bit, data_fork_len_bit,
  rsrc_fork_len_bit, ext_data_fork_len_bit, launch_limit_bit, ext_rsrc_fork_len_bit, DirEntry,
  blank, set_name, set_size, set_node_id, set_parent_dir_id, set_offspring, set_create_time,
  set_mod_time, set_uid, set_gid, set_permissions, set_has_unix, note_finder_info, when,
}

-- The values of all the parameters that a block may hold.
pub record Params : Type 0 where
  pub attributes : ℕ
  pub parent_dir_id : ℕ
  pub create_date : ℕ
  pub mod_date : ℕ
  pub backup_date : ℕ
  pub finder : Bytes
  pub long_name_offset : ℕ
  pub short_name_offset : ℕ
  pub node_id : ℕ
  pub offspring : ℕ
  pub owner : ℕ
  pub group : ℕ
  pub access : ℕ
  pub data_len : ℕ
  pub rsrc_len : ℕ
  pub ext_data_len : ℕ
  pub launch_limit : ℕ
  pub utf8_offset : ℕ
  pub utf8_pad : ℕ
  pub ext_rsrc_len : ℕ
  pub uid : ℕ
  pub gid : ℕ
  pub permissions : ℕ
  pub ua_permissions : ℕ

-- Each value fits its width.
pub record IsValid (v : Params) : Type 0 where
  pub attributes_lt : v.attributes < 256 ^ 2
  pub parent_dir_id_lt : v.parent_dir_id < 256 ^ 4
  pub create_date_lt : v.create_date < 256 ^ 4
  pub mod_date_lt : v.mod_date < 256 ^ 4
  pub backup_date_lt : v.backup_date < 256 ^ 4
  pub finder_length : length v.finder ≡ 32
  pub long_name_offset_lt : v.long_name_offset < 256 ^ 2
  pub short_name_offset_lt : v.short_name_offset < 256 ^ 2
  pub node_id_lt : v.node_id < 256 ^ 4
  pub offspring_lt : v.offspring < 256 ^ 2
  pub owner_lt : v.owner < 256 ^ 4
  pub group_lt : v.group < 256 ^ 4
  pub access_lt : v.access < 256 ^ 4
  pub data_len_lt : v.data_len < 256 ^ 4
  pub rsrc_len_lt : v.rsrc_len < 256 ^ 4
  pub ext_data_len_lt : v.ext_data_len < 256 ^ 8
  pub launch_limit_lt : v.launch_limit < 256 ^ 2
  pub utf8_offset_lt : v.utf8_offset < 256 ^ 2
  pub utf8_pad_lt : v.utf8_pad < 256 ^ 4
  pub ext_rsrc_len_lt : v.ext_rsrc_len < 256 ^ 8
  pub uid_lt : v.uid < 256 ^ 4
  pub gid_lt : v.gid < 256 ^ 4
  pub permissions_lt : v.permissions < 256 ^ 4
  pub ua_permissions_lt : v.ua_permissions < 256 ^ 4

-- Present or absent.
abbrev pub opt : Bool → Bytes → Bytes
opt b v = if b then v else []

module _ (bm : ℕ) (v : Params) where
  abbrev pub encode_dates : Bytes → Bytes
  encode_dates rest =
      opt (has bm attribute_bit) (be 2 v.attributes)
      ++ (opt (has bm parent_dir_id_bit) (be 4 v.parent_dir_id)
          ++ (opt (has bm create_date_bit) (be 4 v.create_date)
              ++ (opt (has bm mod_date_bit) (be 4 v.mod_date)
                  ++ (opt (has bm backup_date_bit) (be 4 v.backup_date)
                      ++ (opt (has bm finder_info_bit) v.finder ++ rest)))))

  abbrev pub encode_dir : Bytes → Bytes
  encode_dir rest =
      opt (has bm offspring_count_bit) (be 2 v.offspring)
      ++ (opt (has bm owner_id_bit) (be 4 v.owner)
          ++ (opt (has bm group_id_bit) (be 4 v.group)
              ++ (opt (has bm access_rights_bit) (be 4 v.access) ++ rest)))

  abbrev pub encode_file : Bytes → Bytes
  encode_file rest =
      opt (has bm data_fork_len_bit) (be 4 v.data_len)
      ++ (opt (has bm rsrc_fork_len_bit) (be 4 v.rsrc_len)
          ++ (opt (has bm ext_data_fork_len_bit) (be 8 v.ext_data_len)
              ++ (opt (has bm launch_limit_bit) (be 2 v.launch_limit) ++ rest)))

  abbrev pub encode_kind : Bool → Bytes → Bytes
  encode_kind true rest = encode_dir rest
  encode_kind false rest = encode_file rest

  abbrev pub encode_middle : Bool → Bytes → Bytes
  encode_middle is_dir rest =
      opt (has bm short_name_bit) (be 2 v.short_name_offset)
      ++ (opt (has bm node_id_bit) (be 4 v.node_id) ++ encode_kind is_dir rest)

  abbrev pub encode_unix : Bytes → Bytes
  encode_unix rest =
      be 4 v.uid ++ (be 4 v.gid ++ (be 4 v.permissions ++ (be 4 v.ua_permissions ++ rest)))

  abbrev pub encode_last : Bool → Bytes → Bytes
  encode_last is_dir rest =
      opt (has bm ext_rsrc_fork_len_bit && not is_dir) (be 8 v.ext_rsrc_len)
      ++ (if has bm unix_privs_bit then encode_unix rest else rest)

  -- The whole block: the parameters, and whatever follows them, the names among it.
  abbrev pub encode_params : Bool → Bytes → Bytes
  encode_params is_dir rest = encode_dates (
      opt (has bm long_name_bit) (be 2 v.long_name_offset)
      ++ encode_middle is_dir (
          (if has bm utf8_name_bit
            then be 2 v.utf8_offset ++ (be 4 v.utf8_pad ++ encode_last is_dir rest)
            else encode_last is_dir rest)))

  abbrev pub dates_of : DirEntry → DirEntry
  dates_of e =
      e
      ▷ when (has bm parent_dir_id_bit) (set_parent_dir_id v.parent_dir_id)
      ▷ when (has bm create_date_bit) (set_create_time v.create_date)
      ▷ when (has bm mod_date_bit) (set_mod_time v.mod_date)
      ▷ when (has bm finder_info_bit) (note_finder_info v.finder)

  abbrev pub kind_of : Bool → DirEntry → DirEntry
  kind_of true e =
      e
      ▷ when (has bm offspring_count_bit) (set_offspring v.offspring)
      ▷ when (has bm owner_id_bit) (set_uid v.owner)
      ▷ when (has bm group_id_bit) (set_gid v.group)
  kind_of false e =
      e
      ▷ when (has bm data_fork_len_bit) (set_size v.data_len)
      ▷ when (has bm ext_data_fork_len_bit) (set_size v.ext_data_len)

  abbrev pub middle_of : Bool → DirEntry → DirEntry
  middle_of is_dir e = kind_of is_dir (when (has bm node_id_bit) (set_node_id v.node_id) e)

  abbrev pub unix_of : DirEntry → DirEntry
  unix_of e = e ▷ set_uid v.uid ▷ set_gid v.gid ▷ set_permissions v.permissions ▷ set_has_unix true

  -- What the parameters say of the entry; the long name and then the UTF-8 name are looked up.
  abbrev pub entry_of : Bool → Bytes → Bytes → DirEntry
  entry_of is_dir long name =
      blank is_dir
      ▷ dates_of
      ▷ when (has bm long_name_bit) (set_name long)
      ▷ middle_of is_dir
      ▷ when (has bm utf8_name_bit) (set_name name)
      ▷ when (has bm unix_privs_bit) unix_of
