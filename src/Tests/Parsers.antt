-- ===== src/Tests/Parsers.antt =====
-- internal/afp: the decoders, the negotiation and the paths on concrete blocks.
use goafp.Afp.Codes.{minus}
use goafp.Afp.Codes.Names.{error_text}
use goafp.Afp.Codes.Distinct.{error_text-injective}
use goafp.Base.Numerals.{digits_rev}
use goafp.Base.{
  ℕ, ◌+◌, ◌-◌, ◌^◌, ◌<◌, ◌≡◌, refl, true, false, List, [], ◌∷◌, arith, if◌then◌else◌, length, take,
  drop, replicate,
}
use goafp.Base.Bytes.{Bytes}
use goafp.Base.Outcome.{unsupported, ok, err}
use goafp.Afp.Text.{Norm, codes}
use goafp.Afp.Reader.{pascal_at, pascal2_at, slice}
use goafp.Afp.Reader.Bounds.{pascal_at_lem}
use goafp.Afp.Entry.{DirEntry, has, parse_entry_params, long_name_bit}
use goafp.Afp.Entry.Format as Format
use goafp.Afp.Entry.Format.{Params, encode_params, entry_of}
use goafp.Afp.Entry.RoundTrip.{parse_entry_params-encode_params}
use goafp.Afp.ServerInfo.{ServerInfo, parse_server_info}
use goafp.Afp.ServerInfo.Laws.{IsBlock, parse_server_info_lem}
use goafp.Afp.Session.{Method, choose_method, offers, uam_no_auth, uam_cleartext}
use goafp.Afp.Session.Laws.{choose_method_guest}
use goafp.Afp.Volume.{parse_enumerate_reply}
use goafp.Afp.Volume.Enumerate.{Raw, Decodes, encode_reply, parse_enumerate_reply_lem}

abbrev pub plain : Norm
plain = record { nfd = λ s. s; nfc = λ s. s }

-- The node id and the offset of the UTF-8 name.
abbrev pub bitmap : ℕ
bitmap = 0x2100

abbrev pub values : Params
values = record {
  attributes = 0;
  parent_dir_id = 2;
  create_date = 0;
  mod_date = 0;
  backup_date = 0;
  finder = replicate 32 0;
  long_name_offset = 0;
  short_name_offset = 0;
  node_id = 17;
  offspring = 0;
  owner = 0;
  group = 0;
  access = 0;
  data_len = 0;
  rsrc_len = 0;
  ext_data_len = 0;
  launch_limit = 0;
  utf8_offset = 10;
  utf8_pad = 0;
  ext_rsrc_len = 0;
  uid = 0;
  gid = 0;
  permissions = 0;
  ua_permissions = 0;
}

values-IsValid : Format.IsValid values
values-IsValid = record {
  attributes_lt = omega arith;
  parent_dir_id_lt = omega arith;
  create_date_lt = omega arith;
  mod_date_lt = omega arith;
  backup_date_lt = omega arith;
  finder_length = refl;
  long_name_offset_lt = omega arith;
  short_name_offset_lt = omega arith;
  node_id_lt = omega arith;
  offspring_lt = omega arith;
  owner_lt = omega arith;
  group_lt = omega arith;
  access_lt = omega arith;
  data_len_lt = omega arith;
  rsrc_len_lt = omega arith;
  ext_data_len_lt = omega arith;
  launch_limit_lt = omega arith;
  utf8_offset_lt = omega arith;
  utf8_pad_lt = omega arith;
  ext_rsrc_len_lt = omega arith;
  uid_lt = omega arith;
  gid_lt = omega arith;
  permissions_lt = omega arith;
  ua_permissions_lt = omega arith;
}

-- Behind the parameters: the script of the name, its length and "ab".
abbrev pub tail : Bytes
tail = 0 ∷ 0 ∷ 0 ∷ 0 ∷ 0 ∷ 2 ∷ 97 ∷ 98 ∷ []

absent_long :
    has bitmap long_name_bit ≡ true → pascal_at (encode_params bitmap values false tail) 0 ≡ ok []
unfolding has
absent_long h = cc

present_name : pascal2_at (encode_params bitmap values false tail) 14 ≡ ok (97 ∷ 98 ∷ [])
unfolding has pascal2_at slice
present_name = refl

parse_entry_params-encode_params_example :
    parse_entry_params plain (encode_params bitmap values false tail) false bitmap
    ≡ ok (entry_of bitmap values false [] (97 ∷ 98 ∷ []))
parse_entry_params-encode_params_example =
    parse_entry_params-encode_params plain bitmap false values tail [] (97 ∷ 98 ∷ []) values-IsValid
      absent_long (λ _. present_name)

pascal_at_lem_example : pascal_at (1 ∷ 2 ∷ 5 ∷ 6 ∷ 0 ∷ []) 1 ≡ ok (5 ∷ 6 ∷ [])
pascal_at_lem_example = pascal_at_lem (1 ∷ []) (5 ∷ 6 ∷ []) (0 ∷ [])

abbrev only_cleartext : List Bytes
only_cleartext = uam_no_auth ∷ uam_cleartext ∷ []

choose_method_guest_example :
    choose_method only_cleartext []
    ≡ (if offers only_cleartext uam_no_auth then ok Method.guest else err unsupported)
choose_method_guest_example = choose_method_guest only_cleartext

abbrev offered : List Bytes
offered = codes "AFP2.2" ∷ codes "AFP3.3" ∷ []

-- One file with the entry of the test above.
abbrev pub raw_file : Raw
raw_file = record { dir_flag = 0; pad = 0; block = encode_params bitmap values false tail }

block_small : length raw_file.block + 4 < 256 ^ 2
unfolding has
block_small = omega arith

abbrev pub file_entry : DirEntry
file_entry = entry_of bitmap values false [] (97 ∷ 98 ∷ [])

pub raw_file-Decodes : Decodes plain bitmap bitmap (raw_file ∷ []) (file_entry ∷ [])
raw_file-Decodes = (
  block_small,
  omega arith,
  omega arith,
  parse_entry_params-encode_params plain bitmap false values tail [] (97 ∷ 98 ∷ []) values-IsValid
      absent_long (λ _. present_name),
  tt,
)

parse_enumerate_reply_lem_example :
    parse_enumerate_reply plain (encode_reply bitmap bitmap (raw_file ∷ [])) ≡ ok (file_entry ∷ [])
parse_enumerate_reply_lem_example =
    parse_enumerate_reply_lem plain bitmap bitmap (raw_file ∷ []) (file_entry ∷ []) (omega arith)
      (omega arith) (omega arith) raw_file-Decodes

abbrev info : ServerInfo
info = record {
  server_name = 83 ∷ [];
  machine_type = 77 ∷ [];
  afp_versions = (97 ∷ 98 ∷ 99 ∷ []) ∷ [];
  uams = [];
  flags = 3;
}

abbrev info_block : Bytes
info_block =
    0 ∷ 12 ∷ 0 ∷ 14 ∷ 0 ∷ 20 ∷ 0 ∷ 0 ∷ 0 ∷ 3 ∷ 1 ∷ 83 ∷ 1 ∷ 77 ∷ 1 ∷ 3 ∷ 97 ∷ 98 ∷ 99 ∷ 0 ∷ 0 ∷ []

info_block-IsBlock : IsBlock info_block info
info_block-IsBlock = record {
  machine_at = 12;
  versions_at = 14;
  uams_at = 20;
  icon_at = 0;
  after_name = drop 12 info_block;
  before_machine = take 12 info_block;
  after_machine = drop 14 info_block;
  before_versions = take 14 info_block;
  after_versions = drop 19 info_block;
  before_uams = take 20 info_block;
  after_uams = [];
  machine_at_lt = omega arith;
  versions_at_lt = omega arith;
  uams_at_lt = omega arith;
  flags_lt = omega arith;
  versions_there = omega arith;
  uams_there = omega arith;
  machine_place = refl;
  versions_place = refl;
  uams_place = refl;
  name_is = refl;
  machine_is = refl;
  versions_is = refl;
  uams_is = refl;
}

parse_server_info_lem_example : parse_server_info info_block ≡ ok info
parse_server_info_lem_example = parse_server_info_lem info_block info info_block-IsBlock

same_text : error_text (codes "read") (minus 5000) ≡ error_text (codes "read") (2 ^ 32 - 5000)
same_text = refl

error_text-injective_example : minus 5000 ≡ 2 ^ 32 - 5000
error_text-injective_example =
    error_text-injective (codes "read") (minus 5000) (2 ^ 32 - 5000) (omega arith) (omega arith)
      same_text

-- The text of a code that has no name.
unnamed_text : error_text (codes "read") (minus 4242) ≡ codes "afp: read: AFP error -4242"
unfolding error_text digits_rev
unnamed_text = refl
