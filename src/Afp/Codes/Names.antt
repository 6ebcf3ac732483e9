-- ===== src/Afp/Codes/Names.antt =====
-- internal/afp/result.go: the texts of the errors that result codes become.
use goafp.Base.{◌-◌, ◌^◌, Option, none, some, List, [], ◌∷◌, ◌++◌, ltb, ◌==◌, if◌then◌else◌}
use goafp.Base.Bytes.{Bytes}
use goafp.Base.Numerals.{decimal}
use goafp.Afp.Text.{codes}
use goafp.Afp.Codes.{
  ResultCode, res_no_err, res_access_denied, res_auth_continue, res_bad_uam, res_bad_vers_num,
  res_bitmap_err, res_deny_conflict, res_dir_not_empty, res_disk_full, res_eof, res_file_busy,
  res_item_not_found, res_lock_err, res_misc_err, res_no_server, res_object_exists,
  res_object_not_found, res_param_err, res_sess_closed, res_user_not_auth, res_call_not_supported,
  res_object_type_err, res_too_many_files_open, res_server_going_down, res_dir_not_found,
  res_vol_locked, res_object_locked, res_pwd_expired_err, res_pwd_needs_change_err,
}

abbrev pub result_names : List (ResultCode × Bytes)
result_names =
    (res_no_err, codes "no error")
    ∷ (res_access_denied, codes "access denied")
    ∷ (res_auth_continue, codes "authentication continues")
    ∷ (res_bad_uam, codes "bad UAM")
    ∷ (res_bad_vers_num, codes "bad AFP version")
    ∷ (res_bitmap_err, codes "bitmap error")
    ∷ (res_deny_conflict, codes "deny conflict")
    ∷ (res_dir_not_empty, codes "directory not empty")
    ∷ (res_disk_full, codes "disk full")
    ∷ (res_eof, codes "end of file")
    ∷ (res_file_busy, codes "file busy")
    ∷ (res_item_not_found, codes "item not found")
    ∷ (res_lock_err, codes "lock error")
    ∷ (res_misc_err, codes "miscellaneous error")
    ∷ (res_no_server, codes "no server")
    ∷ (res_object_exists, codes "object exists")
    ∷ (res_object_not_found, codes "object not found")
    ∷ (res_param_err, codes "parameter error")
    ∷ (res_sess_closed, codes "session closed")
    ∷ (res_user_not_auth, codes "user not authenticated")
    ∷ (res_call_not_supported, codes "call not supported")
    ∷ (res_object_type_err, codes "object type error")
    ∷ (res_too_many_files_open, codes "too many files open")
    ∷ (res_server_going_down, codes "server going down")
    ∷ (res_dir_not_found, codes "directory not found")
    ∷ (res_vol_locked, codes "volume locked")
    ∷ (res_object_locked, codes "object locked")
    ∷ (res_pwd_expired_err, codes "password expired")
    ∷ (res_pwd_needs_change_err, codes "password needs change")
    ∷ []

abbrev pub name_of : ResultCode → List (ResultCode × Bytes) → Option Bytes
name_of code [] = none
name_of code ((c, name) ∷ names) = if c == code then some name else name_of code names

-- `%d` of an int32, which stands here as its pattern.
abbrev pub decimal_int32 : ResultCode → Bytes
decimal_int32 code = if ltb code (2 ^ 31) then decimal code else b'-' ∷ decimal (2 ^ 32 - code)

abbrev pub name_or : Option Bytes → ResultCode → Bytes
name_or (some name) code = name
name_or none code = codes "AFP error " ++ decimal_int32 code

-- `Error.Error`, by the error's fields.
unfoldable pub error_text : Bytes → ResultCode → Bytes
error_text op code =
    codes "afp: " ++ (op ++ (codes ": " ++ name_or (name_of code result_names) code))
