-- ===== src/Afp/Codes.antt =====
-- internal/afp/result.go: command codes, result codes, and the error that a code becomes. A result
-- code is an int32; it stands here as its 32-bit pattern, as in the DSI header.
pub mod Names
pub mod Distinct
use goafp.Base.{ℕ, ◌-◌, ◌^◌, Option, none, some, ◌==◌, if◌then◌else◌}
use goafp.Base.Outcome.{Error, server}

abbrev pub cmd_close_vol : ℕ
cmd_close_vol = 2

abbrev pub cmd_close_fork : ℕ
cmd_close_fork = 4

abbrev pub cmd_create_dir : ℕ
cmd_create_dir = 6

abbrev pub cmd_create_file : ℕ
cmd_create_file = 7

abbrev pub cmd_delete : ℕ
cmd_delete = 8

abbrev pub cmd_get_srvr_parms : ℕ
cmd_get_srvr_parms = 16

abbrev pub cmd_get_vol_parms : ℕ
cmd_get_vol_parms = 17

abbrev pub cmd_login : ℕ
cmd_login = 18

abbrev pub cmd_login_cont : ℕ
cmd_login_cont = 19

abbrev pub cmd_logout : ℕ
cmd_logout = 20

abbrev pub cmd_move_and_rename : ℕ
cmd_move_and_rename = 23

abbrev pub cmd_open_vol : ℕ
cmd_open_vol = 24

abbrev pub cmd_open_fork : ℕ
cmd_open_fork = 26

abbrev pub cmd_set_fork_parms : ℕ
cmd_set_fork_parms = 31

abbrev pub cmd_get_file_dir_parms : ℕ
cmd_get_file_dir_parms = 34

abbrev pub cmd_set_file_dir_parms : ℕ
cmd_set_file_dir_parms = 35

abbrev pub cmd_read_ext : ℕ
cmd_read_ext = 60

abbrev pub cmd_write_ext : ℕ
cmd_write_ext = 61

abbrev pub cmd_enumerate_ext2 : ℕ
cmd_enumerate_ext2 = 68

abbrev pub ResultCode : Type 0
ResultCode = ℕ

-- The pattern of -n.
abbrev pub minus : ℕ → ResultCode
minus n = 2 ^ 32 - n

abbrev pub res_no_err : ResultCode
res_no_err = 0

abbrev pub res_access_denied : ResultCode
res_access_denied = minus 5000

abbrev pub res_auth_continue : ResultCode
res_auth_continue = minus 5001

abbrev pub res_bad_uam : ResultCode
res_bad_uam = minus 5002

abbrev pub res_bad_vers_num : ResultCode
res_bad_vers_num = minus 5003

abbrev pub res_bitmap_err : ResultCode
res_bitmap_err = minus 5004

abbrev pub res_deny_conflict : ResultCode
res_deny_conflict = minus 5006

abbrev pub res_dir_not_empty : ResultCode
res_dir_not_empty = minus 5007

abbrev pub res_disk_full : ResultCode
res_disk_full = minus 5008

abbrev pub res_eof : ResultCode
res_eof = minus 5009

abbrev pub res_file_busy : ResultCode
res_file_busy = minus 5010

abbrev pub res_item_not_found : ResultCode
res_item_not_found = minus 5012

abbrev pub res_lock_err : ResultCode
res_lock_err = minus 5013

abbrev pub res_misc_err : ResultCode
res_misc_err = minus 5014

abbrev pub res_no_server : ResultCode
res_no_server = minus 5016

abbrev pub res_object_exists : ResultCode
res_object_exists = minus 5017

abbrev pub res_object_not_found : ResultCode
res_object_not_found = minus 5018

abbrev pub res_param_err : ResultCode
res_param_err = minus 5019

abbrev pub res_sess_closed : ResultCode
res_sess_closed = minus 5022

abbrev pub res_user_not_auth : ResultCode
res_user_not_auth = minus 5023

abbrev pub res_call_not_supported : ResultCode
res_call_not_supported = minus 5024

abbrev pub res_object_type_err : ResultCode
res_object_type_err = minus 5025

abbrev pub res_too_many_files_open : ResultCode
res_too_many_files_open = minus 5026

abbrev pub res_server_going_down : ResultCode
res_server_going_down = minus 5027

abbrev pub res_dir_not_found : ResultCode
res_dir_not_found = minus 5029

abbrev pub res_vol_locked : ResultCode
res_vol_locked = minus 5031

abbrev pub res_object_locked : ResultCode
res_object_locked = minus 5032

abbrev pub res_pwd_expired_err : ResultCode
res_pwd_expired_err = minus 5042

abbrev pub res_pwd_needs_change_err : ResultCode
res_pwd_needs_change_err = minus 5045

-- `resultErr`: `none` is a nil error.
unfoldable pub result_err : ResultCode → Option Error
result_err code = if code == res_no_err then none else some (server code)
