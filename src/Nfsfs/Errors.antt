-- ===== src/Nfsfs/Errors.antt =====
-- internal/nfsfs/fs.go: the errors of AFP as the os sentinels.
use goafp.Base.{Bool, true, false, ◌||◌, ◌==◌, if◌then◌else◌}
use goafp.Base.Outcome.{Error, server, not_exist, permission, exist, Outcome, ok, err, panic}
use goafp.Afp.Codes.{
  ResultCode, res_access_denied, res_item_not_found, res_object_exists, res_object_not_found,
  res_user_not_auth, res_dir_not_found,
}

abbrev pub sentinel : ResultCode → Error
sentinel code =
    if code == res_object_not_found || (code == res_dir_not_found || code == res_item_not_found)
    then not_exist
    else if code == res_access_denied || code == res_user_not_auth
    then permission
    else if code == res_object_exists
    then exist
    else server code

-- `mapErr`, on an error that is not nil.
unfoldable pub map_err : Error → Error
map_err (server code) = sentinel code
map_err e = e

-- `errors.Is(e, os.ErrExist)`.
abbrev pub is_exist : Error → Bool
is_exist exist = true
is_exist e = false

abbrev pub map_outcome : {A : Type 0} → Outcome A → Outcome A
map_outcome (ok a) = ok a
map_outcome (err e) = err (map_err e)
map_outcome panic = panic
