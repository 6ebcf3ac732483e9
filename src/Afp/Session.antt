-- ===== src/Afp/Session.antt =====
-- internal/afp/session.go: negotiation and login. DHX2 and SRP stand as parameters of `login_with`.
pub mod Frames
pub mod Laws
use goafp.Base.{
  ℕ, zero, suc, ◌+◌, ◌-◌, ◌*◌, ◌/◌, ◌%◌, ◌^◌, ◌≤◌, ◌<◌, min, ◌≡◌, refl, sym, ap, ◌∙◌, ◌≢◌, ◌↔◌, ◌⊎◌,
  inl, inr, Bool, true, false, not, ◌&&◌, ◌||◌, Option, none, some, List, [], ◌∷◌, ◌++◌, map,
  append-nil, append_assoc, arith, bit_and, ltb, leb, ◌==◌, if◌then◌else◌, ltb→lt, ltb→le, lt→ltb,
  le→ltb, ==_iff, Bool-cases, Option-cases, length, get_or, take, drop, replicate, All,
  length-append, take-append-drop, length-take, length-drop, length-replicate, take-append_length,
  drop-append_length, drop-drop, take-append_eq, get_or-append_length, drop-append_eq, All-append,
  take_all,
}
use goafp.Base.Bytes.{
  Bytes, IsByte, IsBytes, be, from_be, length-be, be-IsBytes, from_be-be, from_be-lt, be-from_be,
}
use goafp.Base.Outcome.{
  Error, server, truncated, malformed, unsupported, auth_failed, eof, not_exist, permission, exist,
  closed, transport, Outcome, ok, err, panic, NoPanic,
}
use goafp.Afp.Text.{codes, same}
use goafp.Afp.Builder.{◌▷◌, u8, u16, bytes, pascal}
use goafp.Afp.Codes.{ResultCode, result_err, cmd_login, cmd_login_cont, cmd_logout}
use goafp.Afp.ServerInfo.{ServerInfo}
use goafp.Afp.Link.{M, ◌>>=◌, ◌>>◌, lift, pure, check, Link, command, run}

abbrev pub version_preference : List Bytes
version_preference = codes "AFP3.4" ∷ codes "AFP3.3" ∷ codes "AFP3.2" ∷ codes "AFP3.1" ∷ []

-- The set `have` of the source, by its membership test.
unfoldable pub offers : List Bytes → Bytes → Bool
offers [] v = false
offers (x ∷ xs) v = same x v || offers xs v

unfoldable pub first_offered : List Bytes → List Bytes → Outcome Bytes
first_offered [] offered = err unsupported
first_offered (v ∷ vs) offered = if offers offered v then ok v else first_offered vs offered

unfoldable pub pick_version : List Bytes → Outcome Bytes
pick_version offered = first_offered version_preference offered

abbrev pub uam_no_auth : Bytes
uam_no_auth = codes "No User Authent"

abbrev pub uam_cleartext : Bytes
uam_cleartext = codes "Cleartxt Passwrd"

abbrev pub uam_dhx2 : Bytes
uam_dhx2 = codes "DHX2"

abbrev pub uam_srp : Bytes
uam_srp = codes "SRP"

pub data Method : Type 0 where
  guest dhx2 srp cleartext : Method

abbrev pub is_empty : Bytes → Bool
is_empty [] = true
is_empty (c ∷ cs) = false

-- The switch of `Login`.
unfoldable pub choose_method : List Bytes → Bytes → Outcome Method
choose_method uams username =
    if is_empty username
    then (if not (offers uams uam_no_auth) then err unsupported else ok guest)
    else if offers uams uam_dhx2
    then ok dhx2
    else if offers uams uam_srp
    then ok srp
    else if offers uams uam_cleartext
    then ok cleartext
    else err unsupported

-- The payload of FPLogin.
abbrev pub login_request : Bytes → Bytes → Bytes → Bytes
login_request version uam authinfo =
    [] ▷ u8 cmd_login ▷ pascal version ▷ pascal uam ▷ bytes authinfo

module _ {W : Type 0} (link : Link W) where
  unfoldable pub login : Bytes → Bytes → Bytes → M W (Bytes × ResultCode)
  login version uam authinfo = command link (login_request version uam authinfo)

  unfoldable pub login_cont : ℕ → Bytes → M W (Bytes × ResultCode)
  login_cont id authinfo = command link ([] ▷ u8 cmd_login_cont ▷ u8 0 ▷ u16 id ▷ bytes authinfo)

  unfoldable pub logout : M W (Unit {0})
  logout = run link (cmd_logout ∷ 0 ∷ [])

  unfoldable pub login_guest : Bytes → M W (Unit {0})
  login_guest version = do (_, code) ← login version uam_no_auth []; check (result_err code)

-- `copy(pw[:], password)` into eight zero bytes.
abbrev pub password_field : Bytes → Bytes
password_field password = take 8 (password ++ replicate 8 0)

-- The auth info of a cleartext login: the user name, a pad to an even offset, the password field.
unfoldable pub cleartext_authinfo : Bytes → Bytes → Bytes → Bytes
cleartext_authinfo version username password =
    let name = pascal username [] in
    let prefix = 1 + (1 + length version) + (1 + length uam_cleartext) in
    let padded = if (prefix + length name) % 2 == 1 then u8 0 name else name in
    bytes (password_field password) padded

module _ {W : Type 0} (link : Link W) where
  unfoldable pub login_cleartext : Bytes → Bytes → Bytes → M W (Unit {0})
  login_cleartext version username password = do
    (_, code) ← login link version uam_cleartext (cleartext_authinfo version username password)
    check (result_err code)

  -- What each method does. The key exchanges of `loginDHX2` and `loginSRP` are parameters, by the
  -- version, the user name and the password.
  abbrev pub run_method :
      (Bytes → Bytes → Bytes → M W (Unit {0}))
      → (Bytes → Bytes → Bytes → M W (Unit {0}))
      → Method
      → Bytes
      → Bytes
      → Bytes
      → M W (Unit {0})
  run_method login_dhx2 login_srp guest version username password = login_guest link version
  run_method login_dhx2 login_srp dhx2 version username password =
      login_dhx2 version username password
  run_method login_dhx2 login_srp srp version username password =
      login_srp version username password
  run_method login_dhx2 login_srp cleartext version username password =
      login_cleartext version username password

  -- `Login`; the version that it returns is the session's from then on.
  unfoldable pub login_with :
      (Bytes → Bytes → Bytes → M W (Unit {0}))
      → (Bytes → Bytes → Bytes → M W (Unit {0}))
      → ServerInfo
      → Bytes
      → Bytes
      → M W Bytes
  login_with login_dhx2 login_srp info username password = do
    version ← lift (pick_version info.afp_versions)
    method ← lift (choose_method info.uams username)
    run_method login_dhx2 login_srp method version username password
    pure version
