-- ===== src/Afp/Uam.antt =====
-- internal/afp/uam.go: the DHX2 key exchange. MD5 and CAST5 in CBC mode are parameters, and so is the
-- random source; the numbers of math/big are ℕ.
pub mod Nonce
pub mod Proof
pub mod Honest
use goafp.Base.{
  ℕ, zero, suc, ◌+◌, ◌-◌, ◌*◌, ◌/◌, ◌%◌, ◌^◌, ◌≤◌, ◌<◌, min, ◌≡◌, refl, sym, ap, ◌∙◌, ◌≢◌, ◌↔◌, ◌⊎◌,
  inl, inr, Bool, true, false, not, ◌&&◌, ◌||◌, Option, none, some, List, [], ◌∷◌, ◌++◌, map,
  append-nil, append_assoc, arith, bit_and, bit_or, ltb, leb, ◌==◌, if◌then◌else◌, ltb→lt, ltb→le,
  lt→ltb, le→ltb, ==_iff, Bool-cases, Option-cases, length, get_or, take, drop, replicate, All,
  length-append, take-append-drop, length-take, length-drop, length-replicate, take-append_length,
  drop-append_length, drop-drop, take-append_eq, get_or-append_length, drop-append_eq, All-append,
  take_all,
}
use goafp.Base.Int.{ℤ, pos, negsuc, ◌-ℤ◌, signed32, low32}
use goafp.Base.Bytes.{
  Bytes, IsByte, IsBytes, be, from_be, length-be, be-IsBytes, from_be-be, from_be-lt, be-from_be,
}
use goafp.Base.Outcome.{
  Error, server, truncated, malformed, unsupported, auth_failed, eof, not_exist, permission, exist,
  closed, transport, Outcome, ok, err, panic, NoPanic,
}
use goafp.Afp.Text.{codes, same}
use goafp.Afp.Builder.{pascal}
use goafp.Afp.Reader.{Reader, reader, uint, read, or_empty}
use goafp.Afp.Codes.{ResultCode, result_err, res_auth_continue}
use goafp.Afp.Link.{M, ◌>>=◌, step, lift, pure, check, Link}
use goafp.Afp.Session.{uam_dhx2, login, login_cont}
use goafp.Afp.Volume.{need, bind}

abbrev pub dhx_client_iv : Bytes
dhx_client_iv = codes "LWallace"

abbrev pub dhx_server_iv : Bytes
dhx_server_iv = codes "CJalbert"

abbrev pub dhx2_max_key_len : ℕ
dhx2_max_key_len = 1024

abbrev pub dhx2_nonce_len : ℕ
dhx2_nonce_len = 16

-- `big.Int.Bytes`: the number without leading zeros, with the digits that are left.
unfoldable pub int_bytes : ℕ → ℕ → Bytes
int_bytes zero v = []
int_bytes (suc fuel) v =
    let high = int_bytes fuel (v / 256) in if v == 0 then [] else high ++ (v % 256) ∷ []

-- `leftPad`: `FillBytes` panics on a number that does not fit.
unfoldable pub left_pad : ℕ → ℕ → Outcome Bytes
left_pad v n = if ltb v (256 ^ n) then ok (be n v) else panic

-- `b` at the end of `n` zero bytes, or the last `n` bytes of it.
unfoldable pub right_align : ℕ → Bytes → Bytes
right_align n b =
    if ltb n (length b) then drop (length b - n) b else replicate (n - length b) 0 ++ b

-- A nonce of n bytes plus one has n + 1 bytes at most.
unfoldable pub inc_nonce : Bytes → Bytes
inc_nonce nonce = right_align (length nonce) (int_bytes (length nonce + 1) (from_be nonce + 1))

pub record Crypto : Type 0 where
  pub md5 : Bytes → Bytes
  -- `cbcEncrypt` and `cbcDecrypt`, by the key, the initialization vector and the text.
  pub encrypt : Bytes → Bytes → Bytes → Bytes
  pub decrypt : Bytes → Bytes → Bytes → Bytes

-- What the first reply of the server holds.
pub record DhParams : Type 0 where
  pub id : ℕ
  pub g : ℕ
  pub key_len : ℕ
  pub p : ℕ
  pub mb : ℕ

unfoldable pub parse_dh_params : Bytes → Outcome DhParams
parse_dh_params payload =
    let (id, r1) = uint 2 (reader payload) in
    let (g, r2) = uint 4 r1 in
    let (key_len, r3) = uint 2 r2 in
    let (p, r4) = read key_len r3 in
    let (mb, r5) = read key_len r4 in
    let p' = from_be (or_empty p) in
    if no_error r3.err && (key_len == 0 || ltb dhx2_max_key_len key_len)
    then err malformed
    else bind (need r5) λ _.
      if g == 0 || ltb p' (2 ^ 63)
      then err malformed
      else ok (record { id = id; g = g; key_len = key_len; p = p'; mb = from_be (or_empty mb) })
  where
    no_error : Outcome (Unit {0}) → Bool
    no_error (ok _) = true
    no_error (err e) = false
    no_error panic = false

-- The second reply: the transaction, and the ciphertext of the two nonces.
unfoldable pub parse_nonces : Bytes → Outcome (ℕ × Bytes)
parse_nonces payload =
    let (id, r1) = uint 2 (reader payload) in
    let (ct, r2) = read (dhx2_nonce_len * 2) r1 in bind (need r2) λ _. ok (id, or_empty ct)

-- `resultErr` where AuthContinue is wanted: another code is an error, and NoErr ends the login.
abbrev pub if_continue : {W : Type 0} → ResultCode → M W (Unit {0}) → M W (Unit {0})
if_continue code go_on = if code == res_auth_continue then go_on else check (result_err code)

-- `copy(final[dhx2NonceLen:], password)` into 256 zero bytes.
abbrev pub long_password : Bytes → Bytes
long_password password = take 256 (password ++ replicate 256 0)

module _ {W : Type 0} (link : Link W) (crypto : Crypto) (rand : ℕ → M W Bytes) where
  -- Step 3, once the server has sent the nonces.
  unfoldable pub dhx2_finish : Bytes → Bytes → Bytes → ℕ × Bytes → M W (Unit {0})
  dhx2_finish key nonce password (id, ct) =
      let plain = crypto.decrypt key dhx_server_iv ct in
      if not (same (take dhx2_nonce_len plain) (inc_nonce nonce)) then lift (err malformed) else do
        (_, code) ← login_cont link id (
            crypto.encrypt key dhx_client_iv
              (inc_nonce (drop dhx2_nonce_len plain) ++ long_password password))
        check (result_err code)

  -- Step 2: the client's public number and its nonce.
  unfoldable pub dhx2_exchange : Bytes → DhParams → M W (Unit {0})
  dhx2_exchange password d = do
    ra_bytes ← rand d.key_len
    let ra = from_be ra_bytes
    secret ← lift (left_pad ((d.mb ^ ra) % d.p) d.key_len)
    let key = crypto.md5 secret
    nonce ← rand dhx2_nonce_len
    ma ← lift (left_pad ((d.g ^ ra) % d.p) d.key_len)
    (payload, code) ← login_cont link d.id (ma ++ crypto.encrypt key dhx_client_iv nonce)
    if_continue code (lift (parse_nonces payload) >>= dhx2_finish key nonce password)

  unfoldable pub login_dhx2 : Bytes → Bytes → Bytes → M W (Unit {0})
  login_dhx2 version username password = do
    (payload, code) ← login link version uam_dhx2 (pascal username [])
    if_continue code (lift (parse_dh_params payload) >>= dhx2_exchange password)
