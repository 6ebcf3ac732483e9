-- ===== src/Afp/Srp.antt =====
-- internal/afp/srp.go: the SRP-6a login. SHA-1 and the random source are parameters; the numbers of
-- math/big are ℕ, and `Bytes` of one is `int_bytes` at the length of the modulus, or of the number
-- as the server sent it.
pub mod Agreement
pub mod Stretched
pub mod Checks
pub mod Logins
pub mod Honest
use goafp.Base.{
  ℕ, zero, suc, ◌+◌, ◌-◌, ◌*◌, ◌/◌, ◌%◌, ◌^◌, ◌≤◌, ◌<◌, min, ◌≡◌, refl, sym, ap, ◌∙◌, ◌≢◌, ◌↔◌, ◌⊎◌,
  inl, inr, Bool, true, false, not, ◌&&◌, ◌||◌, Option, none, some, List, [], ◌∷◌, ◌++◌, map,
  append-nil, append_assoc, arith, bit_and, bit_or, ltb, leb, ◌==◌, if◌then◌else◌, ltb→lt, ltb→le,
  lt→ltb, le→ltb, ==_iff, Bool-cases, Option-cases, length, get_or, take, drop, replicate, All,
  length-append, take-append-drop, length-take, length-drop, length-replicate, take-append_length,
  drop-append_length, drop-drop, take-append_eq, get_or-append_length, drop-append_eq, All-append,
  take_all,
}
use Prim.Native.Nat.{bit_xor}
use goafp.Base.Int.{ℤ, pos, negsuc, ◌-ℤ◌, signed32, low32}
use goafp.Base.Bytes.{
  Bytes, IsByte, IsBytes, be, from_be, length-be, be-IsBytes, from_be-be, from_be-lt, be-from_be,
}
use goafp.Base.Outcome.{
  Error, server, truncated, malformed, unsupported, auth_failed, eof, not_exist, permission, exist,
  closed, transport, Outcome, ok, err, panic, NoPanic,
}
use goafp.Afp.Text.{codes, same}
use goafp.Afp.Codes.{ResultCode, result_err}
use goafp.Afp.Builder.{pascal, u16, bytes, ◌▷◌}
use goafp.Afp.Reader.{Reader, reader, uint, read, or_empty}
use goafp.Afp.Link.{M, ◌>>=◌, ◌>>◌, step, lift, pure, check, Link}
use goafp.Afp.Session.{uam_srp, login, login_cont}
use goafp.Afp.Volume.{need, bind}
use goafp.Afp.Uam.{int_bytes, left_pad, if_continue}

abbrev pub srp_client_proof : ℕ
srp_client_proof = 3

abbrev pub srp_server_proof : ℕ
srp_server_proof = 4

abbrev pub srp_hash_len : ℕ
srp_hash_len = 20

-- The length of K.
abbrev pub srp_key_len : ℕ
srp_key_len = 40

-- What the first reply of the server holds.
pub record SrpParams : Type 0 where
  pub id : ℕ
  pub n_bytes : Bytes
  pub g_bytes : Bytes
  pub salt : Bytes
  pub b_bytes : Bytes

-- A field after its length in two bytes.
abbrev pub sized : Reader → Option Bytes × Reader
sized r = let (n, r') = uint 2 r in read n r'

unfoldable pub parse_srp_params : Bytes → Outcome SrpParams
parse_srp_params payload =
    let (id, r1) = uint 2 (reader payload) in
    let (_, r2) = uint 2 r1 in
    let (n_bytes, r3) = sized r2 in
    let (g_bytes, r4) = sized r3 in
    let (salt, r5) = sized r4 in
    let (b_bytes, r6) = sized r5 in
    bind (need r6) λ _.
      if from_be (or_empty n_bytes) == 0 || from_be (or_empty b_bytes) == 0
      then err malformed
      else ok (record {
        id = id;
        n_bytes = or_empty n_bytes;
        g_bytes = or_empty g_bytes;
        salt = or_empty salt;
        b_bytes = or_empty b_bytes;
      })

-- `Exp` modulo a positive number.
abbrev pub exp_mod : ℕ → ℕ → ℕ → ℕ
exp_mod g k n = (g ^ k) % n

-- S = (B - k*g^x)^(a + u*x) mod N. `Mod` of a negative difference is not negative: what is taken
-- away is less than a whole multiple of N.
unfoldable pub client_secret : ℕ → ℕ → ℕ → ℕ → ℕ → ℕ → ℕ → ℕ
client_secret n g k x u a b =
    let kgx = k * exp_mod g x n in let base = (b + (n - kgx % n)) % n in exp_mod base (a + u * x) n

-- `hN[i] ^ hg[i]` for the first bytes.
unfoldable pub xor_bytes : ℕ → Bytes → Bytes → Bytes
xor_bytes zero a b = []
xor_bytes (suc n) a b = bit_xor (get_or a 0 0) (get_or b 0 0) ∷ xor_bytes n (drop 1 a) (drop 1 b)

-- Blocks of the hash of the seed and a counter, until there is enough; `fuel` bounds their count.
unfoldable pub mgf1_blocks : (Bytes → Bytes) → Bytes → ℕ → ℕ → ℕ → Bytes → Bytes
mgf1_blocks sha1 seed out_len zero c out = out
mgf1_blocks sha1 seed out_len (suc fuel) c out =
    let more = mgf1_blocks sha1 seed out_len fuel (c + 1) (out ++ sha1 (seed ++ be 4 c)) in
    if ltb (length out) out_len then more else out

unfoldable pub mgf1_sha1 : (Bytes → Bytes) → Bytes → ℕ → Bytes
mgf1_sha1 sha1 seed out_len = take out_len (mgf1_blocks sha1 seed out_len out_len 0 [])

-- What the client holds once it has sent its proof.
pub record Proof : Type 0 where
  pub a_bytes : Bytes
  pub m1 : Bytes
  pub key : Bytes

-- The second message: A and M1.
abbrev pub proof_message : Proof → Bytes
proof_message p =
    []
    ▷ u16 srp_client_proof
    ▷ u16 (length p.a_bytes)
    ▷ bytes p.a_bytes
    ▷ u16 srp_hash_len
    ▷ bytes p.m1

module _ (sha1 : Bytes → Bytes) where
  -- The secret x of the password.
  abbrev pub password_key : Bytes → Bytes → Bytes → ℕ
  password_key salt username password =
      from_be (sha1 (salt ++ sha1 (username ++ codes ":" ++ password)))

  -- A, M1 and K, for the secret number `a` of the client.
  unfoldable pub srp_proof : Bytes → Bytes → SrpParams → ℕ → Outcome Proof
  srp_proof username password d a =
      let n = from_be d.n_bytes in
      let g = from_be d.g_bytes in
      let b = from_be d.b_bytes in
      let width = length d.n_bytes in
      let A = exp_mod g a n in
      let x = password_key d.salt username password in
      bind (left_pad g width) λ g_pad. bind (left_pad A width) λ a_pad.
        bind (left_pad b width) λ b_pad.
          let k = from_be (sha1 (d.n_bytes ++ g_pad)) in
          let u = from_be (sha1 (a_pad ++ b_pad)) in
          if u == 0
          then err malformed
          else let secret = client_secret n g k x u a b in
            let key = mgf1_sha1 sha1 (int_bytes width secret) srp_key_len in
            let h_n = sha1 (int_bytes width n) in
            let h_g = sha1 (int_bytes (length d.g_bytes) g) in
            let a_bytes = int_bytes width A in
            let m1 = sha1 (
              xor_bytes srp_hash_len h_n h_g
              ++ sha1 username
              ++ d.salt
              ++ a_bytes
              ++ int_bytes (length d.b_bytes) b
              ++ key) in
            ok (record { a_bytes = a_bytes; m1 = m1; key = key })

  -- M2 = H(strip(A) | M1 | K).
  abbrev pub server_proof : Proof → Bytes
  server_proof p = sha1 (p.a_bytes ++ p.m1 ++ p.key)

  -- The server's proof, in the last reply. A step marker that is cut short reads as 0.
  unfoldable pub verify_server : Proof → Bytes → Outcome (Unit {0})
  verify_server p payload =
      let (marker, r1) = uint 2 (reader payload) in
      if not (marker == srp_server_proof)
      then err malformed
      else let (m2, r2) = sized r1 in
        bind (need r2) λ _. if same (or_empty m2) (server_proof p) then ok tt else err malformed

  module _ {W : Type 0} (link : Link W) (rand : ℕ → M W Bytes) where
    -- Step 2, and the check of its reply.
    unfoldable pub srp_finish : ℕ → Proof → M W (Unit {0})
    srp_finish id p = do
      (payload, code) ← login_cont link id (proof_message p)
      check (result_err code)
      lift (verify_server p payload)

    unfoldable pub srp_exchange : Bytes → Bytes → SrpParams → M W (Unit {0})
    srp_exchange username password d = do
      a_bytes ← rand (length d.n_bytes)
      p ← lift (srp_proof username password d (from_be a_bytes % from_be d.n_bytes))
      srp_finish d.id p

    unfoldable pub login_srp : Bytes → Bytes → Bytes → M W (Unit {0})
    login_srp version username password = do
      (payload, code) ← login link version uam_srp (pascal username [])
      if_continue code (lift (parse_srp_params payload) >>= srp_exchange username password)
