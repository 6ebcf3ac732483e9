-- ===== src/Afp/Srp/Honest.antt =====
-- internal/afp/srp.go: an SRP exchange with a server that keeps to the protocol.
use goafp.Base.{ℕ, ◌+◌, ◌*◌, ◌%◌, ◌^◌, ◌≤◌, ◌<◌, ◌≡◌, ◌≢◌, false, [], ◌++◌, arith, ◌==◌, length}
use goafp.Base.Bytes.{Bytes, be, from_be}
use goafp.Base.Outcome.{ok}
use native.Mathlib.Nat.{mod-lt}
use goafp.Afp.Codes.{result_err, res_no_err}
use goafp.Afp.Link.{M, Link}
use goafp.Afp.Session.{login_cont}
use goafp.Afp.Uam.{int_bytes}
use goafp.Afp.Uam.Honest.{left_pad_lem}
use goafp.Afp.Srp.{
  srp_hash_len, srp_key_len, SrpParams, exp_mod, xor_bytes, mgf1_sha1, Proof, proof_message,
  password_key, srp_proof, server_proof, srp_finish, srp_exchange,
}
use goafp.Afp.Srp.Agreement.{server_public, server_secret, client_secret-server_secret}
use goafp.Afp.Srp.Checks.{proof_reply, verify_server-proof_reply}

-- A server that knows the verifier of a password, has the secret number `secret`, and has sent `d`.
module _ (sha1 : Bytes → Bytes) (username password : Bytes) (d : SrpParams) (secret : ℕ) where
  abbrev pub modulus : ℕ
  modulus = from_be d.n_bytes

  abbrev pub generator : ℕ
  generator = from_be d.g_bytes

  abbrev width : ℕ
  width = length d.n_bytes

  abbrev pub verifier : ℕ
  verifier = exp_mod generator (password_key sha1 d.salt username password) modulus

  abbrev multiplier : ℕ
  multiplier = from_be (sha1 (d.n_bytes ++ be width generator))

  -- Its public number B.
  unfoldable pub public_number : ℕ
  public_number = server_public modulus generator multiplier verifier secret

  unfoldable pub scrambler : ℕ → ℕ
  unfolding public_number
  scrambler A = from_be (sha1 (be width A ++ be width public_number))

  -- What it computes from the client's public number.
  unfoldable pub server_view : ℕ → Proof
  unfolding public_number scrambler
  server_view A =
      let key =
        mgf1_sha1 sha1 (int_bytes width (server_secret modulus verifier (scrambler A) secret A))
          srp_key_len in
      let h_n = sha1 (int_bytes width modulus) in
      let h_g = sha1 (int_bytes (length d.g_bytes) generator) in
      let a_bytes = int_bytes width A in
      record {
        a_bytes = a_bytes;
        m1 = sha1 (
            xor_bytes srp_hash_len h_n h_g
            ++ sha1 username
            ++ d.salt
            ++ a_bytes
            ++ int_bytes (length d.b_bytes) public_number
            ++ key);
        key = key;
      }

  module _ (positive : 0 < modulus) (fits : modulus ≤ 256 ^ width) (short : generator < 256 ^ width)
      (sent : from_be d.b_bytes ≡ public_number) where
    srp_proof-server_view :
        (a : ℕ)
        → scrambler (exp_mod generator a modulus) ≢ 0
        → srp_proof sha1 username password d a ≡ ok (server_view (exp_mod generator a modulus))
    unfolding srp_proof server_view scrambler public_number
    srp_proof-server_view a nonzero =
        let A = exp_mod generator a modulus in
        let x = password_key sha1 d.salt username password in
        let u = scrambler A in
        let low : A < 256 ^ width = omega (arith, mod-lt (generator ^ a) positive, fits) in
        let low' : public_number < 256 ^ width = omega (
          arith,
          mod-lt (multiplier * verifier + exp_mod generator secret modulus) positive,
          fits,
        ) in
        let some_u : (u == 0) ≡ false = ground arith in
        let agree =
          client_secret-server_secret modulus generator multiplier x u a secret positive in
        rw (
          sent,
          left_pad_lem generator width short,
          left_pad_lem A width low,
          left_pad_lem public_number width low',
          some_u,
          agree,
        )

    -- Let a server know the verifier of the password and have sent a positive modulus and a
    -- generator that fits in its length, a salt and the number B of its secret; and let it accept
    -- the proof that it computes itself from the client's public number, by SRP-6a, and answer it
    -- with its own proof, of fewer than 65536 bytes. Then the exchange of an SRP login with that
    -- password succeeds, for whatever the random source gives, as long as the scrambler is not 0.
    pub srp_exchange-honest :
        {W : Type 0} (link : Link W) (rand : ℕ → M W Bytes) (a_bytes : Bytes) (w w1 w2 : W)
        → rand width w ≡ (ok a_bytes, w1)
        → scrambler (exp_mod generator (from_be a_bytes % modulus) modulus) ≢ 0
        → ((A : ℕ) → length (server_proof sha1 (server_view A)) < 2 ^ 16)
        → ((A : ℕ)
            → login_cont link d.id (proof_message (server_view A)) w1
              ≡ (ok (proof_reply sha1 (server_view A) [], res_no_err), w2))
        → srp_exchange sha1 link rand username password d w ≡ (ok tt, w2)
    unfolding srp_exchange srp_finish result_err
    srp_exchange-honest link rand a_bytes w w1 w2 draws nonzero small accepts =
        let a = from_be a_bytes % modulus in
        let A = exp_mod generator a modulus in
        rw (
          draws,
          srp_proof-server_view a nonzero,
          accepts A,
          verify_server-proof_reply sha1 (server_view A) [] (small A),
        )
