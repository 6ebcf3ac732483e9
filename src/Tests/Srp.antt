-- ===== src/Tests/Srp.antt =====
-- internal/afp/srp.go: a login over the group of 23, with a small hash.
use goafp.Base.{
  true, ℕ, zero, suc, ◌+◌, ◌%◌, ◌<◌, ◌≡◌, ◌≢◌, ◌↔◌, ◌⊎◌, refl, [], ◌∷◌, ◌++◌, arith, length,
  replicate, take,
}
use goafp.Base.Bytes.{Bytes, IsByte, IsBytes, be}
use goafp.Base.Outcome.{ok}
use goafp.Dsi.Conn.{Reply}
use goafp.Afp.Text.{codes, same}
use goafp.Afp.Builder.{pascal}
use goafp.Afp.Codes.{res_auth_continue, res_no_err, result_err}
use goafp.Afp.Link.{M, Link, command, pure}
use goafp.Afp.Reader.{uint, read, fail}
use goafp.Afp.Session.{uam_srp, login, login_cont}
use goafp.Afp.Uam.{left_pad, int_bytes}
use goafp.Afp.Srp.{
  SrpParams, proof_message, parse_srp_params, client_secret, xor_bytes, mgf1_blocks, mgf1_sha1,
  Proof, srp_proof, verify_server, srp_finish, srp_exchange, login_srp, exp_mod,
}
use goafp.Afp.Srp.Agreement.{server_public, server_secret, client_secret-server_secret}
use goafp.Afp.Srp.Stretched.{hash_stream, mgf1_sha1-hash_stream}
use goafp.Afp.Srp.Checks.{proof_reply, verify_server_iff}
use goafp.Afp.Srp.Honest.{public_number, scrambler, server_view, srp_exchange-honest}
use goafp.Afp.Srp.Logins.{Proven, login_srp-Proven}
use goafp.Tests.Files.{with_code}

abbrev hash : Bytes → Bytes
hash b = replicate 19 0 ++ (length b % 5 + 1) ∷ []

client_secret-server_secret_example :
    client_secret 23 5 3 6 4 7 (server_public 23 5 3 (exp_mod 5 6 23) 9)
    ≡ server_secret 23 (exp_mod 5 6 23) 4 9 (exp_mod 5 7 23)
client_secret-server_secret_example = client_secret-server_secret 23 5 3 6 4 7 9 (omega arith)

mgf1_sha1-hash_stream_example :
    (mgf1_sha1 hash (9 ∷ []) 40 ≡ take 40 (hash_stream hash (9 ∷ []) 40 0))
    × (length (mgf1_sha1 hash (9 ∷ []) 40) ≡ 40)
mgf1_sha1-hash_stream_example = mgf1_sha1-hash_stream hash (λ b. omega arith) (9 ∷ []) 40

abbrev proof : Proof
proof = record { a_bytes = 5 ∷ []; m1 = replicate 20 1; key = replicate 40 2 }

-- A hash of one byte.
abbrev short_hash : Bytes → Bytes
short_hash b = length b % 256 ∷ []

byte : (n : ℕ) → n < 256 → IsByte n
byte n h = h

reply-IsBytes : IsBytes (proof_reply short_hash proof (7 ∷ []))
reply-IsBytes = (
  byte 0 (omega arith),
  (
    byte 4 (omega arith),
    (
      byte 0 (omega arith),
      (byte 1 (omega arith), (byte 61 (omega arith), (byte 7 (omega arith), tt))),
    ),
  ),
)

verify_server_iff_example :
    (verify_server short_hash proof (proof_reply short_hash proof (7 ∷ [])) ≡ ok tt)
    ↔ ((rest : Bytes) × (proof_reply short_hash proof (7 ∷ []) ≡ proof_reply short_hash proof rest))
verify_server_iff_example =
    verify_server_iff short_hash proof (proof_reply short_hash proof (7 ∷ [])) reply-IsBytes
      (omega arith)

-- The first request gets the group, a salt and B; the second a proof.
abbrev answer : ℕ → Reply
answer zero =
    with_code res_auth_continue
      (be 2 9 ++ be 2 2 ++ be 2 1 ++ 23 ∷ be 2 1 ++ 5 ∷ be 2 2 ++ 1 ∷ 2 ∷ be 2 1 ++ 11 ∷ [])
answer (suc w) = with_code res_no_err (be 2 4 ++ be 2 20 ++ replicate 19 0 ++ 2 ∷ [])

abbrev server : Link ℕ
server = record { request = λ _ _ _ w. (ok (answer w), w + 1); quantum = 1024; sooner = λ _. true }

abbrev rand : ℕ → M ℕ Bytes
rand n = pure (replicate n 7)

login_srp-Proven_example :
    ((payload : Bytes) × (login server (codes "AFP3.4") uam_srp (pascal (codes "me") []) 0
        ≡ (ok (payload, res_no_err), 2)))
    ⊎ Proven hash server rand (codes "AFP3.4") (codes "me") (codes "pw") 0 2
unfolding login_srp login login_cont command result_err parse_srp_params uint read fail srp_exchange
    srp_finish srp_proof left_pad client_secret mgf1_sha1 mgf1_blocks xor_bytes int_bytes
    verify_server same
login_srp-Proven_example =
    login_srp-Proven hash server rand (codes "AFP3.4") (codes "me") (codes "pw") 0 2 refl

-- A hash that is always the same.
abbrev flat_hash : Bytes → Bytes
flat_hash b = replicate 19 0 ++ 1 ∷ []

-- What a server with the secret number 3 sends.
abbrev params : SrpParams
params = record {
  id = 9;
  n_bytes = 23 ∷ [];
  g_bytes = 5 ∷ [];
  salt = 1 ∷ 2 ∷ [];
  b_bytes = 15 ∷ [];
}

abbrev honest : Link ℕ
honest = record {
  request = λ _ _ _ w. (ok (with_code res_no_err (proof_reply flat_hash proof [])), w + 1);
  quantum = 1024;
  sooner = λ _. true;
}

numbers : 15 ≡ public_number flat_hash (codes "u") (codes "p") params 3
unfolding public_number
numbers = refl

some_scrambler : (A : ℕ) → scrambler flat_hash (codes "u") (codes "p") params 3 A ≢ 0
unfolding scrambler
some_scrambler A e = omega (arith, e)

accepts :
    (A : ℕ)
    → login_cont honest 9
        (proof_message (server_view flat_hash (codes "u") (codes "p") params 3 A))
        0
      ≡ (
        ok (
          proof_reply flat_hash (server_view flat_hash (codes "u") (codes "p") params 3 A) [],
          res_no_err,
        ),
        1,
      )
unfolding login_cont command
accepts A = refl

srp_exchange-honest_example :
    srp_exchange flat_hash honest rand (codes "u") (codes "p") params 0 ≡ (ok tt, 1)
srp_exchange-honest_example =
    srp_exchange-honest flat_hash (codes "u") (codes "p") params 3 (omega arith) (omega arith)
      (omega arith) numbers honest rand (7 ∷ []) 0 0 1 refl (some_scrambler _) (λ A. omega arith)
      accepts
