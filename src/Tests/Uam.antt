-- ===== src/Tests/Uam.antt =====
-- internal/afp/uam.go: DHX2 logins with small servers.
use goafp.Base.{
  true, ℕ, zero, suc, ◌<◌, arith, drop, ◌==◌, ◌+◌, ◌%◌, ◌^◌, length, All-append, if◌then◌else◌, ◌≡◌,
  refl, [], ◌∷◌, ◌++◌, take, replicate,
}
use goafp.Base.Bytes.{Bytes, IsByte, IsBytes, from_be}
use goafp.Base.Outcome.{ok}
use goafp.Dsi.Conn.{Reply}
use goafp.Afp.Text.{same, same_iff}
use goafp.Afp.Codes.{result_err, res_no_err, res_auth_continue, res_user_not_auth}
use goafp.Afp.Link.{M, Link, command, pure}
use goafp.Afp.Session.{login_cont}
use goafp.Afp.Uam.{
  DhParams, dhx_client_iv, long_password, dhx2_exchange, Crypto, int_bytes, right_align, inc_nonce,
  dhx2_finish,
}
use goafp.Afp.Uam.Honest.{nonces_reply, dhx2_exchange-honest}
use goafp.Afp.Uam.Proof.{dhx2_finish-proof}

-- A cipher that changes nothing.
abbrev bare : Crypto
bare = record { md5 = λ b. b; encrypt = λ _ _ b. b; decrypt = λ _ _ b. b }

abbrev fine : Reply
fine = record {
  header = record { flags = 1; command = 2; request_id = 1; err_code = 0; len = 0; reserved = 0 };
  payload = [];
}

abbrev accepts : Link (Unit {0})
accepts = record { request = λ _ _ _ w. (ok fine, w); quantum = 1024; sooner = λ _. true }

abbrev constant : ℕ → M (Unit {0}) Bytes
constant n = pure (replicate n 7)

-- The nonce plus one, and a nonce of the server.
abbrev nonces : Bytes
nonces = replicate 15 7 ++ 8 ∷ replicate 16 3

replicate-IsBytes : (n v : ℕ) → v < 256 → IsBytes (replicate n v)
replicate-IsBytes zero v h = tt
replicate-IsBytes (suc n) v h = (h, replicate-IsBytes n v h)

seven-IsBytes : IsBytes (replicate 16 7)
seven-IsBytes = replicate-IsBytes 16 7 (omega arith)

nonces-IsBytes : IsBytes nonces
nonces-IsBytes =
    All-append IsByte (replicate 15 7) (8 ∷ replicate 16 3) (replicate-IsBytes 15 7 (omega arith))
      (omega arith, replicate-IsBytes 16 3 (omega arith))

dhx2_finish-proof_example :
    (from_be (take 16 nonces) ≡ (from_be (replicate 16 7) + 1) % 2 ^ 128)
    × (next payload : Bytes) × (login_cont accepts 1
          (bare.encrypt [] dhx_client_iv (next ++ long_password (9 ∷ [])))
          tt
        ≡ (ok (payload, res_no_err), tt))
    × (length next ≡ length (drop 16 nonces))
    × (from_be next ≡ (from_be (drop 16 nonces) + 1) % 256 ^ length next)
unfolding dhx2_finish login_cont command result_err same inc_nonce right_align int_bytes
dhx2_finish-proof_example =
    dhx2_finish-proof accepts bare constant [] (replicate 16 7) (9 ∷ []) 1 nonces tt tt
      seven-IsBytes refl nonces-IsBytes refl

-- A server with the secret number 3 in a small group: its numbers, its nonce, the password.
abbrev group : DhParams
group = record { id = 1; g = 2; key_len = 1; p = 23; mb = 8 }

abbrev server_nonce : Bytes
server_nonce = replicate 16 9

abbrev secret_word : Bytes
secret_word = 80 ∷ 81 ∷ []

abbrev coded : ℕ → Bytes → Reply
coded code payload = record {
  header = record {
    flags = 1;
    command = 2;
    request_id = 1;
    err_code = code;
    len = 0;
    reserved = 0;
  };
  payload = payload;
}

-- It checks the last message.
abbrev honest_reply : ℕ → Bytes → Reply
honest_reply id m =
    if id == 1
    then coded res_auth_continue (nonces_reply bare group 3 2 server_nonce m)
    else if same m (inc_nonce server_nonce ++ long_password secret_word)
    then coded res_no_err []
    else coded res_user_not_auth []

abbrev honest : Link (Unit {0})
honest = record {
  request =
      λ _ _ payload w. (ok (honest_reply (from_be (take 2 (drop 2 payload))) (drop 4 payload)), w);
  quantum = 1024;
  sooner = λ _. true;
}

honest_answers :
    (m1 : Bytes)
    → login_cont honest 1 m1 tt
      ≡ (ok (nonces_reply bare group 3 2 server_nonce m1, res_auth_continue), tt)
unfolding login_cont command
honest_answers m1 = refl

honest_lets_in :
    (m1 m3 : Bytes)
    → m3 ≡ inc_nonce server_nonce ++ long_password secret_word
    → (p : Bytes) × (w4 : Unit {0}) × (login_cont honest 2 m3 tt ≡ (ok (p, res_no_err), w4))
unfolding login_cont command
honest_lets_in m1 m3 e =
    let m = inc_nonce server_nonce ++ long_password secret_word in
    ([], tt, rw (e, (same_iff m m).1 refl))

dhx2_exchange-honest_example :
    (w' : Unit {0}) × (dhx2_exchange honest bare constant secret_word group tt ≡ (ok tt, w'))
dhx2_exchange-honest_example =
    dhx2_exchange-honest honest bare constant (λ key iv b h. (refl, refl)) group 3 2 server_nonce
      secret_word (replicate 1 7) (replicate 16 7) tt tt tt (λ m. tt) (omega arith) (omega arith)
      refl (omega arith) (replicate-IsBytes 16 7 (omega arith))
      (replicate-IsBytes 16 9 (omega arith)) refl refl refl refl honest_answers honest_lets_in
