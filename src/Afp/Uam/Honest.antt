-- ===== src/Afp/Uam/Honest.antt =====
-- internal/afp/uam.go: a DHX2 exchange with a server that keeps to the protocol.
use goafp.Base.{
  ℕ, ◌%◌, ◌^◌, ◌≤◌, ◌<◌, ◌≡◌, refl, sym, ap, ◌∙◌, [], ◌++◌, arith, append-nil, length, take, drop,
  replicate, lt→ltb, length-append, length-take, length-replicate, take-append_eq, drop-append_eq,
}
use goafp.Base.Bytes.{Bytes, IsBytes, be, from_be, length-be, from_be-be}
use goafp.Base.Outcome.{ok}
use goafp.Base.Modular.{pow-mod, pow-pow_comm}
use native.Mathlib.Nat.{mod-lt}
use mathlib.Core.Path.{ap₂, subst}
use goafp.Afp.Text.{same_iff}
use goafp.Afp.Codes.{result_err, res_no_err, res_auth_continue}
use goafp.Afp.Link.{M, Link}
use goafp.Afp.Reader.{reader}
use goafp.Afp.Reader.Ahead.{Ahead, moved, Ahead-reader, Ahead-moved, read_lem, uint_lem}
use goafp.Afp.Session.{login_cont}
use goafp.Afp.Uam.{
  Crypto, DhParams, dhx_client_iv, dhx_server_iv, dhx2_nonce_len, left_pad, inc_nonce,
  long_password, parse_nonces, dhx2_finish, dhx2_exchange,
}
use goafp.Afp.Uam.Nonce.{inc_nonce_lem}

parse_nonces_lem :
    (id : ℕ) (ct : Bytes)
    → id < 2 ^ 16
    → length ct ≡ 32
    → parse_nonces (be 2 id ++ ct) ≡ ok (id, ct)
unfolding parse_nonces
parse_nonces_lem id ct small size =
    let r = reader (be 2 id ++ ct) in
    let a = Ahead-reader (be 2 id ++ ct) in
    let a1 = Ahead-moved 2 r (be 2 id) ct (length-be 2 id) a in
    let a1' : Ahead (moved 2 r) (ct ++ []) = subst (Ahead (moved 2 r)) (sym (append-nil ct)) a1 in
    rw (uint_lem 2 r id ct (omega (arith, small)) a, read_lem 32 (moved 2 r) ct [] size a1')

length-long_password : (password : Bytes) → length (long_password password) ≡ 256
length-long_password password = omega (
  arith,
  length-take 256 (password ++ replicate 256 0),
  length-append password (replicate 256 0),
  length-replicate {A = ℕ} 256 0,
)

pub left_pad_lem : (v n : ℕ) → v < 256 ^ n → left_pad v n ≡ ok (be n v)
unfolding left_pad
left_pad_lem v n h = rw (lt→ltb v (256 ^ n) h)

-- A server with the secret number `b`, which has sent g^b mod p: its session key, from the number
-- in the client's message; and its answer to that message, with a nonce of its own.
module _ (crypto : Crypto) (d : DhParams) (b id2 : ℕ) (sn : Bytes) where
  unfoldable pub server_key : Bytes → Bytes
  server_key m1 = crypto.md5 (be d.key_len ((from_be (take d.key_len m1) ^ b) % d.p))

  unfoldable pub nonces_reply : Bytes → Bytes
  unfolding server_key
  nonces_reply m1 =
      let key = server_key m1 in
      let nonce = crypto.decrypt key dhx_client_iv (drop d.key_len m1) in
      be 2 id2 ++ crypto.encrypt key dhx_server_iv (inc_nonce nonce ++ sn)

module _ {W : Type 0} (link : Link W) (crypto : Crypto) (rand : ℕ → M W Bytes)
    (ciphers : (key iv b : Bytes)
      → length b % 8 ≡ 0
      → (crypto.decrypt key iv (crypto.encrypt key iv b) ≡ b)
        × (length (crypto.encrypt key iv b) ≡ length b)) where
  finish_lem :
      (key nonce sn password p : Bytes) (id : ℕ) (w w' : W)
      → IsBytes nonce
      → IsBytes sn
      → length nonce ≡ 16
      → length sn ≡ 16
      → login_cont link id
          (crypto.encrypt key dhx_client_iv (inc_nonce sn ++ long_password password))
          w
        ≡ (ok (p, res_no_err), w')
      → dhx2_finish link crypto rand key nonce password
          (id, crypto.encrypt key dhx_server_iv (inc_nonce nonce ++ sn))
          w
        ≡ (ok tt, w')
  unfolding dhx2_finish result_err
  finish_lem key nonce sn password p id w w' bn bs ln ls sent =
      let size = (inc_nonce_lem nonce bn).0 ∙ ln in
      let (plain, _) =
        ciphers key dhx_server_iv (inc_nonce nonce ++ sn)
          (omega (arith, length-append (inc_nonce nonce) sn, size)) in
      rw (
        plain,
        take-append_eq 16 (inc_nonce nonce) sn size,
        drop-append_eq 16 (inc_nonce nonce) sn size,
        (same_iff (inc_nonce nonce) (inc_nonce nonce)).1 refl,
        sent,
      )

  module _ (d : DhParams) (b id2 : ℕ) (sn : Bytes) where
    module _ (positive : 0 < d.p) (fits : d.p ≤ 256 ^ d.key_len) (public : d.mb ≡ (d.g ^ b) % d.p)
        (ra : ℕ) where
      client_key : Bytes
      client_key = crypto.md5 (be d.key_len ((d.mb ^ ra) % d.p))

      ma : Bytes
      ma = be d.key_len ((d.g ^ ra) % d.p)

      below : (v : ℕ) → v % d.p < 256 ^ d.key_len
      below v = omega (arith, mod-lt v positive, fits)

      -- Both have g^(a*b) mod p.
      server_key-client_key : (c : Bytes) → server_key crypto d b id2 sn (ma ++ c) ≡ client_key
      unfolding server_key client_key ma
      server_key-client_key c =
          let n = (d.g ^ ra) % d.p in
          let sent : from_be (take d.key_len (be d.key_len n ++ c)) ≡ n =
            ap from_be (take-append_eq d.key_len (be d.key_len n) c (length-be d.key_len n))
            ∙ from_be-be d.key_len n (below (d.g ^ ra)) in
          ap (λ v. crypto.md5 (be d.key_len v))
            (ap (λ v. (v ^ b) % d.p) sent
              ∙ pow-mod (d.g ^ ra) b d.p
              ∙ ap (λ v. v % d.p) (pow-pow_comm d.g ra b)
              ∙ sym (pow-mod (d.g ^ b) ra d.p)
              ∙ ap (λ v. (v ^ ra) % d.p) (sym public))

      nonces_reply_lem :
          (nonce : Bytes)
          → length nonce ≡ 16
          → nonces_reply crypto d b id2 sn (ma ++ crypto.encrypt client_key dhx_client_iv nonce)
            ≡ be 2 id2 ++ crypto.encrypt client_key dhx_server_iv (inc_nonce nonce ++ sn)
      unfolding nonces_reply ma
      nonces_reply_lem nonce size =
          let c = crypto.encrypt client_key dhx_client_iv nonce in
          let same_key = server_key-client_key c in
          let rest : drop d.key_len (ma ++ c) ≡ c =
            drop-append_eq d.key_len ma c (length-be d.key_len ((d.g ^ ra) % d.p)) in
          let (plain, _) = ciphers client_key dhx_client_iv nonce (omega (arith, size)) in
          ap₂ (λ k n. be 2 id2 ++ crypto.encrypt k dhx_server_iv (inc_nonce n ++ sn)) same_key
            (ap₂ (λ k m. crypto.decrypt k dhx_client_iv m) same_key rest ∙ plain)

    -- Let a server have a positive modulus p that fits in the length of its numbers, let it have
    -- sent g^b mod p, and let it keep to the protocol: it answers the client's number and nonce,
    -- under the key from the client's number and b, with the nonce plus one and a nonce of 16
    -- bytes of its own, and lets in what deciphers to that nonce plus one and the padded password.
    -- Let the cipher undo itself on whole blocks and keep lengths, and the random source give its
    -- bytes. Then the DHX2 exchange succeeds.
    pub dhx2_exchange-honest :
        (password ra_bytes nonce : Bytes) (w w1 w2 : W) (w3 : Bytes → W)
        → 0 < d.p
        → d.p ≤ 256 ^ d.key_len
        → d.mb ≡ (d.g ^ b) % d.p
        → id2 < 2 ^ 16
        → IsBytes nonce
        → IsBytes sn
        → length nonce ≡ 16
        → length sn ≡ 16
        → rand d.key_len w ≡ (ok ra_bytes, w1)
        → rand dhx2_nonce_len w1 ≡ (ok nonce, w2)
        → ((m1 : Bytes)
            → login_cont link d.id m1 w2
              ≡ (ok (nonces_reply crypto d b id2 sn m1, res_auth_continue), w3 m1))
        → ((m1 m3 : Bytes)
            → crypto.decrypt (server_key crypto d b id2 sn m1) dhx_client_iv m3
              ≡ inc_nonce sn ++ long_password password
            → (p : Bytes) × (w4 : W) × (login_cont link id2 m3 (w3 m1) ≡ (ok (p, res_no_err), w4)))
        → (w' : W) × (dhx2_exchange link crypto rand password d w ≡ (ok tt, w'))
    unfolding dhx2_exchange client_key ma
    dhx2_exchange-honest password ra_bytes nonce w w1 w2 w3 positive fits public small bn bs ln ls
          draws draws_nonce answers lets_in =
        let ra = from_be ra_bytes in
        let key = client_key positive fits public ra in
        let c = crypto.encrypt key dhx_client_iv nonce in
        let m1 = ma positive fits public ra ++ c in
        let ct = crypto.encrypt key dhx_server_iv (inc_nonce nonce ++ sn) in
        let (_, size) =
          ciphers key dhx_server_iv (inc_nonce nonce ++ sn) (
            omega
              (arith, length-append (inc_nonce nonce) sn, (inc_nonce_lem nonce bn).0, ln, ls)) in
        let m3 = crypto.encrypt key dhx_client_iv (inc_nonce sn ++ long_password password) in
        let (opened, _) = ciphers key dhx_client_iv (inc_nonce sn ++ long_password password) (
          omega (
            arith,
            length-append (inc_nonce sn) (long_password password),
            (inc_nonce_lem sn bs).0,
            ls,
            length-long_password password,
          )) in
        let same_key = server_key-client_key positive fits public ra c in
        let (p, w4, done) =
          lets_in m1 m3 (ap (λ k. crypto.decrypt k dhx_client_iv m3) same_key ∙ opened) in
        let reply =
          answers m1
          ∙ ap (λ v. (ok (v, res_auth_continue), w3 m1))
              (nonces_reply_lem positive fits public ra nonce ln) in
        let parsed = parse_nonces_lem id2 ct small (
          size
          ∙ omega
              (arith, length-append (inc_nonce nonce) sn, (inc_nonce_lem nonce bn).0, ln, ls)) in
        (
          w4,
          rw
              (
                draws,
                left_pad_lem ((d.mb ^ ra) % d.p) d.key_len
                    (below positive fits public ra (d.mb ^ ra)),
                draws_nonce,
                left_pad_lem ((d.g ^ ra) % d.p) d.key_len
                    (below positive fits public ra (d.g ^ ra)),
                reply,
                parsed,
              )
              (finish_lem key nonce sn password p id2 (w3 m1) w4 bn bs ln ls done),
        )
