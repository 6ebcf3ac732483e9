-- ===== src/Afp/Uam/Proof.antt =====
-- internal/afp/uam.go: what the end of a DHX2 login asks of the server.
use goafp.Base.{ℕ, ◌+◌, ◌%◌, ◌^◌, ◌≡◌, sym, ap, ◌∙◌, inl, inr, ◌++◌, Bool-cases, length, take, drop}
use goafp.Base.Bytes.{Bytes, IsBytes, from_be, drop-IsBytes}
use goafp.Base.Outcome.{malformed, Outcome, ok, err}
use mathlib.Core.Path.{ap₂}
use goafp.Afp.Text.{same, same_iff}
use goafp.Afp.Codes.{result_err, res_no_err}
use goafp.Afp.Link.{M, check, Link}
use goafp.Afp.Link.Results.{seq-ok, check-ok}
use goafp.Afp.Session.{login_cont}
use goafp.Afp.Uam.{
  Crypto, dhx_server_iv, dhx_client_iv, dhx2_nonce_len, inc_nonce, long_password, dhx2_finish,
}
use goafp.Afp.Uam.Nonce.{inc_nonce_lem}

module _ {W : Type 0} (link : Link W) (crypto : Crypto) (rand : ℕ → M W Bytes) where
  -- Let the client's nonce be 16 bytes, and let decryption give bytes. A DHX2 login succeeds, once
  -- the server has sent the block of the two nonces, only if the first 16 bytes of the block,
  -- deciphered under the session key, spell the client's nonce plus one modulo 2^128, and the
  -- server answers with no error a last message that enciphers, under the same key, a string as
  -- long as the rest of the block that spells the number of that rest plus one, modulo 256 to the
  -- power of its length, and behind it the password, cut or filled with zeros to 256 bytes.
  pub dhx2_finish-proof :
      (key nonce password : Bytes) (id : ℕ) (ct : Bytes) (w w' : W)
      → IsBytes nonce
      → length nonce ≡ 16
      → IsBytes (crypto.decrypt key dhx_server_iv ct)
      → dhx2_finish link crypto rand key nonce password (id, ct) w ≡ (ok tt, w')
      → (from_be (take 16 (crypto.decrypt key dhx_server_iv ct)) ≡ (from_be nonce + 1) % 2 ^ 128)
        × (next payload : Bytes) × (login_cont link id
              (crypto.encrypt key dhx_client_iv (next ++ long_password password))
              w
            ≡ (ok (payload, res_no_err), w'))
        × (length next ≡ length (drop 16 (crypto.decrypt key dhx_server_iv ct)))
        × (from_be next
            ≡ (from_be (drop 16 (crypto.decrypt key dhx_server_iv ct)) + 1) % 256 ^ length next)
  unfolding dhx2_finish
  dhx2_finish-proof key nonce password id ct w w' nb size pb h =
      let plain = crypto.decrypt key dhx_server_iv ct in
      elim (Bool-cases (same (take dhx2_nonce_len plain) (inc_nonce nonce))) [
        | inl proved ↦
            let mine = inc_nonce_lem nonce nb in
            let theirs = inc_nonce_lem (drop 16 plain) (drop-IsBytes 16 plain pb) in
            let ((payload, code), w1, sent, h1) =
              seq-ok
                (login_cont link id (
                  crypto.encrypt key dhx_client_iv
                    (inc_nonce (drop 16 plain) ++ long_password password)))
                (λ (_, code). check (result_err code)) w tt w' (rw proved at h) in
            let (fine, same_w) = check-ok code w1 w' h1 in
            (
              ap from_be ((same_iff (take 16 plain) (inc_nonce nonce)).0 proved)
                  ∙ mine.1
                  ∙ ap (λ n. (from_be nonce + 1) % 256 ^ n) size,
              inc_nonce (drop 16 plain),
              payload,
              sent ∙ ap₂ (λ c v. (ok (payload, c), v)) fine same_w,
              theirs.0,
              theirs.1 ∙ ap (λ n. (from_be (drop 16 plain) + 1) % 256 ^ n) (sym theirs.0),
            )
        | inr unproved ↦
            let refused : ◌≡◌ {A = Outcome (Unit {0}) × W} (err malformed, w) (ok tt, w') =
              rw unproved at h in
            absurd cc
      ]
