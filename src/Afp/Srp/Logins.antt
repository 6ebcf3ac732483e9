-- ===== src/Afp/Srp/Logins.antt =====
-- internal/afp/srp.go: what a login that succeeds has seen, and what a server can make of one.
use goafp.Base.{
  ℕ, ◌%◌, ◌^◌, ◌≤◌, ◌≡◌, refl, ap, ◌∙◌, ◌⊎◌, inl, inr, [], ◌==◌, ==_iff, le→ltb, Bool-cases, length,
}
use mathlib.Core.Path.{ap₂}
use goafp.Base.Bytes.{Bytes, from_be}
use goafp.Base.Outcome.{ok, panic}
use goafp.Afp.Builder.{pascal}
use goafp.Afp.Codes.{result_err, res_no_err, res_auth_continue}
use goafp.Afp.Link.{M, ◌>>=◌, ◌>>◌, lift, check, Link}
use goafp.Afp.Link.Results.{seq-ok, check-ok}
use goafp.Afp.Session.{uam_srp, login, login_cont}
use goafp.Afp.Uam.{left_pad, if_continue}
use goafp.Afp.Srp.{
  SrpParams, parse_srp_params, Proof, srp_proof, proof_message, verify_server, srp_finish,
  srp_exchange, login_srp,
}

module _ (sha1 : Bytes → Bytes) {W : Type 0} (link : Link W) (rand : ℕ → M W Bytes) where
  pub srp_finish-proof :
      (id : ℕ) (p : Proof) (w w' : W)
      → srp_finish sha1 link rand id p w ≡ (ok tt, w')
      → (payload : Bytes) × (login_cont link id (proof_message p) w
          ≡ (ok (payload, res_no_err), w'))
        × (verify_server sha1 p payload ≡ ok tt)
  unfolding srp_finish
  srp_finish-proof id p w w' h =
      let ((payload, code), w1, sent, h1) =
        seq-ok (login_cont link id (proof_message p))
          (λ (payload, code). check (result_err code) >> lift (verify_server sha1 p payload)) w tt
          w' h in
      let (_, w2, checked, h2) =
        seq-ok (check (result_err code)) (λ _. lift (verify_server sha1 p payload)) w1 tt w' h1 in
      let (fine, same_w) = check-ok code w1 w2 checked in
      let last : ◌≡◌ {A = W} w2 w' = ap (λ q. q.1) h2 in
      (payload, sent ∙ ap₂ (λ c v. (ok (payload, c), v)) fine (same_w ∙ last), ap (λ q. q.0) h2)

  -- The server has sent parameters with its challenge, the client has drawn its secret number and
  -- sent the proof that it makes from them, and the server has shown that it knows K.
  pub Proven : Bytes → Bytes → Bytes → W → W → Type 0
  Proven version username password w w' =
      (challenge : Bytes) × (w1 : W) × (d : SrpParams) × (drawn : Bytes) × (w2 : W) × (p : Proof)
      × (payload : Bytes) × (login link version uam_srp (pascal username []) w
          ≡ (ok (challenge, res_auth_continue), w1))
      × (parse_srp_params challenge ≡ ok d)
      × (rand (length d.n_bytes) w1 ≡ (ok drawn, w2))
      × (srp_proof sha1 username password d (from_be drawn % from_be d.n_bytes) ≡ ok p)
      × (login_cont link d.id (proof_message p) w2 ≡ (ok (payload, res_no_err), w'))
      × (verify_server sha1 p payload ≡ ok tt)

  -- The client's part behind the parameters.
  Exchanged : Bytes → Bytes → SrpParams → W → W → Type 0
  Exchanged username password d w w' =
      (drawn : Bytes) × (w2 : W) × (p : Proof) × (payload : Bytes) × (rand (length d.n_bytes) w
        ≡ (ok drawn, w2))
      × (srp_proof sha1 username password d (from_be drawn % from_be d.n_bytes) ≡ ok p)
      × (login_cont link d.id (proof_message p) w2 ≡ (ok (payload, res_no_err), w'))
      × (verify_server sha1 p payload ≡ ok tt)

  srp_exchange-Exchanged :
      (username password : Bytes) (d : SrpParams) (w w' : W)
      → srp_exchange sha1 link rand username password d w ≡ (ok tt, w')
      → Exchanged username password d w w'
  unfolding srp_exchange Exchanged
  srp_exchange-Exchanged username password d w w' h =
      let (a_bytes, w1, drawn, h1) =
        seq-ok (rand (length d.n_bytes))
          (λ a_bytes.
            lift (srp_proof sha1 username password d (from_be a_bytes % from_be d.n_bytes))
            >>= srp_finish sha1 link rand d.id)
          w tt w' h in
      let a = from_be a_bytes % from_be d.n_bytes in
      let (p, w2, made, h2) =
        seq-ok (lift (srp_proof sha1 username password d a)) (srp_finish sha1 link rand d.id) w1 tt
          w' h1 in
      let (reply, sent, proved) = srp_finish-proof d.id p w2 w' h2 in
      let same_w : ◌≡◌ {A = W} w1 w2 = ap (λ q. q.1) made in
      (
        a_bytes,
        w2,
        p,
        reply,
        drawn ∙ ap (λ v. (ok a_bytes, v)) same_w,
        ap (λ q. q.0) made,
        sent,
        proved,
      )

  -- An SRP login that succeeds has been let in at its first message, without a challenge, or the
  -- server has challenged it: its reply parses to parameters, the client has drawn a secret number
  -- of the length of the group's prime, and has sent the proof made from the user name, the
  -- password, those parameters and that number modulo the prime; and the server's last reply, with
  -- no error, passes the check of the server's proof.
  pub login_srp-Proven :
      (version username password : Bytes) (w w' : W)
      → login_srp sha1 link rand version username password w ≡ (ok tt, w')
      → ((payload : Bytes) × (login link version uam_srp (pascal username []) w
            ≡ (ok (payload, res_no_err), w')))
        ⊎ Proven version username password w w'
  unfolding login_srp Proven Exchanged
  login_srp-Proven version username password w w' h =
      let ((payload, code), w1, asked, h1) =
        seq-ok (login link version uam_srp (pascal username []))
          (λ (payload, code).
            if_continue code
              (lift (parse_srp_params payload) >>= srp_exchange sha1 link rand username password))
          w tt w' h in
      elim (Bool-cases (code == res_auth_continue)) [
        | inr over ↦
            let h2 : check (result_err code) w1 ≡ (ok tt, w') = rw over at h1 in
            let (fine, same_w) = check-ok code w1 w' h2 in
            inl (payload, asked ∙ ap₂ (λ c v. (ok (payload, c), v)) fine same_w)
        | inl more ↦
            let (d, w2, parsed, h2) =
              seq-ok (lift (parse_srp_params payload))
                (srp_exchange sha1 link rand username password) w1 tt w' (rw more at h1) in
            let (drawn, w3, p, reply, e1, e2, e3, e4) =
              srp_exchange-Exchanged username password d w2 w' h2 in
            let same_w : ◌≡◌ {A = W} w1 w2 = ap (λ q. q.1) parsed in
            let go_on : code ≡ res_auth_continue = (==_iff code res_auth_continue).0 more in
            inr (
              payload,
              w2,
              d,
              drawn,
              w3,
              p,
              reply,
              asked ∙ ap₂ (λ c v. (ok (payload, c), v)) go_on same_w,
              ap (λ q. q.0) parsed,
              e1,
              e2,
              e3,
              e4,
            )
      ]

  -- Without a challenge there is no proof to check.
  login_srp-unchallenged :
      (version username password payload : Bytes) (w w' : W)
      → login link version uam_srp (pascal username []) w ≡ (ok (payload, res_no_err), w')
      → login_srp sha1 link rand version username password w ≡ (ok tt, w')
  unfolding login_srp result_err
  login_srp-unchallenged version username password payload w w' e = rw e refl

module _ (sha1 : Bytes → Bytes) where
  -- `FillBytes` panics on a generator that is longer than the group's prime.
  srp_proof-oversized :
      (username password : Bytes) (d : SrpParams) (a : ℕ)
      → 256 ^ length d.n_bytes ≤ from_be d.g_bytes
      → srp_proof sha1 username password d a ≡ panic
  unfolding srp_proof left_pad
  srp_proof-oversized username password d a h =
      let big = le→ltb (from_be d.g_bytes) (256 ^ length d.n_bytes) h in rw big refl
