-- ===== src/Afp/Session/Frames.antt =====
-- internal/afp/session.go, uam.go, srp.go: what requests keep, and the logins.
use goafp.Base.{ℕ, ◌==◌}
use goafp.Base.Bytes.{Bytes}
use goafp.Afp.Codes.{result_err, res_auth_continue}
use goafp.Afp.Link.{M, lift, pure, check, Link}
use goafp.Afp.Link.Frames.{
  Keeps, KeepsLink, bind-Keeps, check-Keeps, if-Keeps, command-Keeps, run-Keeps,
}
use goafp.Afp.ServerInfo.{ServerInfo}
use goafp.Afp.Session.{
  Method, guest, dhx2, srp, cleartext, login, login_cont, logout, login_guest, login_cleartext,
  run_method, login_with, pick_version, choose_method,
}
use goafp.Afp.Uam.{Crypto, DhParams, dhx2_finish, dhx2_exchange, login_dhx2, if_continue}
use goafp.Afp.Srp.{Proof, srp_finish, srp_exchange, login_srp}

module _ {W : Type 0} (I : W → Type 0) (link : Link W) (keeps : KeepsLink I link) where
  login-Keeps : (version uam authinfo : Bytes) → Keeps I (login link version uam authinfo)
  unfolding login
  login-Keeps version uam authinfo = command-Keeps I link keeps _

  login_cont-Keeps : (id : ℕ) (authinfo : Bytes) → Keeps I (login_cont link id authinfo)
  unfolding login_cont
  login_cont-Keeps id authinfo = command-Keeps I link keeps _

  pub logout-Keeps : Keeps I (logout link)
  unfolding logout
  logout-Keeps = run-Keeps I link keeps _

  login_guest-Keeps : (version : Bytes) → Keeps I (login_guest link version)
  unfolding login_guest
  login_guest-Keeps version =
      bind-Keeps I (login link version _ _) _ (login-Keeps version _ _)
        λ (p, code). check-Keeps I (result_err code)

  login_cleartext-Keeps :
      (version username password : Bytes) → Keeps I (login_cleartext link version username password)
  unfolding login_cleartext
  login_cleartext-Keeps version username password =
      bind-Keeps I (login link version _ _) _ (login-Keeps version _ _)
        λ (p, code). check-Keeps I (result_err code)

  if_continue-Keeps : (code : ℕ) (m : M W (Unit {0})) → Keeps I m → Keeps I (if_continue code m)
  if_continue-Keeps code m h =
      if-Keeps I (code == res_auth_continue) m (check (result_err code)) h
        (check-Keeps I (result_err code))

  module _ (rand : ℕ → M W Bytes) (draws : (n : ℕ) → Keeps I (rand n)) where
    dhx2_finish-Keeps :
        (crypto : Crypto) (key nonce password : Bytes) (b : ℕ × Bytes)
        → Keeps I (dhx2_finish link crypto rand key nonce password b)
    unfolding dhx2_finish
    dhx2_finish-Keeps crypto key nonce password (id, ct) =
        if-Keeps I _ (lift _) _ (λ w h. h)
          (bind-Keeps I (login_cont link id _) _ (login_cont-Keeps id _)
            λ (p, code). check-Keeps I (result_err code))

    dhx2_exchange-Keeps :
        (crypto : Crypto) (password : Bytes) (d : DhParams)
        → Keeps I (dhx2_exchange link crypto rand password d)
    unfolding dhx2_exchange
    dhx2_exchange-Keeps crypto password d = bind-Keeps I (rand d.key_len) _ (draws d.key_len) λ ra.
        bind-Keeps I (lift _) _ (λ w h. h)
          λ secret. bind-Keeps I (rand _) _ (draws _) λ nonce.
            bind-Keeps I (lift _) _ (λ w h. h)
              λ ma. bind-Keeps I (login_cont link d.id _) _ (login_cont-Keeps d.id _) λ (p, code).
                if_continue-Keeps code _ (
                  bind-Keeps I (lift _) _ (λ w h. h)
                    λ b. dhx2_finish-Keeps crypto _ nonce password b)

    pub login_dhx2-Keeps :
        (crypto : Crypto) (version username password : Bytes)
        → Keeps I (login_dhx2 link crypto rand version username password)
    unfolding login_dhx2
    login_dhx2-Keeps crypto version username password =
        bind-Keeps I (login link version _ _) _ (login-Keeps version _ _) λ (p, code).
          if_continue-Keeps code _
            (bind-Keeps I (lift _) _ (λ w h. h) λ d. dhx2_exchange-Keeps crypto password d)

    srp_finish-Keeps :
        (sha1 : Bytes → Bytes) (id : ℕ) (p : Proof) → Keeps I (srp_finish sha1 link rand id p)
    unfolding srp_finish
    srp_finish-Keeps sha1 id p =
        bind-Keeps I (login_cont link id _) _ (login_cont-Keeps id _) λ (payload, code).
          bind-Keeps I (check (result_err code)) _ (check-Keeps I (result_err code)) λ u w h. h

    pub login_srp-Keeps :
        (sha1 : Bytes → Bytes) (version username password : Bytes)
        → Keeps I (login_srp sha1 link rand version username password)
    unfolding login_srp srp_exchange
    login_srp-Keeps sha1 version username password =
        bind-Keeps I (login link version _ _) _ (login-Keeps version _ _) λ (p, code).
          if_continue-Keeps code _ (
            bind-Keeps I (lift _) _ (λ w h. h)
              λ d.
                bind-Keeps I (rand _) _ (draws _)
                  λ a. bind-Keeps I (lift _) _ (λ w h. h) λ p. srp_finish-Keeps sha1 d.id p)

  module _ (dhx2_login srp_login : Bytes → Bytes → Bytes → M W (Unit {0}))
      (dhx2_keeps : (v u p : Bytes) → Keeps I (dhx2_login v u p))
      (srp_keeps : (v u p : Bytes) → Keeps I (srp_login v u p)) where
    run_method-Keeps :
        (m : Method) (v u p : Bytes) → Keeps I (run_method link dhx2_login srp_login m v u p)
    run_method-Keeps guest v u p = login_guest-Keeps v
    run_method-Keeps dhx2 v u p = dhx2_keeps v u p
    run_method-Keeps srp v u p = srp_keeps v u p
    run_method-Keeps cleartext v u p = login_cleartext-Keeps v u p

    pub login_with-Keeps :
        (info : ServerInfo) (u p : Bytes) → Keeps I (login_with link dhx2_login srp_login info u p)
    unfolding login_with
    login_with-Keeps info u p =
        bind-Keeps I (lift (pick_version info.afp_versions)) _ (λ w h. h)
          λ v.
            bind-Keeps I (lift (choose_method info.uams u)) _ (λ w h. h)
              λ m.
                bind-Keeps I (run_method link dhx2_login srp_login m v u p) (λ x. pure v)
                  (run_method-Keeps m v u p) λ x w h. h
