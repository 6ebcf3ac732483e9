-- ===== src/Cmd/Connect.antt =====
-- cmd/goafp/main.go: connections that log in, and what is deferred.
use goafp.Base.{ℕ}
use goafp.Base.Bytes.{Bytes}
use goafp.Base.Outcome.{Outcome, ok, err, panic}
use goafp.Dsi.Setup.{Transport, link_of, get_status, open_session}
use goafp.Afp.Link.{M, ◌>>=◌, lift, pure, Link}
use goafp.Afp.ServerInfo.{ServerInfo, parse_server_info}
use goafp.Afp.Session.{login_with}
use goafp.Afp.Uam.{Crypto, login_dhx2}
use goafp.Afp.Srp.{login_srp}
use goafp.Cmd.Target.{Target}

-- `defer`: the calls run whatever comes of what follows; their results are dropped.
abbrev pub deferred : {W A : Type 0} → (W → W) → M W A → M W A
deferred last m w = let (o, w') = m w in (o, last w')

abbrev pub quietly : {W A : Type 0} → M W A → W → W
quietly m w = (m w).1

abbrev pub undone : {W A : Type 0} → (W → W) → Outcome A × W → Outcome A × W
undone undo (ok a, w) = (ok a, w)
undone undo (err e, w) = (err e, undo w)
undone undo (panic, w) = (panic, w)

-- A call whose error is returned after an undoing one.
abbrev pub or_undo : {W A : Type 0} → (W → W) → M W A → M W A
or_undo undo m w = undone undo (m w)

-- The cryptography of the logins, and the random source.
pub record Secrets (W : Type 0) : Type 0 where
  pub crypto : Crypto
  pub sha1 : Bytes → Bytes
  pub rand : ℕ → M W Bytes

module _ {W C : Type 0} (net : Transport W C) (secrets : Secrets W) where
  unfoldable pub fetch_status : Bytes → M W ServerInfo
  fetch_status host = do
    c ← net.dial host
    deferred (net.close c) (get_status net c >>= λ block. lift (parse_server_info block))

  -- `Session.Login` of internal/afp/session.go, with the logins of uam.go and srp.go.
  abbrev pub log_in : Link W → ServerInfo → Bytes → Bytes → M W Bytes
  log_in link =
      login_with link
        (λ version username password.
          login_dhx2 link secrets.crypto secrets.rand version username password)
        (λ version username password.
          login_srp secrets.sha1 link secrets.rand version username password)

  -- The link of a connection stands for the session on it.
  unfoldable pub connect : Target → M W (C × Link W)
  connect t = do
    info ← fetch_status t.host
    c ← net.dial t.host
    quantum ← or_undo (net.close c) (open_session net c)
    _ ← or_undo (net.close c) (log_in (link_of net c quantum) info t.username t.password)
    pure (c, link_of net c quantum)
