-- ===== src/Cmd/Closed.antt =====
-- cmd/goafp/main.go: the connections that are open when a command ends.
use goafp.Base.{ℕ, List, ◌∷◌, if_lem}
use goafp.Base.Bytes.{Bytes}
use goafp.Base.Outcome.{Outcome, ok, err, panic, malformed}
use goafp.Dsi.Setup.{Transport, link_of, get_status, open_session}
use goafp.Afp.Text.{Norm}
use goafp.Afp.Link.{M, step, lift, Link, ask}
use goafp.Afp.Link.Frames.{Keeps, KeepsLink, bind-Keeps, run-Keeps, ask-Keeps}
use goafp.Afp.Session.Frames.{login_with-Keeps, login_dhx2-Keeps, login_srp-Keeps, logout-Keeps}
use goafp.Afp.ServerInfo.{ServerInfo}
use goafp.Afp.Volume.{Volume, open_volume, close_volume}
use goafp.Cmd.Target.{Url, Target, parse_target}
use goafp.Cmd.Connect.{deferred, undone, or_undo, Secrets, fetch_status, log_in, connect}
use goafp.Cmd.Commands.{is_empty, with_session, with_target, with_volume, mount_dial}

-- After a call that does not panic, the world is as `J` says of its result, or as `I` says where
-- there is an error.
abbrev pub Settles : {W A : Type 0} → (W → Type 0) → (A → W → Type 0) → Outcome A × W → Type 0
Settles I J (ok a, w) = J a w
Settles I J (err e, w) = I w
Settles I J (panic, w) = Unit

Settles-step :
    {W A B : Type 0} (I : W → Type 0) (J : A → W → Type 0) (K : B → W → Type 0) (r : Outcome A × W)
    (f : A → M W B)
    → Settles I J r
    → ((a : A) (w : W) → J a w → Settles I K (f a w))
    → Settles I K (step r.0 r.1 f)
Settles-step I J K (ok a, w) f h next = next a w h
Settles-step I J K (err e, w) f h next = h
Settles-step I J K (panic, w) f h next = tt

-- A call that keeps `I'`, and is undone where there is an error.
Settles-undone :
    {W A : Type 0} (I I' : W → Type 0) (undo : W → W) (r : Outcome A × W)
    → ((w : W) → I' w → I (undo w))
    → I' r.1
    → Settles I (λ _. I') (undone undo r)
Settles-undone I I' undo (ok a, w) undoes h = h
Settles-undone I I' undo (err e, w) undoes h = undoes w h
Settles-undone I I' undo (panic, w) undoes h = tt

module _ {W C : Type 0} (net : Transport W C) (secrets : Secrets W) (norm : Norm)
    (parse : Bytes → Outcome Url) (Open : List C → W → Type 0)
    (dials : (cs : List C) (host : Bytes) (w : W)
      → Open cs w
      → Settles (Open cs) (λ c. Open (c ∷ cs)) (net.dial host w))
    (asks : (cs : List C) (c : C) → KeepsLink (Open cs) (link_of net c 0))
    (closes : (cs : List C) (c : C) (w : W) → Open (c ∷ cs) w → Open cs (net.close c w))
    (draws : (cs : List C) (n : ℕ) → Keeps (Open cs) (secrets.rand n)) where
  get_status-Keeps : (cs : List C) (c : C) → Keeps (Open cs) (get_status net c)
  unfolding get_status
  get_status-Keeps cs c = bind-Keeps (Open cs) (net.request c _ _ _) _ (asks cs c _ _ _) λ r w h. h

  open_session-Keeps : (cs : List C) (c : C) → Keeps (Open cs) (open_session net c)
  unfolding open_session
  open_session-Keeps cs c =
      bind-Keeps (Open cs) (net.request c _ _ _) _ (asks cs c _ _ _) λ r w h. h

  log_in-Keeps :
      (cs : List C) (link : Link W) (info : ServerInfo) (u p : Bytes)
      → KeepsLink (Open cs) link
      → Keeps (Open cs) (log_in net secrets link info u p)
  log_in-Keeps cs link info u p keeps =
      login_with-Keeps (Open cs) link keeps _ _
        (login_dhx2-Keeps (Open cs) link keeps secrets.rand (draws cs) secrets.crypto)
        (login_srp-Keeps (Open cs) link keeps secrets.rand (draws cs) secrets.sha1) info u p

  -- A call on an open connection that is closed at its end.
  deferred-Settles :
      {A : Type 0} (cs : List C) (c : C) (r : Outcome A × W)
      → Open (c ∷ cs) r.1
      → Settles (Open cs) (λ _. Open cs) (deferred (net.close c) (λ _. r) r.1)
  deferred-Settles cs c (ok a, w) h = closes cs c w h
  deferred-Settles cs c (err e, w) h = closes cs c w h
  deferred-Settles cs c (panic, w) h = tt

  fetch_status-Settles :
      (cs : List C) (host : Bytes) (w : W)
      → Open cs w
      → Settles (Open cs) (λ _. Open cs) (fetch_status net secrets host w)
  unfolding fetch_status
  fetch_status-Settles cs host w h =
      Settles-step (Open cs) (λ c. Open (c ∷ cs)) _ (net.dial host w) _ (dials cs host w h)
        λ c w1 h1. deferred-Settles cs c _ (
          bind-Keeps (Open (c ∷ cs)) (get_status net c) _ (get_status-Keeps (c ∷ cs) c) (λ b w h. h)
            w1 h1)

  -- A connection that is logged in is open; without one, none is left open.
  abbrev pub Session : List C → C × Link W → W → Type 0
  Session cs (c, link) w = KeepsLink (Open (c ∷ cs)) link × Open (c ∷ cs) w

  pub connect-Session :
      (cs : List C) (t : Target) (w : W)
      → Open cs w
      → Settles (Open cs) (Session cs) (connect net secrets t w)
  unfolding connect
  connect-Session cs t w h =
      Settles-step (Open cs) (λ _. Open cs) (Session cs) (fetch_status net secrets t.host w) _
        (fetch_status-Settles cs t.host w h)
        λ info w1 h1.
          Settles-step (Open cs) (λ c. Open (c ∷ cs)) (Session cs) (net.dial t.host w1) _
            (dials cs t.host w1 h1)
            λ c w2 h2.
              Settles-step (Open cs) (λ _. Open (c ∷ cs)) (Session cs)
                (or_undo (net.close c) (open_session net c) w2) _
                (Settles-undone (Open cs) (Open (c ∷ cs)) (net.close c) (open_session net c w2)
                  (closes cs c) (open_session-Keeps (c ∷ cs) c w2 h2))
                λ quantum w3 h3.
                  Settles-step (Open cs) (λ _. Open (c ∷ cs)) (Session cs)
                    (or_undo (net.close c)
                      (log_in net secrets (link_of net c quantum) info t.username t.password) w3)
                    _
                    (Settles-undone (Open cs) (Open (c ∷ cs)) (net.close c) _ (closes cs c) (
                      log_in-Keeps (c ∷ cs) (link_of net c quantum) info t.username t.password
                        (asks (c ∷ cs) c) w3 h3))
                    λ v w4 h4. (asks (c ∷ cs) c, h4)

  -- A function of a session that does no more to open connections than its link does.
  abbrev pub Frames : {A : Type 0} → (Link W → M W A) → Type 0
  Frames fn = (cs : List C) (link : Link W) → KeepsLink (Open cs) link → Keeps (Open cs) (fn link)

  with_session-Settles :
      {A : Type 0} (cs : List C) (t : Target) (fn : Link W → M W A) (w : W)
      → Frames fn
      → Open cs w
      → Settles (Open cs) (λ _. Open cs) (with_session net secrets norm parse t fn w)
  with_session-Settles cs t fn w frames h =
      Settles-step (Open cs) (Session cs) _ (connect net secrets t w) _ (connect-Session cs t w h)
        λ (c, link) w1 (keeps, h1). deferred-Settles cs c _ (
          logout-Keeps (Open (c ∷ cs)) link keeps (fn link w1).1 (frames (c ∷ cs) link keeps w1 h1))

  with_target-Settles :
      {A : Type 0} (cs : List C) (t : Target) (fn : Link W → Volume → M W A) (w : W)
      → ((v : Volume) → Frames (λ link. fn link v))
      → Open cs w
      → Settles (Open cs) (λ _. Open cs) (with_target net secrets norm parse t fn w)
  unfolding open_volume close_volume
  with_target-Settles cs t fn w frames h =
      with_session-Settles cs t _ w
        (λ ds link keeps.
          bind-Keeps (Open ds) (open_volume link norm t.volume) _
            (bind-Keeps (Open ds) (ask link _) _ (ask-Keeps (Open ds) link keeps _) λ p w h. h)
            λ v w1 h1.
              run-Keeps (Open ds) link keeps _ (fn link v w1).1 (frames v ds link keeps w1 h1))
        h

  -- Let dialing open a connection where it succeeds and requests, closes and the random source
  -- treat the open ones as they should. Then a command that runs a function on a volume, which
  -- does no more to open connections than its requests do, leaves open just the connections that
  -- were open before, whether it succeeds or fails, at the parsing, the dialing, the login, the
  -- opening of the volume or later, as long as nothing panics.
  pub with_volume-Settles :
      {A : Type 0} (cs : List C) (raw : Bytes) (fn : Link W → Volume → Target → M W A) (w : W)
      → ((v : Volume) (t : Target) → Frames (λ link. fn link v t))
      → Open cs w
      → Settles (Open cs) (λ _. Open cs) (with_volume net secrets norm parse raw fn w)
  unfolding with_volume
  with_volume-Settles cs raw fn w frames h =
      Settles-step (Open cs) (λ _. Open cs) _ (lift (parse_target parse raw) w) _
        (parsed (parse_target parse raw))
        λ t w1 h1.
          if_lem (λ m. Settles (Open cs) (λ _. Open cs) (m w1)) (is_empty t.volume)
            (lift (err malformed)) (with_target net secrets norm parse t (λ link v. fn link v t))
            (λ _. h1)
            (λ _. with_target-Settles cs t (λ link v. fn link v t) w1 (λ v. frames v t) h1)
    where
      parsed : (o : Outcome Target) → Settles (Open cs) (λ _. Open cs) (o, w)
      parsed (ok t) = h
      parsed (err e) = h
      parsed panic = tt

  -- Under the same conditions, a connection that the dialer of a mount returns is the one new
  -- connection that is open, and where the dialer fails without a panic none is left.
  pub mount_dial-Settles :
      (cs : List C) (t : Target) (w : W)
      → Open cs w
      → Settles (Open cs) (λ (c, _, _). Open (c ∷ cs)) (mount_dial net secrets norm parse t w)
  unfolding mount_dial open_volume
  mount_dial-Settles cs t w h =
      Settles-step (Open cs) (Session cs) _ (connect net secrets t w) _ (connect-Session cs t w h)
        λ (c, link) w1 (keeps, h1).
          Settles-step (Open cs) (λ _. Open (c ∷ cs)) _
            (or_undo (net.close c) (open_volume link norm t.volume) w1) _
            (Settles-undone (Open cs) (Open (c ∷ cs)) (net.close c) _ (closes cs c) (
              bind-Keeps (Open (c ∷ cs)) (ask link _) _ (ask-Keeps (Open (c ∷ cs)) link keeps _)
                (λ p w h. h) w1 h1))
            λ v w2 h2. h2
