-- ===== src/Dsi/Setup.antt =====
-- internal/dsi/conn.go: GetStatus and OpenSession, as compositions of requests on connections that a
-- dialer makes.
use goafp.Base.{ℕ, Bool, Option, none, some, []}
use goafp.Base.Bytes.{Bytes}
use goafp.Base.Outcome.{Error, Outcome, ok, err, panic}
use goafp.Dsi.Header.{cmd_get_status, cmd_open_session}
use goafp.Dsi.Conn.{Reply, Conn, new_conn}
use goafp.Dsi.Options.{open_session_payload, open_session_reply}
use goafp.Afp.Text.{codes}
use goafp.Afp.Link.{M, ◌>>=◌, lift, pure, Link}

-- `Dial`: `split_host_port`, `join_host_port` and `dialer` stand for `net`. A connection is the
-- transport with the state that `NewConn` gives it.
module _ {W N : Type 0} (split_host_port : Bytes → Outcome (Bytes × Bytes))
    (join_host_port : Bytes → Bytes → Bytes) (dialer : Bytes → M W N) where
  abbrev with_port : Outcome (Bytes × Bytes) → Bytes → Bytes
  with_port (ok _) addr = addr
  with_port (err _) addr = join_host_port addr (codes "548")
  with_port panic addr = addr

  unfoldable pub dial_conn : Bytes → M W (N × Conn)
  dial_conn addr = do nc ← dialer (with_port (split_host_port addr) addr); pure (nc, new_conn)

-- `Dial` by an address; requests by command, data offset and payload; `Close`.
pub record Transport (W C : Type 0) : Type 0 where
  pub dial : Bytes → M W C
  pub request : C → ℕ → ℕ → Bytes → M W Reply
  pub close : C → W → W
  pub sooner : W → Bool

-- The loop over the options does not run out of fuel.
abbrev pub recorded : Option (ℕ × Option Error) → Outcome ℕ
recorded none = panic
recorded (some (quantum, none)) = ok quantum
recorded (some (quantum, some e)) = err e

module _ {W C : Type 0} (net : Transport W C) where
  -- A connection once its quantum is known.
  abbrev pub link_of : C → ℕ → Link W
  link_of c quantum = record { request = net.request c; quantum = quantum; sooner = net.sooner }

  unfoldable pub get_status : C → M W Bytes
  get_status c = do r ← net.request c cmd_get_status 0 []; pure r.payload

  -- The server quantum of a connection is 0 before.
  unfoldable pub open_session : C → M W ℕ
  open_session c = do
    r ← net.request c cmd_open_session 0 open_session_payload
    lift (recorded (open_session_reply r.payload 0))
