-- ===== src/Afp/Link.antt =====
-- What the AFP layer sees of a connection: a request and its reply. `W` is the state of the world
-- beyond it, the server among it; a connection of Dsi/Conn.antt and its peer are such a world.
-- A call is a function of that state (the context of a call is part of it: a deadline shows as a
-- transport error).
pub mod Frames
pub mod Results
use goafp.Base.{ℕ, Bool, Option, none, some}
use goafp.Base.Bytes.{Bytes}
use goafp.Base.Outcome.{Error, Outcome, ok, err, panic}
use goafp.Dsi.Conn.{Reply}
use goafp.Dsi.Header.{cmd_command, cmd_write}
use goafp.Afp.Codes.{ResultCode, result_err}

abbrev pub M : Type 0 → Type 0 → Type 0
M W A = W → Outcome A × W

abbrev pub step : {A B W : Type 0} → Outcome A → W → (A → M W B) → Outcome B × W
step (ok a) w f = f a w
step (err e) w f = (err e, w)
step panic w f = (panic, w)

infixl 5 ◌>>=◌ ◌>>◌
abbrev pub ◌>>=◌ : {A B W : Type 0} → M W A → (A → M W B) → M W B
◌>>=◌ m f w = step (m w).0 (m w).1 f

abbrev pub ◌>>◌ : {B W : Type 0} → M W (Unit {0}) → M W B → M W B
m >> k = m >>= λ _. k

abbrev pub lift : {A W : Type 0} → Outcome A → M W A
lift o w = (o, w)

abbrev pub pure : {A W : Type 0} → A → M W A
pure a = lift (ok a)

-- `if err := …; err != nil { return err }`.
abbrev pub check : {W : Type 0} → Option Error → M W (Unit {0})
check none = lift (ok tt)
check (some e) = lift (err e)

-- `conn.Request` and `conn.RequestWrite`, by command and data offset, and `conn.ServerQuantum`.
-- Replies come in any order: of two goroutines of a group that fail, `sooner` says whether the one
-- whose request the server took first was the first to return.
pub record Link (W : Type 0) : Type 0 where
  pub request : ℕ → ℕ → Bytes → M W Reply
  pub quantum : ℕ
  pub sooner : W → Bool

module _ {W : Type 0} (link : Link W) where
  -- `Session.command` and `Session.commandWrite`: the payload and the result code of the reply.
  unfoldable pub command : Bytes → M W (Bytes × ResultCode)
  command payload = do r ← link.request cmd_command 0 payload; pure (r.payload, r.header.err_code)

  unfoldable pub command_write : ℕ → Bytes → M W (Bytes × ResultCode)
  command_write data_offset payload = do
    r ← link.request cmd_write data_offset payload
    pure (r.payload, r.header.err_code)

  -- A command of which only the result code matters.
  unfoldable pub run : Bytes → M W (Unit {0})
  run payload = do (_, code) ← command payload; check (result_err code)

  -- A command whose reply is parsed once its result code is known to be good.
  unfoldable pub ask : Bytes → M W Bytes
  ask payload = do (reply, code) ← command payload; check (result_err code); pure reply
