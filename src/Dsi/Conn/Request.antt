-- ===== src/Dsi/Conn/Request.antt =====
-- internal/dsi/conn.go: the critical sections of `request` behind `register`, in their order: the
-- write of the packet, the `select`, and the deferred `unregister`; and the other writes. Between any
-- two of them other goroutines run. What the transport says of a write is an argument.
use goafp.Base.{ℕ, Option, none, some, [], length}
use goafp.Base.Bytes.{Bytes}
use goafp.Base.Outcome.{Error, closed, Outcome, ok, err}
use goafp.Dsi.Header.{cmd_write, cmd_tickle, cmd_close_session}
use goafp.Dsi.Conn.{Conn, Reply, Write, send, request_header, lookup, delete, fail}

-- `err`.
abbrev pub conn_error : Conn → Option Error
conn_error c = c.close_err

-- The write of a request, by the id that it has registered.
unfoldable pub send_request : Write → ℕ → ℕ → ℕ → Bytes → Conn → Outcome (Unit {0}) × Conn
unfolding send
send_request write id cmd err_or_offset payload c =
    send write (request_header cmd id err_or_offset (length payload)) payload c

-- `Request` and `RequestWrite`.
abbrev pub send_plain : Write → ℕ → ℕ → Bytes → Conn → Outcome (Unit {0}) × Conn
send_plain write id cmd payload c = send_request write id cmd 0 payload c

abbrev pub send_write : Write → ℕ → ℕ → Bytes → Conn → Outcome (Unit {0}) × Conn
send_write write id data_offset payload c = send_request write id cmd_write data_offset payload c

-- The cases of the `select`: `<-ch`, `<-c.done` and `<-ctx.Done()` with the context's error.
pub data Wake : Type 0 where
  replied torn_down : Wake
  cancelled : Error → Wake

-- What `request` is to return by a case; `none` is a case that is not ready.
unfoldable pub select : Wake → ℕ → Conn → Option (Outcome Reply × Conn)
select replied ch c = elim (lookup ch c.inbox) [
  | none ↦ none
  | some r ↦ some (ok r, record c { inbox = delete ch c.inbox })
]
select torn_down ch c = elim (conn_error c) [ none ↦ none | some e ↦ some (err e, c) ]
select (cancelled e) ch c = some (err e, c)

-- The writes of `tickleLoop` and of `Close`, by the id from `newID`; the loop ends at an error, and
-- `Close` drops it and goes on to `fail`.
unfoldable pub send_tickle : Write → ℕ → Conn → Outcome (Unit {0}) × Conn
unfolding send
send_tickle write id c = send write (request_header cmd_tickle id 0 0) [] c

unfoldable pub send_close : Write → ℕ → Conn → Conn
unfolding send
send_close write id c = (send write (request_header cmd_close_session id 0 0) [] c).1

unfoldable pub end_close : Conn → Conn
unfolding fail
end_close c = fail closed c
