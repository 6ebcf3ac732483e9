-- ===== src/Dsi/Conn/Steps.antt =====
-- internal/dsi/conn.go: what each step of a connection does to its table and its buffers.
use goafp.Base.{
  ℕ, ◌≡◌, refl, ◌⊎◌, inl, inr, false, some, [], ◌∷◌, arith, ◌==◌, ==_iff, Bool-cases, Option-cases,
}
use goafp.Base.Bytes.{Bytes}
use goafp.Base.Outcome.{Error, Outcome, ok, err}
use goafp.Dsi.Header.{Header, flag_reply}
use goafp.Dsi.Conn.{
  Conn, Reply, Write, whole, broken, id_space, lookup, delete, taken, next_free, register, send,
  fail, read_on, stop, receive,
}
use goafp.Dsi.Conn.Request.{
  Wake, replied, torn_down, cancelled, send_request, select, send_tickle, send_close, end_close,
}
use goafp.Dsi.Conn.Register.{next_free-fresh}

pub register_inv :
    (ch id : ℕ) (c d : Conn)
    → register ch c ≡ some (ok id, d)
    → (d.pending ≡ (id, ch) ∷ c.pending) × (d.inbox ≡ c.inbox) × (taken id c.pending ≡ false)
unfolding register
register_inv ch id c d e = elim (Option-cases (next_free id_space c.pending c.next_id)) [
  | inl stuck ↦ ground arith
  | inr (i, e') ↦ ground (arith, next_free-fresh id_space c.next_id c.pending e')
]

pub register_refused :
    (ch : ℕ) (x : Error) (c d : Conn)
    → register ch c ≡ some (err x, d)
    → (d.pending ≡ c.pending) × (d.inbox ≡ c.inbox)
unfolding register
register_refused ch x c d e = elim (Option-cases (next_free id_space c.pending c.next_id)) [
  | inl stuck ↦ ground arith
  | inr (i, e') ↦ ground arith
]

pub receive_inv :
    (h : Header) (payload : Bytes) (c d : Conn)
    → receive h payload c ≡ read_on d
    → (d.pending ≡ c.pending)
      × ((d.inbox ≡ c.inbox)
          ⊎ ((ch : ℕ) × (lookup h.request_id c.pending ≡ some ch)
              × (h.flags ≡ flag_reply)
              × (d.inbox ≡ (ch, record { header = h; payload = payload }) ∷ c.inbox)))
unfolding receive
receive_inv h payload c d e = elim (Option-cases (lookup h.request_id c.pending)) [
  | inl unknown ↦ ground arith
  | inr (ch, e') ↦ elim (Bool-cases (h.flags == flag_reply)) [
    | inl reply ↦ (ground arith, inr (ch, e', (==_iff h.flags flag_reply).0 reply, ground arith))
    | inr request ↦ (ground arith, inl (ground arith))
  ]
]

pub stop_inv :
    (h : Header) (payload : Bytes) (c d : Conn)
    → receive h payload c ≡ stop d
    → (d.pending ≡ c.pending) × (d.inbox ≡ c.inbox)
unfolding receive
stop_inv h payload c d e = elim (Option-cases (lookup h.request_id c.pending)) [
  | inl unknown ↦ ground arith
  | inr (ch, e') ↦ ground arith
]

pub fail-Frame :
    (e : Error) (c : Conn) → ((fail e c).pending ≡ c.pending) × ((fail e c).inbox ≡ c.inbox)
unfolding fail
fail-Frame e c = ground arith

abbrev Frame : Conn → Conn → Type 0
Frame c d = (d.pending ≡ c.pending) × (d.inbox ≡ c.inbox)

send-Frame :
    (write : Write) (h : Header) (payload : Bytes) (c : Conn) → Frame c (send write h payload c).1
unfolding send
send-Frame whole h payload c = (refl, refl)
send-Frame (broken n e) h payload c = (refl, refl)

pub send_request-Frame :
    (write : Write) (id cmd offset : ℕ) (payload : Bytes) (c : Conn)
    → Frame c (send_request write id cmd offset payload c).1
unfolding send_request
send_request-Frame write id cmd offset payload c = send-Frame write _ payload c

pub send_tickle-Frame : (write : Write) (id : ℕ) (c : Conn) → Frame c (send_tickle write id c).1
unfolding send_tickle
send_tickle-Frame write id c = send-Frame write _ [] c

pub send_close-Frame : (write : Write) (id : ℕ) (c : Conn) → Frame c (send_close write id c)
unfolding send_close
send_close-Frame write id c = send-Frame write _ [] c

pub end_close-Frame : (c : Conn) → Frame c (end_close c)
unfolding end_close
end_close-Frame c = ground arith

-- However a request comes out of its `select`, the table stays as it is.
pub select_inv :
    (wake : Wake) (ch : ℕ) (c d : Conn) (o : Outcome Reply)
    → select wake ch c ≡ some (o, d)
    → (d.pending ≡ c.pending)
      × (((r : Reply) × (o ≡ ok r) × (lookup ch c.inbox ≡ some r) × (d.inbox ≡ delete ch c.inbox))
          ⊎ ((e : Error) × (o ≡ err e) × (d.inbox ≡ c.inbox)))
unfolding select
select_inv replied ch c d o e = elim (Option-cases (lookup ch c.inbox)) [
  | inl nothing ↦ ground arith
  | inr (r, e') ↦ (ground arith, inl (r, ground arith, e', ground arith))
]
select_inv torn_down ch c d o e = elim (Option-cases c.close_err) [
  | inl nothing ↦ ground arith
  | inr (x, e') ↦ (ground arith, inr (x, ground arith, ground arith))
]
select_inv (cancelled x) ch c d o e = (ground arith, inr (x, ground arith, ground arith))
