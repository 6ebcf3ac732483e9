-- ===== src/Dsi/Conn.antt =====
-- internal/dsi/conn.go: the state of a connection and what its goroutines do to it, a function for
-- each critical section. A channel of `pending` is the number of the request that made it; `inbox`
-- holds the replies that the channels buffer, one at most to a channel.
pub mod Register
pub mod Stream
pub mod Framing
pub mod Request
pub mod Table
pub mod Steps
pub mod Lifecycle
pub mod Routing
use goafp.Base.{
  ℕ, zero, suc, ◌+◌, ◌-◌, ◌*◌, ◌/◌, ◌%◌, ◌^◌, ◌≤◌, ◌<◌, min, ◌≡◌, refl, sym, ap, ◌∙◌, ◌≢◌, ◌↔◌, ◌⊎◌,
  inl, inr, Bool, true, false, not, ◌&&◌, ◌||◌, Option, none, some, List, [], ◌∷◌, ◌++◌, map,
  append-nil, append_assoc, arith, ltb, leb, ◌==◌, if◌then◌else◌, ltb→lt, ltb→le, lt→ltb, le→ltb,
  ==_iff, Bool-cases, Option-cases, length, get_or, take, drop, replicate, All, length-append,
  take-append-drop, length-take, length-drop, length-replicate, take-append_length,
  drop-append_length, drop-drop, take-append_eq, drop-append_eq, All-append, take_all,
}
use goafp.Base.Bytes.{
  Bytes, IsByte, IsBytes, be, from_be, length-be, be-IsBytes, from_be-be, from_be-lt, be-from_be,
}
use goafp.Base.Outcome.{
  Error, server, truncated, malformed, unsupported, auth_failed, eof, not_exist, permission, exist,
  closed, transport, Outcome, ok, err, panic, ◌>>=◌,
}
use goafp.Dsi.Header.{
  Header, encode, decode_header, header_size, flag_request, flag_reply, cmd_tickle, cmd_attention,
  cmd_close_session,
}

-- `maxPayload`, 16 MiB.
abbrev pub max_payload : ℕ
max_payload = 16 * 2 ^ 20

abbrev pub id_space : ℕ
id_space = 2 ^ 16

pub record Reply : Type 0 where
  pub header : Header
  pub payload : Bytes

pub record Conn : Type 0 where
  pub next_id : ℕ
  pub pending : List (ℕ × ℕ)
  pub close_err : Option Error
  pub inbox : List (ℕ × Reply)
  -- What `send` has written, packet by packet, the last bytes of one missing where its write failed.
  pub sent : List Bytes

-- An association list under keys that are numbers: Go's maps and its channels' buffers.
module _ {ℓ} {V : Type ℓ} where
  abbrev pub lookup : ℕ → List (ℕ × V) → Option V
  lookup k [] = none
  lookup k ((j, v) ∷ m) = if j == k then some v else lookup k m

  abbrev pub delete : ℕ → List (ℕ × V) → List (ℕ × V)
  delete k [] = []
  delete k ((j, v) ∷ m) = if j == k then delete k m else (j, v) ∷ delete k m

  abbrev pub taken : ℕ → List (ℕ × V) → Bool
  taken k [] = false
  taken k ((j, v) ∷ m) = j == k || taken k m

-- `newConn`: what `NewConn` makes before the reader starts.
abbrev pub new_conn : Conn
new_conn = record { next_id = 0; pending = []; close_err = none; inbox = []; sent = [] }

-- The loop of `register`: increments of a uint16 until the id is not pending. `none` is no Go
-- result: the fuel ran out.
unfoldable pub next_free : ℕ → List (ℕ × ℕ) → ℕ → Option ℕ
next_free zero pending id = none
next_free (suc fuel) pending id =
    let id' = (id + 1) % id_space in
    let more = next_free fuel pending id' in if taken id' pending then more else some id'

-- `none`: with every id pending the loop does not end.
unfoldable pub register : ℕ → Conn → Option (Outcome ℕ × Conn)
register ch c = elim c.close_err [
  | some e ↦ some (err e, c)
  | none ↦ elim (next_free id_space c.pending c.next_id) [
    | none ↦ none
    | some id ↦ some (ok id, record c { next_id = id; pending = (id, ch) ∷ c.pending })
  ]
]

unfoldable pub unregister : ℕ → Conn → Conn
unregister id c = record c { pending = delete id c.pending }

unfoldable pub new_id : Conn → ℕ × Conn
new_id c = let id = (c.next_id + 1) % id_space in (id, record c { next_id = id })

-- What the transport says of a write: it takes the packet, or it fails behind so many of its bytes.
pub data Write : Type 0 where
  whole : Write
  broken : ℕ → Error → Write

-- `send`.
unfoldable pub send : Write → Header → Bytes → Conn → Outcome (Unit {0}) × Conn
send whole h payload c = (ok tt, record c { sent = c.sent ++ (encode h ++ payload) ∷ [] })
send (broken n e) h payload c =
    (err e, record c { sent = c.sent ++ take n (encode h ++ payload) ∷ [] })

-- Only the first error is kept.
unfoldable pub fail : Error → Conn → Conn
fail e c = elim c.close_err [ some _ ↦ c | none ↦ record c { close_err = some e } ]

unfoldable pub is_alive : Conn → Bool
is_alive c = elim c.close_err [ some _ ↦ false | none ↦ true ]

abbrev pub request_header : ℕ → ℕ → ℕ → ℕ → Header
request_header cmd id err_or_offset n = record {
  flags = flag_request;
  command = cmd;
  request_id = id;
  err_code = err_or_offset;
  len = n % 2 ^ 32;
  reserved = 0;
}

-- What the read loop does after a packet: read on, return, or wait for ever on a full channel.
pub data Next : Type 0 where
  read_on : Conn → Next
  stop : Conn → Next
  blocked : Next

-- `readLoop` on one whole packet.
unfoldable pub receive : Header → Bytes → Conn → Next
unfolding fail
receive h payload c =
    if h.flags == flag_reply
    then (elim (lookup h.request_id c.pending) [
      | none ↦ read_on c
      | some ch ↦
          if taken ch c.inbox
          then blocked
          else read_on
              (record c { inbox = (ch, record { header = h; payload = payload }) ∷ c.inbox })
    ])
    else if h.command == cmd_close_session
    then stop (fail closed c)
    else read_on c

-- The loop goes on, or it has ended.
abbrev pub then_read : (Conn → Option Next) → Next → Option Next
then_read k (read_on c) = k c
then_read k (stop c) = some (stop c)
then_read k blocked = some blocked

-- `readLoop` on what the transport delivers before it ends with `io.EOF`; `none` is no Go result.
unfoldable pub read_loop : ℕ → Bytes → Conn → Option Next
read_loop zero stream c = none
read_loop (suc fuel) stream c =
    let h = decode_header (take header_size stream) in
    let rest = drop header_size stream in
    let more = then_read (read_loop fuel (drop h.len rest)) (receive h (take h.len rest) c) in
    if ltb (length stream) header_size
    then some (stop (fail eof c))
    else if ltb max_payload h.len
    then some (stop (fail malformed c))
    else if ltb (length rest) h.len
    then some (stop (fail eof c))
    else more
