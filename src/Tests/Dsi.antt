-- ===== src/Tests/Dsi.antt =====
-- internal/dsi on concrete packets.
use goafp.Base.{ℕ, ◌<◌, ◌≡◌, ◌↔◌, refl, false, none, some, List, [], ◌∷◌, arith, replicate, All}
use goafp.Base.Bytes.{be}
use goafp.Base.Outcome.{eof, ok, err}
use goafp.Dsi.Header.{Header, IsValid, encode, cmd_command, flag_reply}
use goafp.Dsi.Options.{Opt}
use goafp.Dsi.Conn.{
  Conn, Reply, register, next_free, taken, id_space, read_loop, lookup, receive, Write, send,
  unregister,
}
use goafp.Dsi.Conn.Register.{register_lem, register_closed}
use goafp.Dsi.Conn.Framing.{Framing, Framing-prop}
use goafp.Dsi.Conn.Stream.{Packet, IsPacket, encode_packets, receive_all, read_loop-encode_packets}
use goafp.Dsi.Conn.Table.{DistinctKeys}
use goafp.Dsi.Conn.Request.{Wake, send_request, select}
use goafp.Dsi.Conn.Lifecycle.{History, Step, Reach}
use goafp.Dsi.Conn.Routing.{Reach-DistinctKeys, Reach-returned, Reach-pending_iff}

abbrev reply_header : Header
reply_header = record {
  flags = 1;
  command = 2;
  request_id = 7;
  err_code = 0;
  len = 3;
  reserved = 0;
}

reply_header-IsValid : IsValid reply_header
reply_header-IsValid = record {
  flags_lt = omega arith;
  command_lt = omega arith;
  request_id_lt = omega arith;
  err_code_lt = omega arith;
  len_lt = omega arith;
  reserved_lt = omega arith;
}

abbrev options : List Opt
options = (1, be 4 1024) ∷ (0, be 4 0x100000) ∷ (9, []) ∷ []

-- Request 7 is in flight on channel 0.
abbrev waiting : Conn
waiting = record { next_id = 7; pending = (7, 0) ∷ []; close_err = none; inbox = []; sent = [] }

abbrev tickle_header : Header
tickle_header = record {
  flags = 0;
  command = 5;
  request_id = 1;
  err_code = 0;
  len = 0;
  reserved = 0;
}

tickle_header-IsValid : IsValid tickle_header
tickle_header-IsValid = record {
  flags_lt = omega arith;
  command_lt = omega arith;
  request_id_lt = omega arith;
  err_code_lt = omega arith;
  len_lt = omega arith;
  reserved_lt = omega arith;
}

abbrev packets : List Packet
packets = (tickle_header, []) ∷ (reply_header, 10 ∷ 20 ∷ 30 ∷ []) ∷ []

packets-IsPacket : All IsPacket packets
packets-IsPacket =
    ((tickle_header-IsValid, refl, omega arith), ((reply_header-IsValid, refl, omega arith), tt))

read_loop-encode_packets_example :
    read_loop 3 (encode_packets packets) waiting ≡ some (receive_all packets waiting)
read_loop-encode_packets_example =
    read_loop-encode_packets packets 3 waiting packets-IsPacket (omega arith)

abbrev huge_header : Header
huge_header = record {
  flags = 1;
  command = 2;
  request_id = 7;
  err_code = 0;
  len = 0x1000001;
  reserved = 0;
}

huge_header-IsValid : IsValid huge_header
huge_header-IsValid = record {
  flags_lt = omega arith;
  command_lt = omega arith;
  request_id_lt = omega arith;
  err_code_lt = omega arith;
  len_lt = omega arith;
  reserved_lt = omega arith;
}

register_lem_example :
    (id : ℕ) × (register 1 waiting
      ≡ some (ok id, record waiting { next_id = id; pending = (id, 1) ∷ waiting.pending }))
    × (taken id waiting.pending ≡ false)
    × (id < id_space)
register_lem_example = register_lem 1 waiting refl (omega arith)

abbrev dead : Conn
dead = record waiting { close_err = some eof }

register_closed_example : register 1 dead ≡ some (err eof, dead)
register_closed_example = register_closed 1 dead refl

-- The first request of a connection, and its reply.
abbrev started : Conn
started = record {
  next_id = 1;
  pending = (1, 0) ∷ [];
  close_err = none;
  inbox = [];
  sent = (0 ∷ 2 ∷ 0 ∷ 1 ∷ replicate 12 0) ∷ [];
}

abbrev first_header : Header
first_header = record {
  flags = 1;
  command = 2;
  request_id = 1;
  err_code = 0;
  len = 0;
  reserved = 0;
}

abbrev answer : Reply
answer = record { header = first_header; payload = [] }

abbrev answered : Conn
answered = record started { inbox = (0, answer) ∷ [] }

abbrev registered : Conn
registered = record started { sent = [] }

abbrev one_started : History
one_started = record { started = (0, 1) ∷ []; written = []; settled = []; returned = [] }

abbrev one_written : History
one_written = record one_started { written = (0, 1) ∷ [] }

abbrev one_settled : History
one_settled = record one_written { settled = (0, ok answer) ∷ [] }

abbrev one_returned : History
one_returned = record one_settled { returned = (0, ok answer) ∷ [] }

registered-Reach : Reach one_started registered
unfolding register next_free
registered-Reach = Reach.next Reach.here (Step.registers 0 1 refl refl refl)

started-Reach : Reach one_written started
unfolding send_request send encode
started-Reach =
    Reach.next registered-Reach (Step.writes Write.whole 0 1 cmd_command 0 [] refl refl refl refl)

answered-Reach : Reach one_written answered
unfolding receive
answered-Reach = Reach.next started-Reach (Step.reads first_header [] refl refl)

Reach-DistinctKeys_example : DistinctKeys answered.pending
Reach-DistinctKeys_example = Reach-DistinctKeys answered-Reach

-- The request has its reply, and its entry is still there.
settled-Reach : Reach one_settled started
unfolding select
settled-Reach =
    Reach.next answered-Reach (Step.selects 0 Wake.replied (ok answer) refl refl refl refl)

Reach-pending_iff_example :
    (lookup 1 started.pending ≡ some 0)
    ↔ ((lookup 0 one_settled.started ≡ some 1) × (taken 0 one_settled.returned ≡ false))
Reach-pending_iff_example = Reach-pending_iff 0 1 settled-Reach

idle-Reach : Reach one_returned (record started { pending = [] })
unfolding unregister
idle-Reach = Reach.next settled-Reach (Step.leaves 0 1 (ok answer) refl refl refl refl refl)

-- Another request, whose packet breaks off behind four bytes, and settles on that error.
abbrev cut_short : Conn
cut_short = record registered { sent = (0 ∷ 2 ∷ 0 ∷ 1 ∷ []) ∷ [] }

cut_short-Reach : Reach (record one_written { settled = (0, err eof) ∷ [] }) cut_short
unfolding send_request send encode
cut_short-Reach =
    Reach.next registered-Reach
      (Step.breaks (Write.broken 4 eof) 0 1 cmd_command 0 [] eof refl refl refl refl)

Reach-returned_example :
    (lookup 0 one_returned.started ≡ some answer.header.request_id)
    × (answer.header.flags ≡ flag_reply)
Reach-returned_example = Reach-returned 0 {r = answer} idle-Reach refl

abbrev packets_framing : Framing (encode_packets packets)
packets_framing = (packets, (packets-IsPacket, refl))

-- The same packets, counted on their own.
abbrev other_framing : Framing (encode_packets packets)
other_framing = (packets, ((packets-IsPacket.0, (packets-IsPacket.1.0, tt)), refl))

Framing-prop_example : packets_framing ≡ other_framing
Framing-prop_example = Framing-prop (encode_packets packets) packets_framing other_framing
