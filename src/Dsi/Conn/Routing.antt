-- ===== src/Dsi/Conn/Routing.antt =====
-- internal/dsi/conn.go: what holds however the steps of a connection interleave.
use goafp.Base.{
  ℕ, ◌≡◌, ◌≢◌, ◌↔◌, refl, ap, sym, ◌∙◌, true, inl, inr, false, some, List, ◌∷◌, arith, ◌==◌, ==_iff,
  Bool-cases, All,
}
use goafp.Base.Bytes.{Bytes}
use goafp.Base.Outcome.{Outcome, ok, err}
use goafp.Dsi.Header.{Header, flag_reply}
use goafp.Dsi.Conn.{
  Conn, Reply, register, unregister, new_id, lookup, taken, fail, read_on, receive,
}
use goafp.Dsi.Conn.Request.{Wake, send_request, select, send_tickle, send_close, end_close}
use goafp.Dsi.Conn.Steps.{
  register_inv, register_refused, receive_inv, stop_inv, fail-Frame, send_request-Frame,
  send_tickle-Frame, send_close-Frame, end_close-Frame, select_inv,
}
use goafp.Dsi.Conn.Table.{
  DistinctKeys, DistinctKeys-delete, All-delete, All-lookup, All-delete_other, lookup-delete_other,
  lookup-not_taken, lookup-taken, true-false,
}
use goafp.Dsi.Conn.Lifecycle.{
  History, Step, registers, refuses, writes, breaks, selects, leaves, counts, ticks, reads, stops,
  fails, closes, ends, Reach, here, next, Holds, Answers, Returned, IsRouted, taken-returned,
  some-inj, Holds-weaken, Answers-weaken, Returned-weaken, Ended-weaken,
}

register-IsRouted :
    (h : History) (ch id : ℕ) (c d : Conn)
    → IsRouted h c
    → taken ch h.started ≡ false
    → register ch c ≡ some (ok id, d)
    → IsRouted (record h { started = (ch, id) ∷ h.started }) d
register-IsRouted h ch id c d v f e =
    let (ep, ei, fresh) = register_inv ch id c d e in
    record {
      distinct = rw ep (fresh, v.distinct);
      held = rw ep (
        (ground arith, taken-returned ch h.started h.returned f v.ended),
        Holds-weaken ch id h.started f h c.pending refl v.held,
      );
      answered = rw ei (Answers-weaken ch id h.started f c.inbox v.answered);
      present = rw ep (λ k i known open_still. elim (Bool-cases (ch == k)) [
        | inl same ↦
            let this : id ≡ i = some-inj (rw same at known) in
            let mine : (id == i) ≡ true = ground arith in rw mine (ap some ((==_iff ch k).0 same))
        | inr other ↦
            let there = v.present k i (rw other at known) open_still in
            let ne : (id == i) ≡ false = lookup-not_taken id i c.pending fresh there in rw ne there
      ]);
      outcomes = Returned-weaken ch id h.started f h.settled v.outcomes;
      results = Returned-weaken ch id h.started f h.returned v.results;
      ended = Ended-weaken ch id h.started f h.returned v.ended;
    }

IsRouted-frame :
    (h : History) (c d : Conn)
    → (d.pending ≡ c.pending) × (d.inbox ≡ c.inbox)
    → IsRouted h c
    → IsRouted h d
IsRouted-frame h c d (ep, ei) v = record {
  distinct = rw ep v.distinct;
  held = rw ep v.held;
  answered = rw ei v.answered;
  present = rw ep v.present;
  outcomes = v.outcomes;
  results = v.results;
  ended = v.ended;
}

receive-IsRouted :
    (h : History) (p : Header) (payload : Bytes) (c d : Conn)
    → IsRouted h c
    → receive p payload c ≡ read_on d
    → IsRouted h d
receive-IsRouted h p payload c d v e =
    let (ep, cases) = receive_inv p payload c d e in
    elim cases [
      | inl same ↦ IsRouted-frame h c d (ep, same) v
      | inr (ch, known, reply, ei) ↦
          let r = IsRouted-frame h c (record d { inbox = c.inbox }) (ep, refl) v in
          record {
            distinct = r.distinct;
            held = r.held;
            answered =
                rw ei (
                  ((All-lookup (Holds h) p.request_id c.pending v.held known).0, reply),
                  v.answered,
                );
            present = r.present;
            outcomes = v.outcomes;
            results = v.results;
            ended = v.ended;
          }
    ]

-- A request settles on an outcome that is none of its business or answers it.
settle-IsRouted :
    (h : History) (ch : ℕ) (o : Outcome Reply) (c d : Conn)
    → d.pending ≡ c.pending
    → All (Answers h.started) d.inbox
    → Returned h.started (ch, o)
    → IsRouted h c
    → IsRouted (record h { settled = (ch, o) ∷ h.settled }) d
settle-IsRouted h ch o c d ep inbox good v = record {
  distinct = rw ep v.distinct;
  held = rw ep v.held;
  answered = inbox;
  present = rw ep v.present;
  outcomes = (good, v.outcomes);
  results = v.results;
  ended = v.ended;
}

select-IsRouted :
    (h : History) (ch : ℕ) (wake : Wake) (o : Outcome Reply) (c d : Conn)
    → IsRouted h c
    → select wake ch c ≡ some (o, d)
    → IsRouted (record h { settled = (ch, o) ∷ h.settled }) d
select-IsRouted h ch wake o c d v e =
    let (ep, cases) = select_inv wake ch c d o e in
    elim cases [
      | inl (r, eo, found, ei) ↦
          settle-IsRouted h ch o c d ep
            (rw ei (All-delete (Answers h.started) ch c.inbox v.answered))
            (rw eo (All-lookup (Answers h.started) ch c.inbox v.answered found)) v
      | inr (x, eo, ei) ↦ settle-IsRouted h ch o c d ep (rw ei v.answered) (rw eo tt) v
    ]

-- The entries under other ids belong to other requests.
Holds-other :
    (h : History) (ch id : ℕ) (o : Outcome Reply)
    → lookup ch h.started ≡ some id
    → (j k : ℕ) → j ≢ id
    → Holds h (j, k)
    → Holds (record h { returned = (ch, o) ∷ h.returned }) (j, k)
Holds-other h ch id o known j k ne (mine, open_still) = elim (Bool-cases (ch == k)) [
  | inl same ↦
      absurd (
        ne
          (some-inj (sym mine ∙ ap (λ i. lookup i h.started) (sym ((==_iff ch k).0 same)) ∙ known)))
  | inr other ↦ (mine, rw other open_still)
]

leave-IsRouted :
    (h : History) (ch id : ℕ) (o : Outcome Reply) (c : Conn)
    → IsRouted h c
    → lookup ch h.started ≡ some id
    → lookup ch h.settled ≡ some o
    → taken ch h.returned ≡ false
    → IsRouted (record h { returned = (ch, o) ∷ h.returned }) (unregister id c)
unfolding unregister
leave-IsRouted h ch id o c v known outcome open_still = record {
  distinct = DistinctKeys-delete id c.pending v.distinct;
  held =
      All-delete_other (Holds h) (Holds (record h { returned = (ch, o) ∷ h.returned })) id c.pending
        (Holds-other h ch id o known) v.held;
  answered = v.answered;
  present = λ k i mine still. elim (Bool-cases (ch == k)) [
    | inl same ↦ absurd (true-false (rw same at still))
    | inr other ↦
        let there = v.present k i mine (rw other at still) in
        let here_too = v.present ch id known open_still in
        lookup-delete_other id i c.pending (λ e. true-false (
          sym ((==_iff ch k).1 (some-inj (sym here_too ∙ ap (λ j. lookup j c.pending) e ∙ there)))
          ∙ other))
        ∙ there
  ];
  outcomes = v.outcomes;
  results = (All-lookup (Returned h.started) ch h.settled v.outcomes outcome, v.results);
  ended = (lookup-taken ch h.started known, v.ended);
}

-- What has been written does not matter to the routes.
written-IsRouted :
    (h : History) (m : List (ℕ × ℕ)) (c : Conn)
    → IsRouted h c
    → IsRouted (record h { written = m }) c
written-IsRouted h m c v = record {
  distinct = v.distinct;
  held = v.held;
  answered = v.answered;
  present = v.present;
  outcomes = v.outcomes;
  results = v.results;
  ended = v.ended;
}

write-IsRouted :
    (h : History) (m : List (ℕ × ℕ)) (c d : Conn) (x : Conn)
    → (x.pending ≡ c.pending) × (x.inbox ≡ c.inbox)
    → x ≡ d
    → IsRouted h c
    → IsRouted (record h { written = m }) d
write-IsRouted h m c d x frame e v =
    rw (← e) (written-IsRouted h m x (IsRouted-frame h c x frame v))

counted : (c : Conn) → ((new_id c).1.pending ≡ c.pending) × ((new_id c).1.inbox ≡ c.inbox)
unfolding new_id
counted c = (refl, refl)

Step-IsRouted : {h h' : History} {c d : Conn} → Step h c h' d → IsRouted h c → IsRouted h' d
Step-IsRouted {h} {h'} {c} {d} (registers ch id f e eh) v =
    rw eh (register-IsRouted h ch id c d v f e)
Step-IsRouted {h} {h'} {c} {d} (refuses ch x e eh) v =
    rw eh (IsRouted-frame h c d (register_refused ch x c d e) v)
Step-IsRouted {h} {h'} {c} {d} (writes write ch id cmd offset payload known _ e eh) v = rw eh (
    write-IsRouted h ((ch, id) ∷ h.written) c d (send_request write id cmd offset payload c).1
      (send_request-Frame write id cmd offset payload c) (ap (λ q. q.1) e) v)
Step-IsRouted {h} {h'} {c} {d} (breaks write ch id cmd offset payload x known _ e eh) v =
    let w =
      write-IsRouted h ((ch, id) ∷ h.written) c d (send_request write id cmd offset payload c).1
        (send_request-Frame write id cmd offset payload c) (ap (λ q. q.1) e) v in
    rw eh (
      settle-IsRouted (record h { written = (ch, id) ∷ h.written }) ch (err x) d d refl w.answered
        tt w)
Step-IsRouted {h} {h'} {c} {d} (selects ch wake o _ _ e eh) v =
    rw eh (select-IsRouted h ch wake o c d v e)
Step-IsRouted {h} {h'} {c} {d} (leaves ch id o known outcome open_still e eh) v =
    rw (eh, ← e) (leave-IsRouted h ch id o c v known outcome open_still)
Step-IsRouted {h} {h'} {c} {d} (counts e eh) v =
    rw (eh, ← e) (IsRouted-frame h c (new_id c).1 (counted c) v)
Step-IsRouted {h} {h'} {c} {d} (ticks write id e eh) v =
    rw (eh, ← e) (IsRouted-frame h c (send_tickle write id c).1 (send_tickle-Frame write id c) v)
Step-IsRouted {h} {h'} {c} {d} (reads p payload e eh) v =
    rw eh (receive-IsRouted h p payload c d v e)
Step-IsRouted {h} {h'} {c} {d} (stops p payload e eh) v =
    rw eh (IsRouted-frame h c d (stop_inv p payload c d e) v)
Step-IsRouted {h} {h'} {c} {d} (fails x e eh) v =
    rw (eh, ← e) (IsRouted-frame h c (fail x c) (fail-Frame x c) v)
Step-IsRouted {h} {h'} {c} {d} (closes write id e eh) v =
    rw (eh, ← e) (IsRouted-frame h c (send_close write id c) (send_close-Frame write id c) v)
Step-IsRouted {h} {h'} {c} {d} (ends e eh) v =
    rw (eh, ← e) (IsRouted-frame h c (end_close c) (end_close-Frame c) v)

Reach-IsRouted : {h : History} {c : Conn} → Reach h c → IsRouted h c
Reach-IsRouted here = record {
  distinct = tt;
  held = tt;
  answered = tt;
  present = λ ch id e. absurd cc;
  outcomes = tt;
  results = tt;
  ended = tt;
}
Reach-IsRouted (next r s) = Step-IsRouted s (Reach-IsRouted r)

-- In every connection state that interleavings of requests that register, write their packet or
-- fail to, come out of their select by whichever case, and leave the table, of tickles, incoming
-- packets, failures and closes reach, the ids of the requests in flight differ.
pub Reach-DistinctKeys : {h : History} {c : Conn} → Reach h c → DistinctKeys c.pending
Reach-DistinctKeys r = (Reach-IsRouted r).distinct

-- In every connection state that interleavings of requests that register, write their packet or
-- fail to, come out of their select by whichever case, and leave the table, of tickles, incoming
-- packets, failures and closes reach, a reply that a request has returned to its caller is a reply
-- packet with the id that this request registered.
pub Reach-returned :
    {h : History} {c : Conn} (ch : ℕ) {r : Reply}
    → Reach h c
    → lookup ch h.returned ≡ some (ok r)
    → (lookup ch h.started ≡ some r.header.request_id) × (r.header.flags ≡ flag_reply)
Reach-returned {h} {c} ch reach e =
    All-lookup (Returned h.started) ch h.returned (Reach-IsRouted reach).results e

-- In every connection state that interleavings of requests that register, write their packet or
-- fail to, come out of their select by whichever case, and leave the table, of tickles, incoming
-- packets, failures and closes reach, the table has a channel under an id if and only if the
-- request of that channel has registered under that id and not yet returned: a request in flight
-- keeps its entry whatever the others do, and one that has returned, by a reply or by any error,
-- has left none.
pub Reach-pending_iff :
    {h : History} {c : Conn} (ch id : ℕ)
    → Reach h c
    → (lookup id c.pending ≡ some ch)
      ↔ ((lookup ch h.started ≡ some id) × (taken ch h.returned ≡ false))
Reach-pending_iff {h} {c} ch id reach =
    let v = Reach-IsRouted reach in
    (
      All-lookup (Holds h) id c.pending v.held,
      λ (known, open_still). v.present ch id known open_still,
    )
