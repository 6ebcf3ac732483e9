-- ===== src/Dsi/Conn/Lifecycle.antt =====
-- internal/dsi/conn.go: many requests in flight, as the steps of a connection that its callers, its
-- reader and its ticker take in any order.
use goafp.Base.{
  ℕ, ◌≡◌, refl, sym, ap, ◌∙◌, true, inl, inr, false, some, List, [], ◌∷◌, arith, ◌==◌, ==_iff,
  Bool-cases, All,
}
use goafp.Base.Bytes.{Bytes}
use goafp.Base.Outcome.{Error, Outcome, ok, err, panic}
use goafp.Dsi.Header.{Header, flag_reply}
use goafp.Dsi.Conn.{
  Conn, Reply, Write, register, unregister, new_id, lookup, taken, new_conn, fail, read_on, stop,
  receive,
}
use goafp.Dsi.Conn.Request.{Wake, send_request, select, send_tickle, send_close, end_close}
use goafp.Dsi.Conn.Table.{DistinctKeys, lookup-cons_fresh}

-- The requests so far, each by its channel: those that have registered, with their ids; those that
-- have tried to write their packet, with their ids; those that know what they will return; and those
-- that have left the table and returned it to their callers.
pub record History : Type 0 where
  pub started : List (ℕ × ℕ)
  pub written : List (ℕ × ℕ)
  pub settled : List (ℕ × Outcome Reply)
  pub returned : List (ℕ × Outcome Reply)

abbrev pub no_requests : History
no_requests = record { started = []; written = []; settled = []; returned = [] }

-- A critical section of some goroutine. A request takes four of them: it registers, writes, comes
-- out of its select, and leaves the table; one whose write fails settles on that error without a
-- select. Tickles and `Close` take their ids in a section of its own.
pub data Step (h : History) (c : Conn) (h' : History) (d : Conn) : Type 0 where
  registers :
      (ch id : ℕ)
      → taken ch h.started ≡ false
      → register ch c ≡ some (ok id, d)
      → h' ≡ record h { started = (ch, id) ∷ h.started }
      → Step h c h' d
  refuses : (ch : ℕ) (e : Error) → register ch c ≡ some (err e, d) → h' ≡ h → Step h c h' d
  writes :
      (write : Write) (ch id cmd offset : ℕ) (payload : Bytes)
      → lookup ch h.started ≡ some id
      → taken ch h.written ≡ false
      → send_request write id cmd offset payload c ≡ (ok tt, d)
      → h' ≡ record h { written = (ch, id) ∷ h.written }
      → Step h c h' d
  breaks :
      (write : Write) (ch id cmd offset : ℕ) (payload : Bytes) (e : Error)
      → lookup ch h.started ≡ some id
      → taken ch h.written ≡ false
      → send_request write id cmd offset payload c ≡ (err e, d)
      → h' ≡ record h { written = (ch, id) ∷ h.written; settled = (ch, err e) ∷ h.settled }
      → Step h c h' d
  selects :
      (ch : ℕ) (wake : Wake) (o : Outcome Reply)
      → taken ch h.written ≡ true
      → taken ch h.settled ≡ false
      → select wake ch c ≡ some (o, d)
      → h' ≡ record h { settled = (ch, o) ∷ h.settled }
      → Step h c h' d
  leaves :
      (ch id : ℕ) (o : Outcome Reply)
      → lookup ch h.started ≡ some id
      → lookup ch h.settled ≡ some o
      → taken ch h.returned ≡ false
      → unregister id c ≡ d
      → h' ≡ record h { returned = (ch, o) ∷ h.returned }
      → Step h c h' d
  counts : (new_id c).1 ≡ d → h' ≡ h → Step h c h' d
  ticks : (write : Write) (id : ℕ) → (send_tickle write id c).1 ≡ d → h' ≡ h → Step h c h' d
  reads : (p : Header) (payload : Bytes) → receive p payload c ≡ read_on d → h' ≡ h → Step h c h' d
  stops : (p : Header) (payload : Bytes) → receive p payload c ≡ stop d → h' ≡ h → Step h c h' d
  fails : (e : Error) → fail e c ≡ d → h' ≡ h → Step h c h' d
  closes : (write : Write) (id : ℕ) → send_close write id c ≡ d → h' ≡ h → Step h c h' d
  ends : end_close c ≡ d → h' ≡ h → Step h c h' d

pub data Reach : History → Conn → Type 0 where
  here : Reach no_requests new_conn
  next : {h h' : History} {c d : Conn} → Reach h c → Step h c h' d → Reach h' d

-- An entry of `pending` belongs to a request that has registered and not returned.
abbrev pub Holds : History → ℕ × ℕ → Type 0
Holds h (id, ch) = (lookup ch h.started ≡ some id) × (taken ch h.returned ≡ false)

abbrev pub Answers : List (ℕ × ℕ) → ℕ × Reply → Type 0
Answers g (ch, r) = (lookup ch g ≡ some r.header.request_id) × (r.header.flags ≡ flag_reply)

-- A reply that a request returns answers it.
abbrev pub Returned : List (ℕ × ℕ) → ℕ × Outcome Reply → Type 0
Returned g (ch, ok r) = Answers g (ch, r)
Returned g (ch, err e) = Unit
Returned g (ch, panic) = ⊥

-- It has started.
abbrev pub Ended : List (ℕ × ℕ) → ℕ × Outcome Reply → Type 0
Ended g (ch, o) = taken ch g ≡ true

pub record IsRouted (h : History) (c : Conn) : Type 0 where
  pub distinct : DistinctKeys c.pending
  pub held : All (Holds h) c.pending
  pub answered : All (Answers h.started) c.inbox
  pub present :
      (ch id : ℕ)
      → lookup ch h.started ≡ some id
      → taken ch h.returned ≡ false
      → lookup id c.pending ≡ some ch
  pub outcomes : All (Returned h.started) h.settled
  pub results : All (Returned h.started) h.returned
  pub ended : All (Ended h.started) h.returned

pub taken-returned :
    (ch : ℕ) (g : List (ℕ × ℕ)) (m : List (ℕ × Outcome Reply))
    → taken ch g ≡ false
    → All (Ended g) m
    → taken ch m ≡ false
taken-returned ch g [] f h = refl
taken-returned ch g ((k, o) ∷ m) f h = elim (Bool-cases (k == ch)) [
  | inl same ↦ ground (arith, ap (λ i. taken i g) ((==_iff k ch).0 same), h.0)
  | inr other ↦ rw other (taken-returned ch g m f h.1)
]

pub some-inj : {a b : ℕ} → some a ≡ some b → a ≡ b
some-inj e = cc

module _ (ch id : ℕ) (g : List (ℕ × ℕ)) (f : taken ch g ≡ false) where
  pub Holds-weaken :
      (h : History) (m : List (ℕ × ℕ))
      → h.started ≡ g
      → All (Holds h) m
      → All (Holds (record h { started = (ch, id) ∷ g })) m
  Holds-weaken h [] e a = tt
  Holds-weaken h ((i, k) ∷ m) e a = (
    (lookup-cons_fresh ch id k i g f (ap (λ s. lookup k s) (sym e) ∙ a.0.0), a.0.1),
    Holds-weaken h m e a.1,
  )

  Answers-cons : (k : ℕ) (r : Reply) → Answers g (k, r) → Answers ((ch, id) ∷ g) (k, r)
  Answers-cons k r h = (lookup-cons_fresh ch id k r.header.request_id g f h.0, h.1)

  pub Answers-weaken : (m : List (ℕ × Reply)) → All (Answers g) m → All (Answers ((ch, id) ∷ g)) m
  Answers-weaken [] h = tt
  Answers-weaken ((k, r) ∷ m) h = (Answers-cons k r h.0, Answers-weaken m h.1)

  pub Returned-weaken :
      (m : List (ℕ × Outcome Reply)) → All (Returned g) m → All (Returned ((ch, id) ∷ g)) m
  Returned-weaken [] h = tt
  Returned-weaken ((k, ok r) ∷ m) h = (Answers-cons k r h.0, Returned-weaken m h.1)
  Returned-weaken ((k, err e) ∷ m) h = (tt, Returned-weaken m h.1)
  Returned-weaken ((k, panic) ∷ m) h = absurd h.0

  pub Ended-weaken : (m : List (ℕ × Outcome Reply)) → All (Ended g) m → All (Ended ((ch, id) ∷ g)) m
  Ended-weaken [] h = tt
  Ended-weaken ((k, o) ∷ m) h = (ground arith, Ended-weaken m h.1)
