-- ===== src/Nfsfs/Conn.antt =====
-- internal/nfsfs/conn.go: the connection that outlives its links.
pub mod Generations
pub mod Runs
use goafp.Base.{
  ℕ, zero, suc, ◌+◌, ◌-◌, ◌*◌, ◌/◌, ◌%◌, ◌^◌, ◌≤◌, ◌<◌, min, ◌≡◌, refl, sym, ap, ◌∙◌, ◌≢◌, ◌↔◌, ◌⊎◌,
  inl, inr, Bool, true, false, not, ◌&&◌, ◌||◌, Option, none, some, List, [], ◌∷◌, ◌++◌, map,
  append-nil, append_assoc, arith, bit_and, bit_or, ltb, leb, ◌==◌, if◌then◌else◌, ltb→lt, ltb→le,
  lt→ltb, le→ltb, ==_iff, Bool-cases, Option-cases, length, get_or, take, drop, replicate, All,
  length-append, take-append-drop, length-take, length-drop, length-replicate, take-append_length,
  drop-append_length, drop-drop, take-append_eq, get_or-append_length, drop-append_eq, All-append,
  take_all,
}
use goafp.Base.Int.{ℤ, pos, negsuc, ◌-ℤ◌, signed32, low32}
use goafp.Base.Bytes.{
  Bytes, IsByte, IsBytes, be, from_be, length-be, be-IsBytes, from_be-be, from_be-lt, be-from_be,
}
use goafp.Base.Outcome.{
  Error, server, truncated, malformed, unsupported, auth_failed, eof, not_exist, permission, exist,
  closed, transport, Outcome, ok, err, panic, NoPanic,
}
use goafp.Afp.Link.{M, step, pure}

-- One established (conn, session, volume): they are set and dropped together.
pub record Live (C V : Type 0) : Type 0 where
  pub conn : C
  pub vol : V

-- `gen` is a uint64.
pub record ConnManager (C V : Type 0) : Type 0 where
  pub gen : ℕ
  pub live : Option (Live C V)

-- The dialer, and what is used of a DSI connection.
pub record Network (W C V : Type 0) : Type 0 where
  pub dial : M W (Live C V)
  pub close : C → W → W
  pub is_alive : C → W → Bool

module _ {W C V : Type 0} (net : Network W C V) where
  -- The manager and the world around it.
  abbrev pub State : Type 0
  State = ConnManager C V × W

  abbrev pub close_live : Option (Live C V) → W → W
  close_live none w = w
  close_live (some l) w = net.close l.conn w

  unfoldable pub new_conn_manager : M W (ConnManager C V)
  new_conn_manager w =
      step (net.dial w).0 (net.dial w).1 λ l. pure (record { gen = 1; live = some l })

  abbrev pub redialled : ConnManager C V → Outcome (Live C V) × W → Outcome (Unit {0}) × State
  redialled m (ok l, w) = (ok tt, (record { gen = (m.gen + 1) % 2 ^ 64; live = some l }, w))
  redialled m (err e, w) = (err e, (record m { live = none }, w))
  redialled m (panic, w) = (panic, (m, w))

  unfoldable pub reconnect : ℕ → M State (Unit {0})
  reconnect failed_gen (m, w) =
      if m.gen == failed_gen then redialled m (net.dial (close_live m.live w)) else (ok tt, (m, w))

  unfoldable pub close : State → State
  close (m, w) = (m, close_live m.live w)

  abbrev pub vol_of : Option (Live C V) → Option V
  vol_of none = none
  vol_of (some l) = some l.vol

  module _ {A : Type 0} (fn : Option V → M W A) where
    -- `fn` on a volume, or on nil, while the manager stays as it is.
    abbrev pub run_on : Option V → M State A
    run_on v (m, w) = let (o, w') = fn v w in (o, (m, w'))

    -- The second half of `do`. `others` is what other goroutines do to the manager wherever `do`
    -- does not hold its lock: at 0 until the first run of `fn`, at 1 until the reconnect, at 2 until
    -- the second look at the volume.
    unfoldable pub retry : (ℕ → State → State) → ℕ → M State A
    retry others gen s =
        let (o, s') = reconnect gen (others 1 s) in
        let s'' = others 2 s' in step o s' λ _ _. run_on (vol_of s''.0.live) s''

    abbrev pub unless_dead :
        (ℕ → State → State) → ℕ → Live C V → Outcome A × State → Outcome A × State
    unless_dead others gen l (ok a, s) = (ok a, s)
    unless_dead others gen l (err e, s) =
        if net.is_alive l.conn s.1 then (err e, s) else retry others gen s
    unless_dead others gen l (panic, s) = (panic, s)

    abbrev pub first_run : (ℕ → State → State) → ℕ → Option (Live C V) → M State A
    first_run others gen none s = retry others gen s
    first_run others gen (some l) s = unless_dead others gen l (run_on (some l.vol) (others 0 s))

    -- `do`.
    unfoldable pub do_op : (ℕ → State → State) → M State A
    do_op others (m, w) = first_run others m.gen m.live (m, w)
