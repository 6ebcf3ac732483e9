-- ===== src/Tests/Nfsfs.antt =====
-- internal/nfsfs: a connection manager on a network of numbered links.
use goafp.Base.{ℕ, ◌+◌, Option, none, some, [], ◌∷◌, arith, ltb, if◌then◌else◌}
use goafp.Base.Outcome.{eof, ok, err}
use goafp.Nfsfs.Conn.{ConnManager, Network}
use goafp.Afp.Link.{M}
use goafp.Nfsfs.Conn.Generations.{Later, callers, callers-Later}

-- The world counts the dials; the n-th link is the n-th volume, and a link below 2 is dead.
abbrev network : Network ℕ ℕ ℕ
network = record {
  dial = λ w. (ok (record { conn = w; vol = w }), w + 1);
  close = λ c w. w;
  is_alive = λ c w. ltb 1 c;
}

abbrev manager : ConnManager ℕ ℕ
manager = record { gen = 4; live = some (record { conn = 1; vol = 1 }) }

abbrev redialled_manager : ConnManager ℕ ℕ
redialled_manager = record { gen = 5; live = some (record { conn = 2; vol = 2 }) }

callers-Later_example : Later network (manager, 2) (callers network (4 ∷ 4 ∷ 5 ∷ []) (manager, 2)) 3
callers-Later_example = callers-Later network (4 ∷ 4 ∷ 5 ∷ []) (manager, 2) (omega arith)

-- Two operations: what nil gives differs, and a volume below 2 fails.
abbrev operation : ℕ → Option ℕ → M ℕ ℕ
operation bad none w = (ok bad, w)
operation bad (some v) w = (if ltb v 2 then err eof else ok v, w)
