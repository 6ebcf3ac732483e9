-- ===== src/Afp/Fork/Failing.antt =====
-- internal/afp/fork.go: `ReadAt` when a request of it fails.
use goafp.Base.{
  ℕ, ◌+◌, ◌≡◌, refl, ap, ◌∙◌, ◌≢◌, Option-cases, ◌⊎◌, inl, inr, Bool, true, false, Bool-cases,
  Option, none, some, List, [], ◌∷◌, ◌++◌, arith, ◌==◌, length,
}
use goafp.Base.Bytes.{Bytes}
use goafp.Base.Outcome.{Outcome-cases, Error, Outcome, ok, err, panic, NoPanic}
use goafp.Dsi.Conn.{Reply}
use goafp.Dsi.Header.{cmd_command}
use goafp.Afp.Codes.{result_err, res_eof}
use goafp.Afp.Link.{◌>>◌, pure, check, Link, command}
use goafp.Afp.Fork.{Fork, Chunk, Fetched, read_request, read_chunk, keep_chunk, fetch, read_at}
use goafp.Afp.Fork.Reads.{suc-ne-zero}

-- What makes a chunk fail, and with which error: the connection's, or the code of the reply.
abbrev pub IsFailure : Outcome Reply → Error → Type 0
IsFailure (ok r) e = (r.header.err_code ≢ res_eof) × (result_err r.header.err_code ≡ some e)
IsFailure (err e') e = e' ≡ e
IsFailure panic e = ⊥

==_no : (m n : ℕ) → m ≢ n → (m == n) ≡ false
==_no m n h = ground arith

==_no_inv : (m n : ℕ) → (m == n) ≡ false → m ≢ n
==_no_inv m n h = ground arith

check-state : {A W : Type 0} (o : Option Error) (a : A) (w : W) → ((do check o; pure a) w).1 ≡ w
check-state none a w = refl
check-state (some e) a w = refl

keep_chunk-ok :
    (sooner : Bool) (c : Chunk) (got : Bytes × Bool) (m : List (ℕ × Fetched))
    → (m' : List (ℕ × Fetched)) × (keep_chunk sooner c (ok got) (ok m) ≡ ok m')
keep_chunk-ok sooner c (got, over) m = (_, refl)

module _ {W : Type 0} (link : Link W) (f : Fork) (off : ℕ) where
  -- The answer to the request for a chunk, in some state.
  abbrev pub answer : Chunk → W → Outcome Reply × W
  answer c = link.request cmd_command 0 (read_request link f (off + c.start) c.want)

  -- The state once every chunk has been asked for, in the order of the list.
  unfoldable pub asked : List Chunk → W → W
  asked [] w = w
  asked (c ∷ cs) w = asked cs (answer c w).1

  read_chunk-state :
      (c : Chunk) (w : W) → (read_chunk link f (off + c.start) c.want w).1 ≡ (answer c w).1
  unfolding read_chunk command result_err
  read_chunk-state c w = elim (Outcome-cases (answer c w).0) [
    | inl (r, e) ↦ elim (Bool-cases (r.header.err_code == res_eof)) [
      | inl t ↦ rw (e, t)
      | inr t ↦
          rw (e, t) (check-state (result_err r.header.err_code) (r.payload, false) (answer c w).1)
    ]
    | inr (inl (x, e)) ↦ rw e
    | inr (inr e) ↦ rw e
  ]

  fetch-state : (cs : List Chunk) (w : W) → (fetch link f off cs w).1 ≡ asked cs w
  unfolding fetch asked
  fetch-state [] w = refl
  fetch-state (c ∷ cs) w = rw (read_chunk-state c w) (fetch-state cs (answer c w).1)

  read_chunk-IsFailure :
      (c : Chunk) (x : Error) (w : W)
      → IsFailure (answer c w).0 x
      → (read_chunk link f (off + c.start) c.want w).0 ≡ err x
  unfolding read_chunk command
  read_chunk-IsFailure c x w h = elim (Outcome-cases (answer c w).0) [
    | inl (r, e) ↦
        let h' : IsFailure (ok r) x = rw e at h in
        rw (e, ==_no r.header.err_code res_eof h'.0, h'.1)
    | inr (inl (y, e)) ↦ let h' : y ≡ x = rw e at h in rw (e, h')
    | inr (inr e) ↦ absurd (rw e at h)
  ]

  -- A chunk of the list fails with this error, when those before it have been asked for.
  abbrev pub FailsAt : List Chunk → W → Error → Type 0
  FailsAt cs w x =
      (before : List Chunk) × (c : Chunk) × (after : List Chunk) × (cs ≡ before ++ c ∷ after)
      × IsFailure (answer c (asked before w)).0 x

  FailsAt-cons :
      (c : Chunk) (cs : List Chunk) (w : W) (x : Error)
      → FailsAt cs (answer c w).1 x
      → FailsAt (c ∷ cs) w x
  unfolding asked
  FailsAt-cons c cs w x (before, d, after, e, bad) = (c ∷ before, d, after, ap (◌∷◌ c) e, bad)

  FailsAt-head :
      (c : Chunk) (cs : List Chunk) (w : W) (x : Error)
      → IsFailure (answer c w).0 x
      → FailsAt (c ∷ cs) w x
  unfolding asked
  FailsAt-head c cs w x bad = ([], c, cs, refl, bad)

  abbrev Group : Type 0
  Group = Outcome (List (ℕ × Fetched))

  -- An error of a group is that of one of its chunks.
  abbrev Fails : List Chunk → W → Group → Type 0
  Fails cs w o = (x : Error) × (o ≡ err x) × FailsAt cs w x

  fetch-cons :
      (c : Chunk) (cs : List Chunk) (w : W)
      → (fetch link f off (c ∷ cs) w).0
        ≡ keep_chunk
            (link.sooner (fetch link f off cs (answer c w).1).1)
            c
            (read_chunk link f (off + c.start) c.want w).0
            (fetch link f off cs (answer c w).1).0
  unfolding fetch
  fetch-cons c cs w = rw (read_chunk-state c w) refl

  keep_chunk-Fails :
      (sooner : Bool) (c : Chunk) (cs : List Chunk) (w : W) (x y : Error)
      → IsFailure (answer c w).0 x
      → FailsAt cs (answer c w).1 y
      → Fails (c ∷ cs) w (keep_chunk sooner c (err x) (err y))
  keep_chunk-Fails true c cs w x y bad worse = (x, refl, FailsAt-head c cs w x bad)
  keep_chunk-Fails false c cs w x y bad worse = (y, refl, FailsAt-cons c cs w y worse)

  -- A group ends with its chunks, or with an error of one.
  abbrev Settles : List Chunk → W → Group → Type 0
  Settles cs w o = ((m : List (ℕ × Fetched)) × (o ≡ ok m)) ⊎ Fails cs w o

  failed_head :
      (c : Chunk) (cs : List Chunk) (w : W) (x : Error)
      → IsFailure (answer c w).0 x
      → Settles cs (answer c w).1 (fetch link f off cs (answer c w).1).0
      → Fails (c ∷ cs) w (fetch link f off (c ∷ cs) w).0
  failed_head c cs w x bad (inl (m, e)) = (
    x,
    fetch-cons c cs w ∙ rw (read_chunk-IsFailure c x w bad, e) refl,
    FailsAt-head c cs w x bad,
  )
  failed_head c cs w x bad (inr (y, e, worse)) =
      let (z, e', at) =
        keep_chunk-Fails (link.sooner (fetch link f off cs (answer c w).1).1) c cs w x y bad
          worse in
      (z, fetch-cons c cs w ∙ rw (read_chunk-IsFailure c x w bad, e) e', at)

  good_head :
      (c : Chunk) (cs : List Chunk) (w : W) (got : Bytes × Bool)
      → (read_chunk link f (off + c.start) c.want w).0 ≡ ok got
      → Fails cs (answer c w).1 (fetch link f off cs (answer c w).1).0
      → Fails (c ∷ cs) w (fetch link f off (c ∷ cs) w).0
  good_head c cs w got good (x, e, at) =
      (x, fetch-cons c cs w ∙ rw (good, e) refl, FailsAt-cons c cs w x at)

  module _ (quiet : (c : Chunk) (w : W) → NoPanic (answer c w).0) where
    -- A request brings data or fails.
    read_chunk-cases :
        (c : Chunk) (w : W)
        → ((got : Bytes × Bool) × ((read_chunk link f (off + c.start) c.want w).0 ≡ ok got))
          ⊎ ((x : Error) × IsFailure (answer c w).0 x)
    unfolding read_chunk command
    read_chunk-cases c w = elim (Outcome-cases (answer c w).0) [
      | inl (r, e) ↦ elim (Bool-cases (r.header.err_code == res_eof)) [
        | inl over ↦ inl ((r.payload, true), rw (e, over) refl)
        | inr more ↦ elim (Option-cases (result_err r.header.err_code)) [
          | inl fine ↦ inl ((r.payload, false), rw (e, more, fine) refl)
          | inr (x, bad) ↦ inr (x, rw e (==_no_inv r.header.err_code res_eof more, bad))
        ]
      ]
      | inr (inl (x, e)) ↦ inr (x, rw e refl)
      | inr (inr e) ↦ absurd (rw e at (quiet c w))
    ]

    fetch-Settles : (cs : List Chunk) (w : W) → Settles cs w (fetch link f off cs w).0
    unfolding fetch
    fetch-Settles [] w = inl ([], refl)
    fetch-Settles (c ∷ cs) w =
        let rest = fetch-Settles cs (answer c w).1 in
        elim (read_chunk-cases c w) [
          | inr (x, bad) ↦ inr (failed_head c cs w x bad rest)
          | inl (got, good) ↦ elim rest [
            | inl (m, e) ↦
                let (m', e') =
                  keep_chunk-ok (link.sooner (fetch link f off cs (answer c w).1).1) c got m in
                inl (m', fetch-cons c cs w ∙ rw (good, e) e')
            | inr worse ↦ inr (good_head c cs w got good worse)
          ]
        ]

    fetch-failed :
        (before after : List Chunk) (c : Chunk) (x : Error) (w : W)
        → IsFailure (answer c (asked before w)).0 x
        → Fails (before ++ c ∷ after) w (fetch link f off (before ++ c ∷ after) w).0
    unfolding asked
    fetch-failed [] after c x w bad =
        failed_head c after w x bad (fetch-Settles after (answer c w).1)
    fetch-failed (b ∷ before) after c x w bad =
        let rest = fetch-failed before after c x (answer b w).1 bad in
        elim (read_chunk-cases b w) [
          | inl (got, good) ↦ good_head b (before ++ c ∷ after) w got good rest
          | inr (y, worse) ↦ failed_head b (before ++ c ∷ after) w y worse (inr rest)
        ]

    -- Let no request panic. If the request of some chunk of a `ReadAt` on a nonempty buffer fails,
    -- by an error of the connection or a result code that is neither no error nor the end of the
    -- fork, in the state that those taken before it have left, then the call returns an error and
    -- no bytes, every chunk has been asked for, and the error is that of this chunk or of another
    -- one whose request failed, whichever returned first.
    pub read_at-failed :
        (before after : List Chunk) (c : Chunk) (x : Error) (p : Bytes) (w : W)
        → p ≢ []
        → IsFailure (answer c (asked before w)).0 x
        → (y : Error) × (read_at link f (before ++ c ∷ after) p off w
            ≡ (err y, asked (before ++ c ∷ after) w))
          × FailsAt (before ++ c ∷ after) w y
    unfolding read_at
    read_at-failed before after c x [] w some_bytes bad = absurd (some_bytes refl)
    read_at-failed before after c x (b ∷ bs) w some_bytes bad =
        let (y, e, at) = fetch-failed before after c x w bad in
        (y, rw (suc-ne-zero (length bs), e, fetch-state (before ++ c ∷ after) w), at)
