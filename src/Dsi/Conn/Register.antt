-- ===== src/Dsi/Conn/Register.antt =====
-- internal/dsi/conn.go: `register`, and the search for a request id.
use goafp.Base.{
  ℕ, zero, suc, ◌+◌, ◌-◌, ◌%◌, ◌≤◌, ◌<◌, ◌≡◌, refl, ◌≢◌, inl, inr, true, false, none, some, List,
  [], ◌∷◌, arith, Bool-cases, Option-cases, length,
}
use goafp.Base.Outcome.{Error, ok, err}
use goafp.Dsi.Conn.{Conn, id_space, delete, taken, next_free, register}

-- A free id is one that no request holds.
pub next_free-fresh :
    (fuel id : ℕ) (pending : List (ℕ × ℕ)) {r : ℕ}
    → next_free fuel pending id ≡ some r
    → (taken r pending ≡ false) × (r < id_space)
unfolding next_free
next_free-fresh zero id pending e = cc
next_free-fresh (suc fuel) id pending {r} e =
    elim (Bool-cases (taken ((id + 1) % id_space) pending)) [
      | inl t ↦ next_free-fresh fuel ((id + 1) % id_space) pending (rw t at e)
      | inr f ↦ ground arith
    ]

taken-delete_ne : (x y : ℕ) (m : List (ℕ × ℕ)) → x ≢ y → taken y (delete x m) ≡ taken y m
taken-delete_ne x y [] ne = refl
taken-delete_ne x y ((j, v) ∷ m) ne = ground (arith, taken-delete_ne x y m ne)

length-delete_le : (x : ℕ) (m : List (ℕ × ℕ)) → length (delete x m) ≤ length m
length-delete_le x [] = omega arith
length-delete_le x ((j, v) ∷ m) = ground (arith, length-delete_le x m)

length-delete : (x : ℕ) (m : List (ℕ × ℕ)) → taken x m ≡ true → length (delete x m) < length m
length-delete x [] t = cc
length-delete x ((j, v) ∷ m) t = ground (arith, length-delete x m, length-delete_le x m)

-- Taking an id out of the table does not free the `k` ids after `id` if it is none of them.
next_free-delete :
    (k id x d : ℕ) (pending : List (ℕ × ℕ))
    → (id + d) % id_space ≡ x
    → k < d
    → d ≤ id_space
    → next_free k pending id ≡ none
    → next_free k (delete x pending) id ≡ none
unfolding next_free
next_free-delete zero id x d pending e h hd n = refl
next_free-delete (suc k) id x d pending e h hd n =
    let id' = (id + 1) % id_space in
    let ne : x ≢ id' = omega arith in
    elim (Bool-cases (taken id' pending)) [
      | inl t ↦
          rw (taken-delete_ne x id' pending ne, t)
            (next_free-delete k id' x (d - 1) pending (omega arith) (omega arith) (omega arith)
              (rw t at n))
      | inr f ↦ ground arith
    ]

-- A search that fails after `k` steps has met `k` different ids.
next_free-none :
    (k id : ℕ) (pending : List (ℕ × ℕ))
    → k ≤ id_space
    → next_free k pending id ≡ none
    → k ≤ length pending
unfolding next_free
next_free-none zero id pending h n = omega arith
next_free-none (suc k) id pending h n =
    let id' = (id + 1) % id_space in
    elim (Bool-cases (taken id' pending)) [
      | inl t ↦ omega (
        arith,
        length-delete id' pending t,
        next_free-none k id' (delete id' pending) (omega arith) (
            next_free-delete k id' id' id_space pending (omega arith) (omega arith) (omega arith)
              (rw t at n)),
      )
      | inr f ↦ ground arith
    ]

-- On a connection that has not failed and has fewer than 65536 requests in flight, `register`
-- ends. The id that it returns is below 65536 and held by no request in flight; it becomes the
-- connection's last id, the table gains the caller's channel under it, and nothing else changes.
pub register_lem :
    (ch : ℕ) (c : Conn)
    → c.close_err ≡ none
    → length c.pending < id_space
    → (id : ℕ) × (register ch c
        ≡ some (ok id, record c { next_id = id; pending = (id, ch) ∷ c.pending }))
      × (taken id c.pending ≡ false)
      × (id < id_space)
unfolding register
register_lem ch c live room = elim (Option-cases (next_free id_space c.pending c.next_id)) [
  | inl stuck ↦
      absurd (omega (arith, next_free-none id_space c.next_id c.pending (omega arith) stuck))
  | inr (id, e) ↦
      let (free, small) = next_free-fresh id_space c.next_id c.pending e in
      (id, ground arith, free, small)
]

-- A connection that has failed registers nothing, and hands out the error that it failed with.
pub register_closed :
    (ch : ℕ) (c : Conn) {e : Error} → c.close_err ≡ some e → register ch c ≡ some (err e, c)
unfolding register
register_closed ch c h = rw h
