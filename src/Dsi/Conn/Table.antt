-- ===== src/Dsi/Conn/Table.antt =====
-- internal/dsi/conn.go: the map `pending` and the channels' buffers, as association lists.
use goafp.Base.{
  ℕ, ◌≡◌, ◌≢◌, refl, sym, ap, ◌∙◌, inl, inr, true, false, some, List, [], ◌∷◌, arith, ◌==◌, ==_iff,
  Bool-cases, All,
}
use goafp.Dsi.Conn.{lookup, delete, taken}

abbrev pub DistinctKeys : List (ℕ × ℕ) → Type 0
DistinctKeys [] = Unit
DistinctKeys ((k, v) ∷ m) = (taken k m ≡ false) × DistinctKeys m

pub taken-delete-false :
    (k x : ℕ) (m : List (ℕ × ℕ)) → taken k m ≡ false → taken k (delete x m) ≡ false
taken-delete-false k x [] h = refl
taken-delete-false k x ((j, v) ∷ m) h = ground (arith, taken-delete-false k x m)

pub DistinctKeys-delete : (x : ℕ) (m : List (ℕ × ℕ)) → DistinctKeys m → DistinctKeys (delete x m)
DistinctKeys-delete x [] h = tt
DistinctKeys-delete x ((j, v) ∷ m) h = elim (Bool-cases (j == x)) [
  | inl e ↦ rw e (DistinctKeys-delete x m h.1)
  | inr e ↦ rw e (taken-delete-false j x m h.0, DistinctKeys-delete x m h.1)
]

pub All-delete {ℓ} :
    {V : Type ℓ} (P : ℕ × V → Type 0) (x : ℕ) (m : List (ℕ × V)) → All P m → All P (delete x m)
All-delete P x [] h = tt
All-delete P x ((j, v) ∷ m) h = elim (Bool-cases (j == x)) [
  | inl e ↦ rw e (All-delete P x m h.1)
  | inr e ↦ rw e (h.0, All-delete P x m h.1)
]

pub All-lookup {ℓ} :
    {V : Type ℓ} (P : ℕ × V → Type 0) (k : ℕ) (m : List (ℕ × V)) {v : V}
    → All P m
    → lookup k m ≡ some v
    → P (k, v)
All-lookup P k [] h e = cc
All-lookup P k ((j, w) ∷ m) {v} h e = elim (Bool-cases (j == k)) [
  | inl same ↦
      let je : j ≡ k = (==_iff j k).0 same in let we : w ≡ v = ground arith in rw (← je, ← we) h.0
  | inr other ↦ All-lookup P k m h.1 (rw other at e)
]

pub lookup-cons_fresh :
    (ch id k v : ℕ) (g : List (ℕ × ℕ))
    → taken ch g ≡ false
    → lookup k g ≡ some v
    → lookup k ((ch, id) ∷ g) ≡ some v
lookup-cons_fresh ch id k v [] f e = cc
lookup-cons_fresh ch id k v ((j, w) ∷ g) f e = ground (arith, lookup-cons_fresh ch id k v g)

pub lookup-delete_other {ℓ} :
    {V : Type ℓ} (x k : ℕ) (m : List (ℕ × V)) → x ≢ k → lookup k (delete x m) ≡ lookup k m
lookup-delete_other x k [] ne = refl
lookup-delete_other x k ((j, v) ∷ m) ne = elim (Bool-cases (j == x)) [
  | inl same ↦
      let other : (j == k) ≡ false = ground arith in rw (same, other) (lookup-delete_other x k m ne)
  | inr other ↦ elim (Bool-cases (j == k)) [
    | inl found ↦ rw (other, found)
    | inr none_here ↦ rw (other, none_here) (lookup-delete_other x k m ne)
  ]
]

pub true-false : true ≡ false → ⊥
true-false e = cc

pub lookup-taken : (k : ℕ) (m : List (ℕ × ℕ)) {v : ℕ} → lookup k m ≡ some v → taken k m ≡ true
lookup-taken k [] e = cc
lookup-taken k ((j, w) ∷ m) e = elim (Bool-cases (j == k)) [
  | inl same ↦ rw same
  | inr other ↦ rw other (lookup-taken k m (rw other at e))
]

-- A key that is not there is none of those that are.
pub lookup-not_taken :
    (x k : ℕ) (m : List (ℕ × ℕ)) {v : ℕ}
    → taken x m ≡ false
    → lookup k m ≡ some v
    → (x == k) ≡ false
lookup-not_taken x k m f e = elim (Bool-cases (x == k)) [
  | inr other ↦ other
  | inl same ↦
      absurd (
        true-false (sym (lookup-taken k m e) ∙ ap (λ i. taken i m) (sym ((==_iff x k).0 same)) ∙ f))
]

-- What holds of the entries with other keys holds of all that `delete` leaves.
pub All-delete_other {ℓ} :
    {V : Type ℓ} (P Q : ℕ × V → Type 0) (x : ℕ) (m : List (ℕ × V))
    → ((j : ℕ) (v : V) → j ≢ x → P (j, v) → Q (j, v))
    → All P m
    → All Q (delete x m)
All-delete_other P Q x [] f h = tt
All-delete_other P Q x ((j, v) ∷ m) f h = elim (Bool-cases (j == x)) [
  | inl e ↦ rw e (All-delete_other P Q x m f h.1)
  | inr e ↦ rw e (f j v (ground arith) h.0, All-delete_other P Q x m f h.1)
]
