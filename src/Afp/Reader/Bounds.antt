-- ===== src/Afp/Reader/Bounds.antt =====
-- internal/afp/wire.go: the strings at absolute offsets, by where they stand.
use goafp.Base.{
  ℕ, ◌+◌, ◌-◌, ◌^◌, ◌≤◌, ◌<◌, ◌≡◌, refl, ◌⊎◌, inl, inr, true, [], ◌∷◌, ◌++◌, append_assoc, arith,
  ltb, leb, Bool-cases, length, get_or, take, drop, length-append, length-take, length-drop,
  take-append_eq, get_or-append_length, drop-append_eq,
}
use goafp.Base.Bytes.{Bytes, be, from_be, from_be-be}
use goafp.Base.Outcome.{malformed, ok, err, NoPanic, Outcome-cases}
use goafp.Afp.Reader.{Reader, read, fail, slice, index, pascal_at, pascal2_at}

pub index_lem : (b : Bytes) (i : ℕ) → i < length b → index b i ≡ ok (get_or b i 0)
unfolding index
index_lem b i h = ground arith

pub slice_lem :
    (b : Bytes) (i j : ℕ)
    → i ≤ j
    → j ≤ length b
    → (v : Bytes) × (slice b i j ≡ ok v) × (length v + i ≡ j)
unfolding slice
slice_lem b i j h k = (
  take (j - i) (drop i b),
  ground arith,
  omega (arith, length-take (j - i) (drop i b), length-drop i b),
)

-- A slice of a middle part.
pub slice_mid :
    (pre v post : Bytes) (i j : ℕ)
    → length pre ≡ i
    → i + length v ≡ j
    → slice (pre ++ (v ++ post)) i j ≡ ok v
unfolding slice
slice_mid pre v post i j h k =
    let size = length-append pre (v ++ post) in
    let size' = length-append v post in
    let width : length v ≡ j - i = omega arith in
    ground
      (arith, size, size', drop-append_eq i pre (v ++ post) h, take-append_eq (j - i) v post width)

-- `take` does not panic, whatever stands before the reader: it slices within its bytes.
pub read-NoPanic : (n : ℕ) (r : Reader) → NoPanic r.err → NoPanic (read n r).1.err
unfolding read fail slice
read-NoPanic n r h = elim (Outcome-cases r.err) [
  | inl (u, fine) ↦ elim (Bool-cases (ltb (length r.b) (r.pos + n))) [
    | inl short ↦ rw (fine, short) tt
    | inr room ↦
        let low : leb r.pos (r.pos + n) ≡ true = ground arith in
        let high : leb (r.pos + n) (length r.b) ≡ true = ground (arith, room) in
        rw (fine, room, low, high) tt
  ]
  | inr (inl (e, failed)) ↦ rw failed tt
  | inr (inr crashed) ↦ absurd (rw crashed at h)
]

-- `pascalAt` refuses the offset as malformed or returns as many bytes as the byte at the offset
-- counts, all within the block; it does not panic.
pub pascal_at-bounds :
    (b : Bytes) (off : ℕ)
    → (pascal_at b off ≡ err malformed)
      ⊎ ((v : Bytes) × (pascal_at b off ≡ ok v)
          × (length v ≡ get_or b off 0)
          × (off + 1 + length v ≤ length b))
unfolding pascal_at
pascal_at-bounds b off = elim (Bool-cases (leb (length b) off)) [
  | inl out ↦ inl (ground arith)
  | inr inside ↦
      let at = index_lem b off (ground arith) in
      elim (Bool-cases (ltb (length b) (off + 1 + get_or b off 0))) [
        | inl over ↦ inl (ground arith)
        | inr fits ↦
            let (v, e, size) =
              slice_lem b (off + 1) (off + 1 + get_or b off 0) (omega arith) (ground arith) in
            inr (v, ground arith, omega arith, ground arith)
      ]
]

-- A string that stands behind its length byte is read back, wherever it stands.
pub pascal_at_lem :
    (pre v post : Bytes) → pascal_at (pre ++ length v ∷ (v ++ post)) (length pre) ≡ ok v
unfolding pascal_at
pascal_at_lem pre v post =
    let b = pre ++ length v ∷ (v ++ post) in
    let n = get_or-append_length pre (v ++ post) (length v) 0 in
    let size = length-append pre (length v ∷ (v ++ post)) in
    let size' = length-append v post in
    let at = index_lem b (length pre) (omega arith) in
    let body =
      slice_mid (pre ++ length v ∷ []) v post (length pre + 1) (length pre + 1 + length v)
        (length-append pre (length v ∷ [])) refl in
    let whole = append_assoc pre (length v ∷ []) (v ++ post) in ground arith

-- `pascal2At` refuses the offset as malformed or returns bytes that, with the two of their length,
-- lie within the block; it does not panic.
pub pascal2_at-bounds :
    (b : Bytes) (off : ℕ)
    → (pascal2_at b off ≡ err malformed)
      ⊎ ((v : Bytes) × (pascal2_at b off ≡ ok v) × (off + 2 + length v ≤ length b))
unfolding pascal2_at
pascal2_at-bounds b off = elim (Bool-cases (ltb (length b) (off + 2))) [
  | inl out ↦ inl (ground arith)
  | inr inside ↦
      let (prefix, at, _) = slice_lem b off (off + 2) (omega arith) (ground arith) in
      elim (Bool-cases (ltb (length b) (off + 2 + from_be prefix))) [
        | inl over ↦ inl (ground arith)
        | inr fits ↦
            let (v, e, size) =
              slice_lem b (off + 2) (off + 2 + from_be prefix) (omega arith) (ground arith) in
            inr (v, ground arith, ground arith)
      ]
]

-- A string of fewer than 65536 bytes behind its two length bytes is read back by `pascal2At`,
-- whatever stands before and after it.
pub pascal2_at_lem :
    (pre v post : Bytes) (off : ℕ)
    → length v < 2 ^ 16
    → length pre ≡ off
    → pascal2_at (pre ++ (be 2 (length v) ++ (v ++ post))) off ≡ ok v
unfolding pascal2_at
pascal2_at_lem pre v post off small e =
    let b = pre ++ (be 2 (length v) ++ (v ++ post)) in
    let size = length-append pre (be 2 (length v) ++ (v ++ post)) in
    let size' = length-append v post in
    let at = slice_mid pre (be 2 (length v)) (v ++ post) off (off + 2) e refl in
    let n = from_be-be 2 (length v) small in
    let body =
      slice_mid (pre ++ be 2 (length v)) v post (off + 2) (off + 2 + length v)
        (omega (arith, length-append pre (be 2 (length v)))) refl in
    let whole = append_assoc pre (be 2 (length v)) (v ++ post) in ground arith
