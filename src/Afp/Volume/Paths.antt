-- ===== src/Afp/Volume/Paths.antt =====
-- `splitPath`: the parent directory and the final component.
use goafp.Base.{
  ℕ, ◌≡◌, refl, ap, ◌⊎◌, inl, inr, false, Option, none, some, [], ◌∷◌, ◌++◌, arith, ◌==◌,
  Bool-cases, All,
}
use goafp.Base.Bytes.{Bytes}
use goafp.Afp.Text.{slash, trim}
use goafp.Afp.Volume.{split_last, extend, or_root, split_path}

abbrev pub NoSlash : Bytes → Type 0
NoSlash = All (λ c. (c == slash) ≡ false)

-- The string before the split.
abbrev joined : Option Bytes × Bytes → Bytes
joined (none, base) = base
joined (some d, base) = d ++ slash ∷ base

split_last_lem : (p : Bytes) → (joined (split_last p) ≡ p) × NoSlash (split_last p).1
unfolding split_last
split_last_lem [] = (refl, tt)
split_last_lem (c ∷ cs) =
    let (whole, clean) = split_last_lem cs in
    cons c cs (split_last cs).0 (split_last cs).1 whole clean
  where
    cons :
        (c : ℕ) (cs : Bytes) (dir : Option Bytes) (base : Bytes)
        → joined (dir, base) ≡ cs
        → NoSlash base
        → (joined (extend c dir base) ≡ c ∷ cs) × NoSlash (extend c dir base).1
    cons c cs (some d) base whole clean = (ap (◌∷◌ c) whole, clean)
    cons c cs none base whole clean = elim (Bool-cases (c == slash)) [
      | inl here ↦ rw here (ground arith, clean)
      | inr other ↦ rw other (ap (◌∷◌ c) whole, (other, clean))
    ]

-- The last component that `splitPath` returns holds no slash; it is the whole trimmed path, with
-- an empty parent, or parent, slash and component make the trimmed path up.
pub split_path_lem :
    (p : Bytes)
    → NoSlash (split_path p).1
      × ((((split_path p).0 ≡ []) × ((split_path p).1 ≡ trim p))
          ⊎ ((split_path p).0 ++ slash ∷ (split_path p).1 ≡ trim p))
unfolding split_path
split_path_lem p =
    let (whole, clean) = split_last_lem (trim p) in
    finish (trim p) (split_last (trim p)).0 (split_last (trim p)).1 whole clean
  where
    finish :
        (t : Bytes) (dir : Option Bytes) (base : Bytes)
        → joined (dir, base) ≡ t
        → NoSlash base
        → NoSlash (or_root dir base).1
          × ((((or_root dir base).0 ≡ []) × ((or_root dir base).1 ≡ t))
              ⊎ ((or_root dir base).0 ++ slash ∷ (or_root dir base).1 ≡ t))
    finish t none base whole clean = (clean, inl (refl, whole))
    finish t (some d) base whole clean = (clean, inr whole)
