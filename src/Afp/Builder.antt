-- ===== src/Afp/Builder.antt =====
-- internal/afp/wire.go: the builder of request payloads. A method takes the bytes so far.
use goafp.Base.{
  ℕ, ◌%◌, ◌≡◌, refl, ◌⊎◌, inl, inr, [], ◌∷◌, ◌++◌, arith, ltb, ◌==◌, if◌then◌else◌, Bool-cases,
  length, take, length-append,
}
use goafp.Base.Bytes.{Bytes, be}
use goafp.Afp.Text.{trim, replace_slashes, Norm}

-- `x ▷ f ▷ g`: the calls in the order of the source.
infixl 3 ◌▷◌
abbrev pub ◌▷◌ {ℓ κ} : {A : Type ℓ} {B : Type κ} → A → (A → B) → B
x ▷ f = f x

abbrev pub u8 : ℕ → Bytes → Bytes
u8 v w = w ++ be 1 v

abbrev pub u16 : ℕ → Bytes → Bytes
u16 v w = w ++ be 2 v

abbrev pub u32 : ℕ → Bytes → Bytes
u32 v w = w ++ be 4 v

abbrev pub u64 : ℕ → Bytes → Bytes
u64 v w = w ++ be 8 v

abbrev pub bytes : Bytes → Bytes → Bytes
bytes v w = w ++ v

-- A string of more than 255 bytes is cut.
abbrev pub cut : Bytes → Bytes
cut s = if ltb 255 (length s) then take 255 s else s

unfoldable pub pascal : Bytes → Bytes → Bytes
pascal s w = w ▷ u8 (length (cut s)) ▷ bytes (cut s)

unfoldable pub even_pad : Bytes → Bytes
even_pad w = if length w % 2 == 1 then u8 0 w else w

abbrev pub utf8_path_hint : ℕ
utf8_path_hint = 0x08000103

abbrev pub utf8_name : ℕ
utf8_name = 3

abbrev pub wire_path : Norm → Bytes → Bytes
wire_path norm p = replace_slashes (norm.nfd (trim p))

unfoldable pub path : Norm → Bytes → Bytes → Bytes
path norm p w =
    w
    ▷ u8 utf8_name
    ▷ u32 utf8_path_hint
    ▷ u16 (length (wire_path norm p))
    ▷ bytes (wire_path norm p)

-- After `evenPad` the payload's length is even, and the payload is as it was or has one zero byte
-- more.
pub even_pad-even :
    (w : Bytes) → (length (even_pad w) % 2 ≡ 0) × ((even_pad w ≡ w) ⊎ (even_pad w ≡ w ++ 0 ∷ []))
unfolding even_pad
even_pad-even w = elim (Bool-cases (length w % 2 == 1)) [
  | inl odd ↦ rw odd (ground (arith, length-append w (0 ∷ [])), inr refl)
  | inr even ↦ rw even (ground arith, inl refl)
]
