-- ===== src/Afp/Text.antt =====
-- internal/afp/wire.go: strings as the program handles them. A Go string is a byte sequence; of
-- the package strings the program uses Trim, ReplaceAll and LastIndex on the slash.
use goafp.Base.{ℕ, ◌≡◌, ◌↔◌, Bool, true, false, ◌&&◌, [], ◌∷◌, map, arith, ◌==◌, if◌then◌else◌}
use Prim.Native.Char.{code}
use Prim.Native.String.{String}
use goafp.Base.Bytes.{Bytes}

abbrev pub slash : ℕ
slash = b'/'

abbrev pub skip_slashes : Bytes → Bytes
skip_slashes [] = []
skip_slashes (c ∷ cs) = if c == slash then skip_slashes cs else c ∷ cs

abbrev pub chop_with : ℕ → Bytes → Bytes
chop_with c [] = if c == slash then [] else c ∷ []
chop_with c (d ∷ ds) = c ∷ d ∷ ds

-- Without the slashes at the end.
abbrev pub chop_slashes : Bytes → Bytes
chop_slashes [] = []
chop_slashes (c ∷ cs) = chop_with c (chop_slashes cs)

-- `strings.Trim(s, "/")`.
abbrev pub trim : Bytes → Bytes
trim s = chop_slashes (skip_slashes s)

-- `strings.ReplaceAll(s, "/", "\x00")`.
abbrev pub replace_slashes : Bytes → Bytes
replace_slashes = map (λ c. if c == slash then 0 else c)

-- Bytes of a text literal of ASCII characters.
abbrev pub codes : String → Bytes
codes String.[] = []
codes (String.◌∷◌ c s) = code c ∷ codes s

-- Equality of strings.
unfoldable pub same : Bytes → Bytes → Bool
same [] [] = true
same (x ∷ xs) (y ∷ ys) = x == y && same xs ys
same _ _ = false

pub same_iff : (a b : Bytes) → (same a b ≡ true) ↔ (a ≡ b)
unfolding same
same_iff (x ∷ a) (y ∷ b) = ground (arith, same_iff a b)
same_iff _ _ = ground arith

-- The conversions of golang.org/x/text/unicode/norm that the program calls: `norm.NFD.String` and
-- `norm.NFC.String`.
pub record Norm : Type 0 where
  pub nfd : Bytes → Bytes
  pub nfc : Bytes → Bytes
