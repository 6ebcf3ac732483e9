-- ===== src/Base/Bytes.antt =====
-- Byte sequences, big-endian numbers (encoding/binary, and SetBytes and FillBytes of math/big).
use Prim.Native.Nat.{ℕ, zero, suc, ◌+◌, ◌*◌, ◌/◌, ◌%◌, ◌^◌, ◌<◌}
use mathlib.Core.Path.{◌≡◌, refl, ap, ◌∙◌}
use mathlib.Core.List.{List, [], ◌∷◌, ◌++◌}
use native.Mathlib.Omega.{arith}
use native.Mathlib.Nat.{pow-suc}
use native.Mathlib.Numerals.{add-one}
use goafp.Base.Lists.{length, drop, All, All-append, length-append}

abbrev pub Bytes : Type 0
Bytes = List ℕ

abbrev pub IsByte : ℕ → Type 0
IsByte b = b < 256

abbrev pub IsBytes : Bytes → Type 0
IsBytes = All IsByte

-- The `k` low bytes of `v`, the most significant first.
abbrev pub be : ℕ → ℕ → Bytes
be zero v = []
be (suc k) v = be k (v / 256) ++ (v % 256) ∷ []

-- The number that the bytes spell.
abbrev pub from_be : Bytes → ℕ
from_be [] = 0
from_be (b ∷ bs) = b * 256 ^ length bs + from_be bs

pub length-be : (k v : ℕ) → length (be k v) ≡ k
length-be zero v = refl
length-be (suc k) v =
    omega (arith, length-append (be k (v / 256)) ((v % 256) ∷ []), length-be k (v / 256))

pub be-IsBytes : (k v : ℕ) → IsBytes (be k v)
be-IsBytes zero v = tt
be-IsBytes (suc k) v =
    All-append IsByte (be k (v / 256)) _ (be-IsBytes k (v / 256)) (omega arith, tt)

pub from_be-snoc : (bs : Bytes) (b : ℕ) → from_be (bs ++ b ∷ []) ≡ from_be bs * 256 + b
from_be-snoc [] b = omega arith
from_be-snoc (x ∷ bs) b =
    rw (length-append bs (b ∷ []), add-one, pow-suc) (omega (arith, from_be-snoc bs b))

pub from_be-be : (k v : ℕ) → v < 256 ^ k → from_be (be k v) ≡ v
from_be-be zero v h = omega arith
from_be-be (suc k) v h =
    from_be-snoc (be k (v / 256)) (v % 256)
    ∙ omega (arith, from_be-be k (v / 256) (omega (arith, pow-suc 256 k)))

pub drop-IsBytes : (n : ℕ) (bs : Bytes) → IsBytes bs → IsBytes (drop n bs)
drop-IsBytes zero bs h = h
drop-IsBytes (suc n) [] h = h
drop-IsBytes (suc n) (b ∷ bs) h = drop-IsBytes n bs h.1

pub from_be-lt : (bs : Bytes) → IsBytes bs → from_be bs < 256 ^ length bs
from_be-lt [] h = omega arith
from_be-lt (b ∷ bs) h = rw pow-suc (grind (arith, from_be-lt bs h.1))

be_cons : (k b x : ℕ) → b < 256 → x < 256 ^ k → be (suc k) (b * 256 ^ k + x) ≡ b ∷ be k x
be_cons zero b x hb hx = ap (λ n. n ∷ []) (omega arith)
be_cons (suc k) b x hb hx =
    let e : (b * 256 ^ suc k + x) / 256 ≡ b * 256 ^ k + x / 256 = rw pow-suc (omega arith) in
    let f : (b * 256 ^ suc k + x) % 256 ≡ x % 256 = rw pow-suc (omega arith) in
    rw (e, f, be_cons k b (x / 256) hb (omega (arith, pow-suc 256 k)))

pub be-from_be : (bs : Bytes) → IsBytes bs → be (length bs) (from_be bs) ≡ bs
be-from_be [] h = refl
be-from_be (b ∷ bs) h =
    be_cons (length bs) b (from_be bs) h.0 (from_be-lt bs h.1) ∙ ap (◌∷◌ b) (be-from_be bs h.1)
