-- ===== src/Base/Numerals.antt =====
-- Numbers as text: the verbs of the package fmt that the program uses, on numbers without a sign and
-- on ASCII text.
pub mod RoundTrip
use Prim.Native.Nat.{ℕ, zero, suc, ◌+◌, ◌-◌, ◌/◌, ◌%◌, ◌*◌}
use mathlib.Core.List.{List, [], ◌∷◌, ◌++◌}
use goafp.Base.Lists.{length, replicate}
use goafp.Base.Tests.{ltb, if◌then◌else◌}
use goafp.Base.Bytes.{Bytes}

-- '0' to '9', then 'a' on.
abbrev pub digit : ℕ → ℕ
digit d = if ltb d 10 then b'0' + d else b'a' + (d - 10)

-- The digits of a number to some base, the last one first; a number has no more digits than bits.
unfoldable pub digits_rev : ℕ → ℕ → ℕ → Bytes
digits_rev zero base n = []
digits_rev (suc fuel) base n =
    let more = digits_rev fuel base (n / base) in
    digit (n % base) ∷ (if ltb n base then [] else more)

abbrev pub reverse_onto : Bytes → Bytes → Bytes
reverse_onto [] out = out
reverse_onto (x ∷ xs) out = reverse_onto xs (x ∷ out)

abbrev pub numeral : ℕ → ℕ → Bytes
numeral base n = reverse_onto (digits_rev 64 base n) []

-- `%d` of a number below 2^64.
abbrev pub decimal : ℕ → Bytes
decimal n = numeral 10 n

-- `%5s`, `%5d`: at least so wide, with spaces before.
abbrev pub pad_left : ℕ → Bytes → Bytes
pad_left width s = replicate (width - length s) b' ' ++ s

-- `%-5d`: with spaces behind.
abbrev pub pad_right : ℕ → Bytes → Bytes
pad_right width s = s ++ replicate (width - length s) b' '

-- `%04o`: with zeros before.
abbrev pub pad_zeros : ℕ → Bytes → Bytes
pad_zeros width s = replicate (width - length s) b'0' ++ s
