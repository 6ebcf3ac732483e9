-- ===== src/Afp/Codes/Distinct.antt =====
-- internal/afp/result.go: the code can be read off the text of an error.
use goafp.Base.{
  ◌-◌, ◌<◌, ◌^◌, ◌≡◌, refl, sym, ap, ◌∙◌, inl, inr, false, Option, none, some, List, [], ◌∷◌, ◌++◌,
  arith, ltb, ◌==◌, ==_iff, if◌then◌else◌, Bool-cases, Option-cases, All, drop, length,
  drop-append_length,
}
use goafp.Base.Bytes.{Bytes}
use goafp.Base.Numerals.{decimal}
use goafp.Base.Numerals.RoundTrip.{decimal_value, decimal_value-decimal, IsDigit, decimal-IsDigit}
use goafp.Afp.Text.{codes, same}
use goafp.Afp.Codes.{ResultCode}
use goafp.Afp.Codes.Names.{result_names, name_of, decimal_int32, name_or, error_text}

-- The first code with a name.
code_of : Bytes → List (ResultCode × Bytes) → Option ResultCode
code_of name [] = none
code_of name ((c, n) ∷ names) = if same n name then some c else code_of name names

read_int32 : Bytes → ResultCode
read_int32 [] = 0
read_int32 (c ∷ cs) = if c == b'-' then 2 ^ 32 - decimal_value cs else decimal_value (c ∷ cs)

code_or : Bytes → Option ResultCode → ResultCode
code_or name (some c) = c
code_or name none = read_int32 (drop 10 name)

-- The code of a text that says nothing of an operation.
read_name : Bytes → ResultCode
unfolding code_of code_or
read_name name = code_or name (code_of name result_names)

names-distinct : All (λ (c, n). code_of n result_names ≡ some c) result_names
unfolding code_of same
names-distinct = (
  refl,
  (
    refl,
    (
      refl,
      (
        refl,
        (
          refl,
          (
            refl,
            (
              refl,
              (
                refl,
                (
                  refl,
                  (
                    refl,
                    (
                      refl,
                      (
                        refl,
                        (
                          refl,
                          (
                            refl,
                            (
                              refl,
                              (
                                refl,
                                (
                                  refl,
                                  (
                                    refl,
                                    (
                                      refl,
                                      (
                                        refl,
                                        (
                                          refl,
                                          (
                                            refl,
                                            (
                                              refl,
                                              (refl, (refl, (refl, (refl, (refl, (refl, tt)))))),
                                            ),
                                          ),
                                        ),
                                      ),
                                    ),
                                  ),
                                ),
                              ),
                            ),
                          ),
                        ),
                      ),
                    ),
                  ),
                ),
              ),
            ),
          ),
        ),
      ),
    ),
  ),
)

found_name :
    (P : ResultCode × Bytes → Type 0) (code : ResultCode) (names : List (ResultCode × Bytes))
    {n : Bytes}
    → All P names
    → name_of code names ≡ some n
    → P (code, n)
found_name P code [] h e = cc
found_name P code ((c, m) ∷ names) {n} h e = elim (Bool-cases (c == code)) [
  | inl here ↦
      let ce : c ≡ code = (==_iff c code).0 here in
      let me : m ≡ n = ground arith in rw (← ce, ← me) h.0
  | inr there ↦ found_name P code names h.1 (rw there at e)
]

no_name_of : (s : Bytes) → code_of (codes "AFP error " ++ s) result_names ≡ none
unfolding code_of same
no_name_of s = refl

read_int32-digits : (s : Bytes) → All IsDigit s → read_int32 s ≡ decimal_value s
unfolding read_int32 decimal_value
read_int32-digits [] h = refl
read_int32-digits (c ∷ cs) h = let other : (c == b'-') ≡ false = ground (arith, h.0) in rw other

read_int32-decimal_int32 :
    (code : ResultCode) → code < 2 ^ 32 → read_int32 (decimal_int32 code) ≡ code
unfolding read_int32
read_int32-decimal_int32 code h = elim (Bool-cases (ltb code (2 ^ 31))) [
  | inl positive ↦ rw positive (
      read_int32-digits (decimal code) (decimal-IsDigit code)
      ∙ decimal_value-decimal code (omega (arith, h)))
  | inr negative ↦
      rw negative (omega (arith, h, decimal_value-decimal (2 ^ 32 - code) (omega arith)))
]

read_name-name_or :
    (code : ResultCode)
    → code < 2 ^ 32
    → read_name (name_or (name_of code result_names) code) ≡ code
unfolding read_name
read_name-name_or code h = elim (Option-cases (name_of code result_names)) [
  | inl none_known ↦
      rw (none_known, no_name_of (decimal_int32 code)) (read_int32-decimal_int32 code h)
  | inr (n, e) ↦
      rw (
        e,
        found_name (λ (c, n). code_of n result_names ≡ some c) code result_names names-distinct e,
      )
]

-- Without the operation.
unprefix : Bytes → Bytes → Bytes
unprefix op text = drop 2 (drop (length op) (drop 5 text))

unprefix-error_text :
    (op : Bytes) (code : ResultCode)
    → unprefix op (error_text op code) ≡ name_or (name_of code result_names) code
unfolding unprefix error_text
unprefix-error_text op code =
    ap (drop 2) (drop-append_length op (codes ": " ++ name_or (name_of code result_names) code))

-- For one operation, the text of an error tells its result code: two codes of 32 bits with the
-- same text are the same, be they in the table of names or not.
pub error_text-injective :
    (op : Bytes) (a b : ResultCode)
    → a < 2 ^ 32
    → b < 2 ^ 32
    → error_text op a ≡ error_text op b
    → a ≡ b
error_text-injective op a b ha hb e =
    let same_name : name_or (name_of a result_names) a ≡ name_or (name_of b result_names) b =
      sym (unprefix-error_text op a) ∙ ap (unprefix op) e ∙ unprefix-error_text op b in
    sym (read_name-name_or a ha) ∙ ap read_name same_name ∙ read_name-name_or b hb
