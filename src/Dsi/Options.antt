-- ===== src/Dsi/Options.antt =====
-- internal/dsi/conn.go: the options of a DSIOpenSession reply. A reply payload is a sequence of
-- (type, length, value) options; the loop reads what is left of it, `payload[i:]`.
use goafp.Base.{
  ℕ, zero, suc, ◌<◌, ◌≡◌, refl, inl, inr, ◌&&◌, Option, none, some, List, [], ◌∷◌, ◌++◌, arith, ltb,
  ◌==◌, if◌then◌else◌, le→ltb, Bool-cases, length, take, drop, length-append, length-drop,
  drop-append_length, take-append_eq,
}
use goafp.Base.Bytes.{Bytes, be, from_be}
use goafp.Base.Outcome.{Error, malformed}

abbrev pub opt_server_quantum : ℕ
opt_server_quantum = 0

abbrev pub opt_attention_quantum : ℕ
opt_attention_quantum = 1

abbrev pub attention_quantum : ℕ
attention_quantum = 1024

-- The payload of the request.
unfoldable pub open_session_payload : Bytes
open_session_payload = opt_attention_quantum ∷ 4 ∷ be 4 attention_quantum

-- The loop, with the quantum recorded so far; an error leaves what was recorded. `none` is no Go
-- result: the fuel ran out.
unfoldable pub read_options : ℕ → Bytes → ℕ → Option (ℕ × Option Error)
read_options zero rest quantum = none
read_options (suc fuel) [] quantum = some (quantum, none)
read_options (suc fuel) (typ ∷ []) quantum = some (quantum, none)
read_options (suc fuel) (typ ∷ n ∷ rest) quantum =
    let quantum' = if typ == opt_server_quantum && n == 4 then from_be (take 4 rest) else quantum in
    let more = read_options fuel (drop n rest) quantum' in
    if ltb (length rest) n then some (quantum, some malformed) else more

-- Each round takes two bytes at least.
abbrev pub open_session_reply : Bytes → ℕ → Option (ℕ × Option Error)
open_session_reply payload quantum = read_options (suc (length payload)) payload quantum

-- The format: options one after another.
abbrev pub Opt : Type 0
Opt = ℕ × Bytes

abbrev pub encode_options : List Opt → Bytes
encode_options [] = []
encode_options ((typ, value) ∷ opts) = typ ∷ length value ∷ (value ++ encode_options opts)

-- The last server quantum among the options, or the one before them.
abbrev pub last_quantum : List Opt → ℕ → ℕ
last_quantum [] quantum = quantum
last_quantum ((typ, value) ∷ opts) quantum =
    last_quantum opts
      (if typ == opt_server_quantum && length value == 4 then from_be value else quantum)

read_options-total :
    (fuel : ℕ) (rest : Bytes) (quantum : ℕ)
    → length rest < fuel
    → (r : ℕ × Option Error) × (read_options fuel rest quantum ≡ some r)
unfolding read_options
read_options-total zero rest quantum h = absurd (omega arith)
read_options-total (suc fuel) [] quantum h = ((quantum, none), refl)
read_options-total (suc fuel) (typ ∷ []) quantum h = ((quantum, none), refl)
read_options-total (suc fuel) (typ ∷ n ∷ rest) quantum h = elim (Bool-cases (ltb (length rest) n)) [
  | inl over ↦ ((quantum, some malformed), rw over)
  | inr fits ↦ rw fits (read_options-total fuel (drop n rest) _ (omega (arith, length-drop n rest)))
]

-- The loop of `OpenSession` over the options ends on every payload.
pub open_session_reply-total :
    (payload : Bytes) (quantum : ℕ)
    → (r : ℕ × Option Error) × (open_session_reply payload quantum ≡ some r)
open_session_reply-total payload quantum =
    read_options-total (suc (length payload)) payload quantum (omega arith)

quantum-append :
    (typ quantum : ℕ) (value rest : Bytes)
    → (if typ == opt_server_quantum && length value == 4
        then from_be (take 4 (value ++ rest))
        else quantum)
      ≡ (if typ == opt_server_quantum && length value == 4 then from_be value else quantum)
quantum-append typ quantum value rest = ground (arith, take-append_eq 4 value rest)

read_options-encode :
    (opts : List Opt) (fuel quantum : ℕ)
    → length (encode_options opts) < fuel
    → read_options fuel (encode_options opts) quantum ≡ some (last_quantum opts quantum, none)
unfolding read_options
read_options-encode opts zero quantum h = absurd (omega arith)
read_options-encode [] (suc fuel) quantum h = refl
read_options-encode ((typ, value) ∷ opts) (suc fuel) quantum h =
    rw
      (
        le→ltb (length (value ++ encode_options opts)) (length value)
            (omega (arith, length-append value (encode_options opts))),
        quantum-append,
        drop-append_length value (encode_options opts),
      )
      (read_options-encode opts fuel _ (omega (arith, length-append value (encode_options opts))))

-- The payload of a sequence of options is read to its end without an error, and the quantum
-- recorded is that of the last server-quantum option of four bytes, or the one from before.
pub open_session_reply-encode_options :
    (opts : List Opt) (quantum : ℕ)
    → open_session_reply (encode_options opts) quantum ≡ some (last_quantum opts quantum, none)
open_session_reply-encode_options opts quantum =
    read_options-encode opts (suc (length (encode_options opts))) quantum (omega arith)
