-- ===== src/Tests/Links.antt =====
-- internal/afp/symlink.go: a link on a server whose only state is the contents of one file.
use goafp.Base.{
  ℕ, zero, suc, ◌+◌, ◌-◌, ◌^◌, ◌≤◌, ◌<◌, ◌≡◌, refl, sym, ap, ◌∙◌, inl, inr, true, false, Option,
  none, some, [], ◌∷◌, ◌++◌, arith, leb, ltb, ltb→lt, ◌==◌, if◌then◌else◌, Bool-cases, length,
  get_or, take, drop, length-take, length-drop,
}
use goafp.Base.Bytes.{Bytes, be, from_be, from_be-be}
use goafp.Base.Outcome.{ok}
use mathlib.Core.Path.{ap₂}
use mathlib.Core.List.Permᴰ
use goafp.Dsi.Conn.{Reply}
use goafp.Dsi.Header.{cmd_command, cmd_write}
use goafp.Afp.Builder.{path, even_pad}
use goafp.Afp.Codes.{result_err, res_no_err, res_eof, cmd_open_fork, cmd_read_ext}
use goafp.Afp.Link.{Link, command, run, ask}
use goafp.Afp.Reader.{uint, read}
use goafp.Afp.Volume.{create_file, write_params_header}
use goafp.Afp.Fork.{Fork, chunks, open_fork, parse_fork, close_fork, read_request}
use goafp.Afp.Fork.Reads.{ReadAnswer}
use goafp.Afp.Write.{pieces, write_header, write_request}
use goafp.Afp.Write.Contents.{Contents, put}
use goafp.Afp.Symlink.{symlink_finder_info, symlink, read_link, set_finder_info}
use goafp.Afp.Symlink.RoundTrip.{nothing, holding, FileServer, symlink-read_link}
use goafp.Tests.Parsers.{plain}
use goafp.Tests.Files.{with_code, volume}

-- The bytes from a position on, as far as there are any.
next_byte : Option ℕ → Bytes → Bytes
next_byte none rest = []
next_byte (some x) rest = x ∷ rest

collect : Contents → ℕ → ℕ → Bytes
collect c i zero = []
collect c i (suc n) = next_byte (c i) (collect c (suc i) n)

next_byte-short : (o : Option ℕ) (rest : Bytes) → length (next_byte o rest) ≤ suc (length rest)
unfolding next_byte
next_byte-short none rest = omega arith
next_byte-short (some x) rest = omega arith

collect-short : (c : Contents) (i n : ℕ) → length (collect c i n) ≤ n
unfolding collect
collect-short c i zero = omega arith
collect-short c i (suc n) =
    omega (arith, next_byte-short (c i) (collect c (suc i) n), collect-short c (suc i) n)

get_or-drop :
    (i : ℕ) (file : Bytes) → i < length file → drop i file ≡ get_or file i 0 ∷ drop (suc i) file
get_or-drop i [] h = absurd (omega arith)
get_or-drop zero (x ∷ file) h = refl
get_or-drop (suc i) (x ∷ file) h = get_or-drop i file (omega arith)

drop-over : (i : ℕ) (file : Bytes) → length file ≤ i → drop {A = ℕ} i file ≡ []
drop-over zero [] h = refl
drop-over zero (x ∷ file) h = absurd (omega arith)
drop-over (suc i) [] h = refl
drop-over (suc i) (x ∷ file) h = drop-over i file (omega arith)

holding-inside : (file : Bytes) (i : ℕ) → i < length file → holding file i ≡ some (get_or file i 0)
unfolding put
holding-inside file i h =
    let low : leb 0 i ≡ true = ground arith in
    let high : ltb i (0 + length file) ≡ true = ground (arith, h) in
    rw (low, high) (ap (λ k. some (get_or file k 0)) (sub_zero i))
  where
    sub_zero : (k : ℕ) → k - 0 ≡ k
    sub_zero k = omega arith

holding-outside : (file : Bytes) (i : ℕ) → length file ≤ i → holding file i ≡ none
unfolding put
holding-outside file i h =
    let high : ltb i (0 + length file) ≡ false = ground (arith, h) in
    let low : leb 0 i ≡ true = ground arith in rw (low, high)

collect-holding : (file : Bytes) (i n : ℕ) → collect (holding file) i n ≡ take n (drop i file)
unfolding collect next_byte
collect-holding file i zero = refl
collect-holding file i (suc n) = elim (Bool-cases (ltb i (length file))) [
  | inl inside ↦
      let h = ltb→lt i (length file) inside in
      rw (holding-inside file i h, get_or-drop i file h, collect-holding file (suc i) n)
  | inr outside ↦
      let h : length file ≤ i = ground (arith, outside) in
      rw (holding-outside file i h, drop-over i file h)
]

-- The code of a read that has got so many of the bytes that it wants.
abbrev code_of : ℕ → ℕ → ℕ
code_of got count = if ltb got count then res_eof else res_no_err

abbrev read_contents : Contents → ℕ → ℕ → Reply
read_contents c offset count =
    let got = collect c offset count in with_code (code_of (length got) count) got

abbrev size_of : Contents → ℕ
size_of c = length (collect c 0 (2 ^ 63))

abbrev command_reply : ℕ → Bytes → Contents → Reply
command_reply cmd payload c =
    if cmd == cmd_open_fork
    then with_code 0 (be 2 0x800 ++ (be 2 1 ++ be 8 (size_of c)))
    else if cmd == cmd_read_ext
    then read_contents c (from_be (take 8 (drop 4 payload))) (from_be (take 8 (drop 12 payload)))
    else with_code 0 []

abbrev keeper : Link Contents
keeper = record {
  request = λ cmd _ payload c. (
    ok (if cmd == cmd_write then with_code 0 [] else command_reply (get_or payload 0 0) payload c),
    if cmd == cmd_write then put (from_be (take 8 (drop 4 payload))) (drop 20 payload) c else c,
  );
  quantum = 1024;
  sooner = λ _. true;
}

size_of-holding : (file : Bytes) → length file < 2 ^ 63 → size_of (holding file) ≡ length file
size_of-holding file h =
    ap length (collect-holding file 0 (2 ^ 63))
    ∙ omega (arith, h, length-take (2 ^ 63) (drop 0 file))

opened_as : ℕ → Fork
opened_as n = record { id = 1; size = n; chunk_size = 0x20000; max_parallel = 8 }

parse_opened :
    (n : ℕ) → n < 2 ^ 64 → parse_fork (be 2 0x800 ++ (be 2 1 ++ be 8 n)) ≡ ok (opened_as n)
unfolding parse_fork uint read opened_as
parse_opened n h =
    ap (λ k. ok (record { id = 1; size = k; chunk_size = 0x20000; max_parallel = 8 }))
      (from_be-be 8 n h)

abbrev link_path : Bytes
link_path = 108 ∷ 110 ∷ []

creates :
    (w : Contents)
    → w ≡ nothing
    → (w' : Contents) × (create_file keeper plain volume 2 link_path false w ≡ (ok tt, w'))
      × (nothing ≡ w')
unfolding create_file run command result_err path
creates w e = (w, refl, sym e)

opens_rw :
    (c w : Contents)
    → c ≡ w
    → (f : Fork) × (w' : Contents) × (open_fork keeper plain volume 2 link_path 3 w ≡ (ok f, w'))
      × (c ≡ w')
unfolding open_fork ask command result_err path
opens_rw c w e = (
  opened_as (size_of w),
  w,
  ap (λ o. (o, w)) (parse_opened (size_of w) (omega (arith, collect-short w 0 (2 ^ 63)))),
  e,
)

opens_ro :
    (file : Bytes) (w : Contents)
    → length file < 2 ^ 63
    → holding file ≡ w
    → (f : Fork) × (w' : Contents) × (open_fork keeper plain volume 2 link_path 1 w ≡ (ok f, w'))
      × (f.size ≡ length file)
      × (holding file ≡ w')
unfolding open_fork ask command result_err path opened_as
opens_ro file w short e =
    let size : size_of w ≡ length file = ap size_of (sym e) ∙ size_of-holding file short in
    (
      opened_as (size_of w),
      w,
      ap (λ o. (o, w)) (parse_opened (size_of w) (omega (arith, size, short))),
      size,
      e,
    )

takes :
    (f : Fork) (offset : ℕ) (b : Bytes) (c w : Contents)
    → offset + length b < 2 ^ 64
    → c ≡ w
    → (r : Reply) × (w' : Contents) × (keeper.request cmd_write
          (length (write_header f offset (length b)))
          (write_request f offset b)
          w
        ≡ (ok r, w'))
      × (r.header.err_code ≡ res_no_err)
      × (put offset b c ≡ w')
takes f offset b c w fits e = (
  with_code 0 [],
  put offset b c,
  ap₂ (λ o x. (ok (with_code 0 []), put o b x)) (from_be-be 8 offset (omega (arith, fits))) (sym e),
  refl,
  refl,
)

answers :
    (f : Fork) (file : Bytes) (offset count : ℕ) (w : Contents)
    → offset + count < 2 ^ 64
    → holding file ≡ w
    → (r : Reply) × (w' : Contents) × (keeper.request cmd_command 0
          (read_request keeper f offset count)
          w
        ≡ (ok r, w'))
      × (holding file ≡ w')
      × ReadAnswer file offset count r
answers f file offset count w fits e =
    let got : collect w offset count ≡ take count (drop offset file) =
      ap (λ c. collect c offset count) (sym e) ∙ collect-holding file offset count in
    let size = ap length got ∙ length-take count (drop offset file) in
    (
      read_contents w offset count,
      w,
      ap₂ (λ o n. (ok (read_contents w o n), w)) (from_be-be 8 offset (omega (arith, fits)))
          (from_be-be 8 count (omega (arith, fits))),
      e,
      elim (Bool-cases (ltb (length (collect w offset count)) count)) [
        | inl short ↦ record {
          part = got;
          code = inr (
            rw short,
            omega (
              arith,
              size,
              length-drop offset file,
              ltb→lt (length (collect w offset count)) count short,
            ),
          );
        }
        | inr full ↦ record { part = got; code = inl (rw full) }
      ],
    )

closes :
    (f : Fork) (c w : Contents)
    → c ≡ w
    → (w' : Contents) × (close_fork keeper f w ≡ (ok tt, w')) × (c ≡ w')
unfolding close_fork run command result_err
closes f c w e = (w, refl, e)

marks :
    (c w : Contents)
    → c ≡ w
    → (w' : Contents) × (set_finder_info keeper plain volume 2 link_path symlink_finder_info w
        ≡ (ok tt, w'))
      × (c ≡ w')
unfolding set_finder_info run command result_err path write_params_header even_pad
marks c w e = (w, refl, e)

keeper-FileServer : FileServer keeper plain volume 2 link_path (λ w. w ≡ nothing) (λ c w. c ≡ w)
keeper-FileServer = record {
  create = creates;
  open_rw = opens_rw;
  open_ro = opens_ro;
  take_write = takes;
  answer_read = answers;
  close_any = closes;
  mark = marks;
}

symlink-read_link_example :
    (w1 : Contents) × (w2 : Contents) × (symlink keeper plain
        (λ size. pieces 3 size)
        volume
        2
        link_path
        (97 ∷ 47 ∷ 98 ∷ [])
        nothing
      ≡ (ok tt, w1))
    × (read_link keeper plain (λ f. chunks f.size f.chunk_size) volume 2 link_path w1
        ≡ (ok (97 ∷ 47 ∷ 98 ∷ []), w2))
symlink-read_link_example =
    symlink-read_link keeper plain volume 2 link_path (λ w. w ≡ nothing) (λ c w. c ≡ w)
      keeper-FileServer (97 ∷ 47 ∷ 98 ∷ []) (omega arith) (λ size. pieces 3 size)
      (λ f. chunks f.size f.chunk_size) nothing (λ size. Permᴰ.refl (pieces 3 size))
      (λ f. Permᴰ.refl (chunks f.size f.chunk_size)) refl
