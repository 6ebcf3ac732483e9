-- ===== src/Tests/Files.antt =====
-- internal/afp: forks and directories against small servers.
use goafp.Base.{
  true, false, ℕ, suc, ◌+◌, ◌^◌, ◌≤◌, ◌<◌, ◌≡◌, refl, sym, ap, inl, inr, none, some, List, [], ◌∷◌,
  ◌++◌, arith, leb, ◌==◌, if◌then◌else◌, Bool-cases, length, take, drop, replicate, All,
}
use goafp.Base.Int.{pos}
use goafp.Base.Bytes.{Bytes, from_be, from_be-be}
use goafp.Base.Outcome.{Error, ok, err, server}
use mathlib.Core.Path.{ap₂}
use mathlib.Core.List.{Permᴰ}
use goafp.Dsi.Header.{cmd_command, cmd_write}
use goafp.Dsi.Conn.{Reply}
use goafp.Afp.Builder.{path}
use goafp.Afp.Codes.{result_err, res_no_err, res_eof, res_object_not_found}
use goafp.Afp.Entry.{DirEntry}
use goafp.Afp.Link.{M, Link}
use goafp.Afp.Fork.{Fork, Chunk, chunks, chunks_from, ReadResult, read_request, read_at, write_to}
use goafp.Afp.Fork.Streaming.{write_to-file}
use goafp.Afp.Fork.Failing.{asked, FailsAt, read_at-failed}
use goafp.Afp.Fork.Reassembly.{IsRead}
use goafp.Afp.Fork.Reads.{ReadAnswer, read_at-file}
use goafp.Afp.Write.{pieces, part, write_header, write_request, write_at, write_chunk_size}
use goafp.Afp.Write.Bounds.{write_request-le-quantum}
use goafp.Afp.Write.Contents.{Contents, put, write_at-file}
use goafp.Afp.Volume.{Volume, enumerate_request, read_dir}
use goafp.Afp.Volume.Enumerate.{encode_reply, parse_enumerate_reply_lem}
use goafp.Tests.Parsers.{plain, bitmap, raw_file, file_entry, raw_file-Decodes}
use goafp.Afp.Volume.Listing.{Answer, read_dir-entries}

abbrev pub with_code : ℕ → Bytes → Reply
with_code code payload = record {
  header = record {
    flags = 1;
    command = 2;
    request_id = 1;
    err_code = code;
    len = 0;
    reserved = 0;
  };
  payload = payload;
}

abbrev pub fork : Fork
fork = record { id = 1; size = 5; chunk_size = 2; max_parallel = 8 }

abbrev pub file : Bytes
file = 10 ∷ 20 ∷ 30 ∷ 40 ∷ 50 ∷ []

abbrev pub read_reply : ℕ → ℕ → Reply
read_reply offset count =
    with_code (if leb (length file) (offset + count) then res_eof else res_no_err)
      (take count (drop offset file))

-- It holds the file, and reads offset and count from the request.
abbrev pub reads : (W : Type 0) → Link W
reads W = record {
  request = λ _ _ payload w.
      (ok (read_reply (from_be (take 8 (drop 4 payload))) (from_be (take 8 (drop 12 payload)))), w);
  quantum = 1024;
  sooner = λ _. true;
}

pub reads-ReadAnswer :
    (W : Type 0) (P : W → Type 0) (offset count : ℕ) (w : W)
    → offset + count < 2 ^ 64
    → P w
    → (r : Reply) × (w' : W) × ((reads W).request cmd_command 0
          (read_request (reads W) fork offset count)
          w
        ≡ (ok r, w'))
      × P w'
      × ReadAnswer file offset count r
reads-ReadAnswer W P offset count w fits p = (
  read_reply offset count,
  w,
  ap₂ (λ o n. (ok (read_reply o n), w)) (from_be-be 8 offset (omega (arith, fits)))
      (from_be-be 8 count (omega (arith, fits))),
  p,
  elim (Bool-cases (leb (length file) (offset + count))) [
    | inl over ↦ record { part = refl; code = inr (rw over, ground arith) }
    | inr inside ↦ record { part = refl; code = inl (rw inside) }
  ],
)

abbrev schedule : List Chunk
schedule =
    record { start = 2; want = 2 }
    ∷ record { start = 0; want = 2 }
    ∷ record { start = 4; want = 2 }
    ∷ record { start = 6; want = 1 }
    ∷ []

schedule-perm : Permᴰ schedule (chunks 7 2)
unfolding chunks_from
schedule-perm = Permᴰ.swap refl refl

read_at-file_example :
    (r : ReadResult) × (w' : Unit {0}) × (read_at
        (reads (Unit {0}))
        fork
        schedule
        (replicate 7 0)
        1
        tt
      ≡ (ok r, w'))
    × Unit {0}
    × IsRead [] (replicate 7 0) (20 ∷ 30 ∷ 40 ∷ 50 ∷ []) r
read_at-file_example =
    read_at-file (reads (Unit {0})) fork (λ _. Unit {0}) file
      (reads-ReadAnswer (Unit {0}) (λ _. Unit {0})) schedule (replicate 7 0) 1 tt (omega arith)
      (omega arith) schedule-perm tt

-- It refuses to read at 4 and at 6, with different codes, and counts the requests; replies come in
-- the other order than requests.
abbrev refusal : ℕ → Reply
refusal offset =
    if offset == 4 then with_code 5 [] else if offset == 6 then with_code 7 [] else with_code 0 file

abbrev refusing : Link ℕ
refusing = record {
  request = λ _ _ payload n. (ok (refusal (from_be (take 8 (drop 4 payload)))), suc n);
  quantum = 1024;
  sooner = λ _. false;
}

abbrev first_reads : List Chunk
first_reads = record { start = 2; want = 2 } ∷ record { start = 0; want = 2 } ∷ []

abbrev refused_read : Chunk
refused_read = record { start = 4; want = 2 }

abbrev last_reads : List Chunk
last_reads = record { start = 6; want = 1 } ∷ []

read_at-failed_example :
    (y : Error) × (read_at refusing fork
        (first_reads ++ refused_read ∷ last_reads)
        (replicate 7 0)
        0
        0
      ≡ (err y, asked refusing fork 0 (first_reads ++ refused_read ∷ last_reads) 0))
    × FailsAt refusing fork 0 (first_reads ++ refused_read ∷ last_reads) 0 y
unfolding result_err asked
read_at-failed_example =
    read_at-failed refusing fork 0 (λ c n. tt) first_reads last_reads refused_read (server 5)
      (replicate 7 0) 0 (λ e. cc) (ground arith, refl)

-- It puts what it is sent into the file; its quantum leaves room for two bytes.
abbrev pub writes : Link Contents
writes = record {
  request = λ _ _ payload c.
      (ok (with_code 0 []), put (from_be (take 8 (drop 4 payload))) (drop 20 payload) c);
  quantum = 22;
  sooner = λ _. true;
}

pub writes-takes :
    (offset : ℕ) (v : Bytes) (c w : Contents)
    → offset + length v < 2 ^ 64
    → c ≡ w
    → (r : Reply) × (w' : Contents) × (writes.request cmd_write
          (length (write_header fork offset (length v)))
          (write_request fork offset v)
          w
        ≡ (ok r, w'))
      × (r.header.err_code ≡ res_no_err)
      × (put offset v c ≡ w')
writes-takes offset v c w fits e = (
  with_code 0 [],
  put offset v c,
  ap₂ (λ o x. (ok (with_code 0 []), put o v x)) (from_be-be 8 offset (omega (arith, fits))) (sym e),
  refl,
  refl,
)

size_two : write_chunk_size 22 fork ≡ 2
unfolding write_chunk_size
size_two = refl

write_schedule-perm : Permᴰ schedule (pieces 7 (write_chunk_size 22 fork))
write_schedule-perm = rw size_two schedule-perm

write_at-file_example :
    (w' : Contents) × (write_at writes fork schedule (replicate 7 9) 3 (λ _. none)
      ≡ (ok (record { total = 7; first_err = none }), w'))
    × (put 3 (replicate 7 9) (λ _. none) ≡ w')
write_at-file_example =
    write_at-file writes fork (λ c w. c ≡ w) writes-takes schedule (replicate 7 9) 3 (λ _. none)
      (λ _. none) (omega arith) write_schedule-perm refl

write_request-le-quantum_example :
    All
      (λ (c : Chunk). length (write_request fork (3 + c.start) (part (replicate 7 9) c)) ≤ 22)
      (pieces 7 (write_chunk_size 22 fork))
write_request-le-quantum_example =
    write_request-le-quantum 22 fork (replicate 7 9) 3 (omega arith) (omega arith)

abbrev pub volume : Volume
volume = record { id = 1; name = []; attributes = 0 }

abbrev list_reply : ℕ → Reply
list_reply start =
    if start == 1
    then with_code res_no_err (encode_reply bitmap bitmap (raw_file ∷ []))
    else with_code res_object_not_found []

-- A directory of one file; the start index stands in the request behind the count.
abbrev lists : Link (Unit {0})
lists = record {
  request = λ _ _ payload w. (ok (list_reply (from_be (take 4 (drop 14 payload)))), w);
  quantum = 1024;
  sooner = λ _. true;
}

Lists : List DirEntry → List DirEntry → Unit {0} → Type 0
Lists all left w =
    (r : Reply) × (w' : Unit {0}) × (lists.request cmd_command 0
        (enumerate_request lists plain volume 2 [] (length all + 1)) w
      ≡ (ok r, w'))
    × Unit {0}
    × Answer plain r left

Lists-Answer :
    (all left : List DirEntry) (w : Unit {0})
    → Unit {0}
    → all ++ left ≡ file_entry ∷ []
    → Lists all left w
unfolding Lists path
Lists-Answer [] left w _ e = (
  list_reply 1,
  w,
  refl,
  tt,
  Answer.batch file_entry [] [] refl
      (parse_enumerate_reply_lem plain bitmap bitmap (raw_file ∷ []) (file_entry ∷ []) (omega arith)
        (omega arith) (omega arith) raw_file-Decodes)
      e,
)
Lists-Answer (x ∷ []) [] w _ e = (list_reply 2, w, refl, tt, Answer.ended refl refl)
Lists-Answer (x ∷ []) (y ∷ left) w _ e = absurd (omega (arith, ap length e))
Lists-Answer (x ∷ y ∷ all) left w _ e = absurd (omega (arith, ap length e))

read_dir-entries_example :
    (w' : Unit {0}) × (read_dir lists plain 2 volume 2 [] tt ≡ (ok (some (file_entry ∷ [])), w'))
    × Unit {0}
unfolding Lists path
read_dir-entries_example =
    read_dir-entries lists plain volume 2 [] (λ _. Unit {0}) (file_entry ∷ []) Lists-Answer 2 tt tt
      (omega arith) (omega arith)

-- The world is what has been written out; the windows hold two pieces, which change places.
abbrev emits : Bytes → M Bytes (Unit {0})
emits b out = (ok tt, out ++ b)

abbrev small_fork : Fork
small_fork = record { id = 1; size = 5; chunk_size = 2; max_parallel = 2 }

abbrev window : List Chunk
window = record { start = 2; want = 2 } ∷ record { start = 0; want = 2 } ∷ []

window-perm : Permᴰ window (chunks 4 2)
unfolding chunks_from
window-perm = Permᴰ.swap refl refl

write_to-file_example :
    (w' : Bytes) × (write_to (reads Bytes) emits 6 (λ _. window) small_fork []
      ≡ (ok (some (pos 5)), w'))
    × (file ≡ w')
write_to-file_example =
    write_to-file (reads Bytes) emits small_fork (λ _. window) (λ out w. out ≡ w) file
      (λ out. reads-ReadAnswer Bytes (λ w. out ≡ w))
      (λ out b w e. (w ++ b, refl, ap (λ o. o ++ b) e)) 6 [] (omega arith) (omega arith)
      (λ _. window-perm) (omega arith) (omega arith) (omega arith) refl
