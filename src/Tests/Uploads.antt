-- ===== src/Tests/Uploads.antt =====
-- internal/afp/write.go: `ReadFrom` against a server that puts what it is sent into its file.
use goafp.Base.{
  true, ℕ, ◌+◌, ◌^◌, ◌<◌, ◌≡◌, refl, sym, ap, none, some, [], arith, length, take, drop, replicate,
}
use goafp.Base.Bytes.{Bytes, from_be, from_be-be}
use goafp.Base.Outcome.{ok}
use mathlib.Core.Path.{ap₂}
use mathlib.Core.List.Permᴰ
use goafp.Dsi.Header.{cmd_write}
use goafp.Dsi.Conn.{Reply}
use goafp.Afp.Codes.{res_no_err}
use goafp.Afp.Link.{Link}
use goafp.Afp.Write.{Filled, pieces, write_header, write_request, write_chunk_size, read_from}
use goafp.Afp.Write.Contents.{Contents, put}
use goafp.Afp.Write.Streamed.{fill_of, read_from-file}
use goafp.Tests.Files.{fork, with_code}

-- The file of the server, and what is left of the source.
abbrev pub Uploading : Type 0
Uploading = Contents × Bytes

abbrev server : Link Uploading
server = record {
  request = λ _ _ payload (c, left).
      (ok (with_code 0 []), (put (from_be (take 8 (drop 4 payload))) (drop 20 payload) c, left));
  quantum = 22;
  sooner = λ _. true;
}

abbrev pub fill : ℕ → Uploading → Filled × Uploading
fill n (c, left) = (fill_of n left, (c, drop n left))

takes :
    (left : Bytes) (offset : ℕ) (v : Bytes) (c : Contents) (w : Uploading)
    → offset + length v < 2 ^ 64
    → (c, left) ≡ w
    → (r : Reply) × (w' : Uploading) × (server.request cmd_write
          (length (write_header fork offset (length v)))
          (write_request fork offset v)
          w
        ≡ (ok r, w'))
      × (r.header.err_code ≡ res_no_err)
      × ((put offset v c, left) ≡ w')
takes left offset v c w fits e = (
  with_code 0 [],
  (put offset v c, left),
  ap₂ (λ o x. (ok (with_code 0 []), (put o v x.0, x.1))) (from_be-be 8 offset (omega (arith, fits)))
      (sym e),
  refl,
  refl,
)

read_from-file_example :
    (w' : Uploading) × (read_from server fill 20
        (λ _ n. pieces n (write_chunk_size 22 fork))
        fork
        ((λ _. none), replicate 19 9)
      ≡ (ok (some (record { total = 19; first_err = none })), w'))
    × ((put 0 (replicate 19 9) (λ _. none), []) ≡ w')
read_from-file_example =
    read_from-file server fill fork (λ _ n. pieces n (write_chunk_size 22 fork))
      (λ c left w. (c, left) ≡ w) (λ n c left w e. ((c, drop n left), ap (fill n) (sym e), refl))
      takes (λ _ n. Permᴰ.refl (pieces n (write_chunk_size 22 fork))) 20 (replicate 19 9)
      (λ _. none) ((λ _. none), replicate 19 9) (omega arith) (omega arith) (omega arith) refl
