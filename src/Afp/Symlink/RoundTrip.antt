-- ===== src/Afp/Symlink/RoundTrip.antt =====
-- internal/afp/symlink.go: `Symlink` and `ReadLink` on a server that keeps a file.
use goafp.Base.{
  ℕ, ◌+◌, ◌^◌, ◌<◌, ◌≡◌, sym, ap, ◌∙◌, inl, inr, false, true, none, List, [], ◌++◌, arith, leb,
  ◌==◌, Bool-cases, length, take, drop, replicate, length-append, length-replicate, take_all,
  take-append_length, ==_iff,
}
use goafp.Base.Bytes.{Bytes}
use goafp.Base.Outcome.{ok}
use mathlib.Core.Path.{subst}
use mathlib.Core.List.{Permᴰ}
use goafp.Dsi.Conn.{Reply}
use goafp.Dsi.Header.{cmd_command, cmd_write}
use goafp.Afp.Text.{Norm}
use goafp.Afp.Codes.{res_no_err}
use goafp.Afp.Link.{Link}
use goafp.Afp.Volume.{Volume, create_file}
use goafp.Afp.Fork.{
  fork_read, Fork, Chunk, chunks, ReadResult, read_request, open_fork_ro, open_fork_rw, close_fork,
}
use goafp.Afp.Fork.Opened.{open_fork-sizes}
use goafp.Afp.Fork.Streaming.{empty}
use goafp.Afp.Fork.Reassembly.{IsRead}
use goafp.Afp.Fork.Reads.{ReadAnswer, read_at-file}
use goafp.Afp.Write.{pieces, write_header, write_request, write_chunk_size}
use goafp.Afp.Write.Contents.{Contents, put, write_at-file}
use goafp.Afp.Symlink.{symlink_finder_info, set_finder_info, symlink, read_link, as_target}

abbrev pub nothing : Contents
nothing i = none

-- A file whose contents are these bytes.
abbrev pub holding : Bytes → Contents
holding file = put 0 file nothing

-- A server as the links of one path need it. `P c` holds of the states in which the file at the path
-- has the contents `c`; before it is created there is none.
pub record FileServer {W : Type 0} (link : Link W) (norm : Norm) (v : Volume) (dir_id : ℕ)
    (p : Bytes) (Free : W → Type 0) (P : Contents → W → Type 0) : Type 0 where
  pub create :
      (w : W)
      → Free w
      → (w' : W) × (create_file link norm v dir_id p false w ≡ (ok tt, w')) × P nothing w'
  pub open_rw :
      (c : Contents) (w : W)
      → P c w
      → (f : Fork) × (w' : W) × (open_fork_rw link norm v dir_id p w ≡ (ok f, w')) × P c w'
  pub open_ro :
      (file : Bytes) (w : W)
      → length file < 2 ^ 63
      → P (holding file) w
      → (f : Fork) × (w' : W) × (open_fork_ro link norm v dir_id p w ≡ (ok f, w'))
        × (f.size ≡ length file)
        × P (holding file) w'
  pub take_write :
      (f : Fork) (offset : ℕ) (b : Bytes) (c : Contents) (w : W)
      → offset + length b < 2 ^ 64
      → P c w
      → (r : Reply) × (w' : W) × (link.request cmd_write
            (length (write_header f offset (length b)))
            (write_request f offset b)
            w
          ≡ (ok r, w'))
        × (r.header.err_code ≡ res_no_err)
        × P (put offset b c) w'
  pub answer_read :
      (f : Fork) (file : Bytes) (offset count : ℕ) (w : W)
      → offset + count < 2 ^ 64
      → P (holding file) w
      → (r : Reply) × (w' : W) × (link.request cmd_command 0 (read_request link f offset count) w
          ≡ (ok r, w'))
        × P (holding file) w'
        × ReadAnswer file offset count r
  pub close_any :
      (f : Fork) (c : Contents) (w : W)
      → P c w
      → (w' : W) × (close_fork link f w ≡ (ok tt, w')) × P c w'
  pub mark :
      (c : Contents) (w : W)
      → P c w
      → (w' : W) × (set_finder_info link norm v dir_id p symlink_finder_info w ≡ (ok tt, w'))
        × P c w'

as_target-read :
    (target : Bytes) (n : ℕ) (r : ReadResult)
    → n ≡ length target
    → IsRead [] (replicate n 0) target r
    → as_target r ≡ ok target
as_target-read target n r e h =
    let size = length-replicate {A = ℕ} n 0 in
    let all : take (length (replicate {A = ℕ} n 0)) target ≡ target =
      take_all (length (replicate {A = ℕ} n 0)) target (omega (arith, size, e)) in
    let count : r.n ≡ length target =
      h.n_is ∙ ap (λ t. 0 + length t) all ∙ zero_add (length target) in
    let buffer : r.buffer ≡ target ++ drop (length target) (replicate n 0) =
      h.buffer_is ∙ ap (λ t. t ++ drop (length target) (replicate n 0)) all in
    let room : leb r.n (length r.buffer) ≡ true = ground (
      arith,
      count,
      ap length buffer,
      length-append target (drop (length target) (replicate n 0)),
    ) in
    rw (room, count, buffer)
      (ap ok (take-append_length target (drop (length target) (replicate n 0))))
  where
    zero_add : (m : ℕ) → 0 + m ≡ m
    zero_add m = omega arith

module _ {W : Type 0} (link : Link W) (norm : Norm) (v : Volume) (dir_id : ℕ) (p : Bytes)
    (Free : W → Type 0) (P : Contents → W → Type 0)
    (server : FileServer link norm v dir_id p Free P) (target : Bytes)
    (fits : length target < 2 ^ 63) where
  symlink-holding :
      (sched : ℕ → List Chunk) (w : W)
      → ((size : ℕ) → Permᴰ (sched size) (pieces (length target) size))
      → Free w
      → (w' : W) × (symlink link norm sched v dir_id p target w ≡ (ok tt, w'))
        × P (holding target) w'
  unfolding symlink
  symlink-holding sched w perm free =
      let (w1, created, p1) = server.create w free in
      let (f, w2, opened, p2) = server.open_rw nothing w1 p1 in
      let (w3, wrote, p3) =
        write_at-file link f P (server.take_write f) (sched (write_chunk_size link.quantum f))
          target 0 nothing w2 (omega (arith, fits)) (perm (write_chunk_size link.quantum f)) p2 in
      let (w4, closed, p4) = server.close_any f (holding target) w3 p3 in
      let (w5, marked, p5) = server.mark (holding target) w4 p4 in
      (w5, rw (created, opened, wrote, closed, marked), p5)

  read_link-holding :
      (sched : Fork → List Chunk) (w : W)
      → ((f : Fork) → Permᴰ (sched f) (chunks f.size f.chunk_size))
      → P (holding target) w
      → (w' : W) × (read_link link norm sched v dir_id p w ≡ (ok target, w'))
        × P (holding target) w'
  unfolding read_link
  read_link-holding sched w perm h =
      let (f, w1, opened, size, p1) = server.open_ro target w fits h in
      let (chunk, _) = open_fork-sizes link norm v dir_id p fork_read f w w1 opened in
      let buf : Bytes = replicate f.size 0 in
      let buf_size : length buf ≡ f.size = length-replicate f.size 0 in
      let (r, w2, reads, p2, is) =
        read_at-file link f (P (holding target)) target (server.answer_read f target) (sched f) buf
          0 w1 (omega (arith, chunk)) (omega (arith, buf_size, size, fits))
          (subst (λ n. Permᴰ (sched f) (chunks n f.chunk_size)) (sym buf_size) (perm f)) p1 in
      let (w3, closed, p3) = server.close_any f (holding target) w2 p2 in
      let (w4, closed', p4) = server.close_any f (holding target) w1 p1 in
      elim (Bool-cases (f.size == 0)) [
        | inl none_there ↦
            let nil : target ≡ [] = empty target (sym size ∙ (==_iff f.size 0).0 none_there) in
            (w4, rw (opened, none_there, closed') (ap (λ t. (ok t, w4)) (sym nil)), p4)
        | inr some_there ↦
            (w3, rw (opened, some_there, reads, as_target-read target f.size r size is, closed), p3)
      ]

  -- Let a server keep the contents of the file at a path: it creates the file where there is none,
  -- opens forks on it, with the length of a file of fewer than 2^63 bytes, takes writes, answers
  -- reads with the bytes that are there, closes forks and takes the Finder information. Then, for
  -- a target of fewer than 2^63 bytes and whatever the order of the pieces, `Symlink` succeeds and
  -- `ReadLink` returns the target.
  pub symlink-read_link :
      (order : ℕ → List Chunk) (sched : Fork → List Chunk) (w : W)
      → ((size : ℕ) → Permᴰ (order size) (pieces (length target) size))
      → ((f : Fork) → Permᴰ (sched f) (chunks f.size f.chunk_size))
      → Free w
      → (w1 : W) × (w2 : W) × (symlink link norm order v dir_id p target w ≡ (ok tt, w1))
        × (read_link link norm sched v dir_id p w1 ≡ (ok target, w2))
  symlink-read_link order sched w perm perm' free =
      let (w1, made, h) = symlink-holding order w perm free in
      let (w2, read, _) = read_link-holding sched w1 perm' h in (w1, w2, made, read)
