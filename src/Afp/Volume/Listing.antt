-- ===== src/Afp/Volume/Listing.antt =====
-- internal/afp/session.go: `ReadDir` against a server that lists a directory.
use goafp.Base.{
  ℕ, zero, suc, ◌+◌, ◌%◌, ◌^◌, ◌<◌, ◌≡◌, refl, sym, ap, ◌∙◌, none, some, List, [], ◌∷◌, ◌++◌,
  append-nil, append_assoc, arith, length, length-append,
}
use goafp.Base.Bytes.{Bytes}
use goafp.Base.Outcome.{ok}
use goafp.Dsi.Conn.{Reply}
use goafp.Dsi.Header.{cmd_command}
use goafp.Afp.Text.{Norm}
use goafp.Afp.Codes.{result_err, res_no_err, res_object_not_found}
use goafp.Afp.Entry.{DirEntry}
use goafp.Afp.Link.{Link, command}
use goafp.Afp.Volume.{
  Volume, enumerate_request, next_batch, read_dir_from, read_dir, parse_enumerate_reply,
}

-- What a server answers to FPEnumerateExt2 where `left` is what follows the start index.
pub data Answer (norm : Norm) (r : Reply) (left : List DirEntry) : Type 0 where
  ended : r.header.err_code ≡ res_object_not_found → left ≡ [] → Answer norm r left
  batch :
      (e : DirEntry) (es rest : List DirEntry)
      → r.header.err_code ≡ res_no_err
      → parse_enumerate_reply norm r.payload ≡ ok (e ∷ es)
      → left ≡ (e ∷ es) ++ rest
      → Answer norm r left

module _ {W : Type 0} (link : Link W) (norm : Norm) (v : Volume) (dir_id : ℕ) (p : Bytes) where
  next_batch_ended :
      (start : ℕ) (w w' : W) (r : Reply)
      → link.request cmd_command 0 (enumerate_request link norm v dir_id p start) w ≡ (ok r, w')
      → r.header.err_code ≡ res_object_not_found
      → next_batch link norm v dir_id p start w ≡ (ok none, w')
  unfolding next_batch command
  next_batch_ended start w w' r e c = rw (e, c)

  next_batch-some :
      (start : ℕ) (w w' : W) (r : Reply) (x : DirEntry) (xs : List DirEntry)
      → link.request cmd_command 0 (enumerate_request link norm v dir_id p start) w ≡ (ok r, w')
      → r.header.err_code ≡ res_no_err
      → parse_enumerate_reply norm r.payload ≡ ok (x ∷ xs)
      → next_batch link norm v dir_id p start w ≡ (ok (some (x ∷ xs)), w')
  unfolding next_batch command result_err
  next_batch-some start w w' r x xs e c parsed = rw (e, c, parsed)

module _ {W : Type 0} (link : Link W) (norm : Norm) (v : Volume) (dir_id : ℕ) (p : Bytes)
    (P : W → Type 0) (entries : List DirEntry)
    (answers : (all left : List DirEntry) (w : W)
      → P w
      → all ++ left ≡ entries
      → (r : Reply) × (w' : W) × (link.request cmd_command 0
            (enumerate_request link norm v dir_id p (length all + 1))
            w
          ≡ (ok r, w'))
        × P w'
        × Answer norm r left) where
  read_dir_from_lem :
      (fuel start : ℕ) (all left : List DirEntry) (w : W)
      → P w
      → all ++ left ≡ entries
      → length entries + 1 < 2 ^ 32
      → start ≡ length all + 1
      → length left < fuel
      → (w' : W) × (read_dir_from link norm fuel v dir_id p start all w ≡ (ok (some entries), w'))
        × P w'
  unfolding read_dir_from
  read_dir_from_lem zero start all left w h split small e lt = absurd (omega arith)
  read_dir_from_lem (suc fuel) start all left w h split small e lt =
      let (r, w', req, h', ans) = answers all left w h split in
      let req' = rw (← e) at req in
      elim ans [
        | ended code none_left ↦
            let all_eq : all ≡ entries = sym (append-nil all) ∙ (rw none_left at split) in
            (w', rw (next_batch_ended link norm v dir_id p start w w' r req' code, all_eq), h')
        | batch x xs rest code parsed eq ↦
            let split' : (all ++ x ∷ xs) ++ rest ≡ entries =
              append_assoc all (x ∷ xs) rest ∙ (rw eq at split) in
            let size = ap length eq in
            let total = ap length split' in
            let (w'', run, h'') =
              read_dir_from_lem fuel ((start + length (x ∷ xs)) % 2 ^ 32) (all ++ x ∷ xs) rest w' h'
                split' small
                (omega (arith, length-append all (x ∷ xs), length-append (all ++ x ∷ xs) rest))
                (omega (arith, length-append xs rest)) in
            (
              w'',
              rw (next_batch-some link norm v dir_id p start w w' r x xs req' code parsed) run,
              h'',
            )
      ]

  -- Let the server answer FPEnumerateExt2 at each start index of a directory of fewer than 2^32 -
  -- 1 entries with one or more of the next entries, as many as it likes, or with "object not
  -- found" behind the last. Then `ReadDir` ends and returns all the entries in their order. Fuel
  -- above the number of entries is enough.
  pub read_dir-entries :
      (fuel : ℕ) (w : W)
      → P w
      → length entries + 1 < 2 ^ 32
      → length entries < fuel
      → (w' : W) × (read_dir link norm fuel v dir_id p w ≡ (ok (some entries), w')) × P w'
  read_dir-entries fuel w h small lt = read_dir_from_lem fuel 1 [] entries w h refl small refl lt
