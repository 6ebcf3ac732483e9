-- ===== src/Tests/NfsFiles.antt =====
-- internal/nfsfs/file.go, fs.go: files on a server that holds one file of five bytes.
use goafp.Base.{
  ℕ, ◌≡◌, refl, sym, ap, ◌∙◌, Option, none, some, List, [], ◌∷◌, arith, true, false, replicate,
  ◌++◌, ltb, if◌then◌else◌,
}
use goafp.Base.Int.{pos}
use goafp.Base.Outcome.{ok, err, eof}
use mathlib.Core.List.Permᴰ
use goafp.Afp.Text.{codes, same}
use goafp.Afp.Reader.{uint, read}
use goafp.Afp.Codes.{res_no_err, result_err}
use goafp.Afp.Volume.{create_file}
use goafp.Afp.Link.{M, Link, ask, run, command}
use goafp.Afp.Fork.{
  Fork, Chunk, chunks, open_fork, parse_fork, read_chunk_size, max_concurrent_reads,
}
use goafp.Nfsfs.Conn.{do_op, Live, ConnManager, Network}
use goafp.Nfsfs.File.{Around, VolumeRef, File, open_file, Scope, with_fork}
use goafp.Nfsfs.File.Laws.{with_fork-current}
use goafp.Nfsfs.File.Reading.{IsOpenAt, slices, total, reads, reads-slices}
use goafp.Afp.Write.{truncate, pieces, write_chunk_size}
use goafp.Afp.Write.Contents.{Contents, put}
use goafp.Nfsfs.File.Writing.{writes, writes-put}
use goafp.Nfsfs.Paths.{resolve, path_join, clean_path, split_slash, clean, clean_step}
use goafp.Nfsfs.Fs.Open.{create_flags, open_with, open_body}
use goafp.Nfsfs.Fs.Open.Results.{IsOpened, open_with-IsOpened}
use goafp.Tests.Parsers.{plain}
use goafp.Tests.Files.{with_code, fork, file, reads-ReadAnswer, writes-takes, volume}
use goafp.Tests.Files as Files

abbrev here : VolumeRef
here = record { ref = 7; volume = volume }

abbrev link : Live ℕ VolumeRef
link = record { conn = 3; vol = here }

abbrev network : Network (Unit {0}) ℕ VolumeRef
network = record { dial = λ w. (ok link, w); close = λ c w. w; is_alive = λ c w. true }

abbrev server : VolumeRef → Link (Unit {0})
server v = Files.reads (Unit {0})

abbrev manager : ConnManager ℕ VolumeRef
manager = record { gen = 1; live = some link }

-- Pieces in the order of their offsets.
abbrev in_order : ℕ → ℕ → List Chunk
in_order total size = chunks total size

-- A file at offset 1, with a fork of the volume `ref`.
abbrev opened : ℕ → Scope (Unit {0})
opened ref = record {
  world = tt;
  file = record {
    path = codes "a";
    writable = false;
    fork = some (fork, ref);
    cursor = pos 1;
    size = pos 5;
  };
  n = 0;
  p = [];
}

reads-slices_example :
    reads network server plain in_order
      (replicate 2 0 ∷ replicate 3 0 ∷ replicate 4 0 ∷ [])
      (manager, opened 7)
    ≡ (20 ∷ 30 ∷ []) ∷ (40 ∷ 50 ∷ []) ∷ [] ∷ []
unfolding slices total
reads-slices_example =
    reads-slices network server plain in_order link fork (λ _. Unit {0}) file (omega arith)
      (λ total. Permᴰ.refl (chunks total fork.chunk_size)) (λ w _. refl)
      (reads-ReadAnswer (Unit {0}) (λ _. Unit {0}))
      (replicate 2 0 ∷ replicate 3 0 ∷ replicate 4 0 ∷ []) 1 (manager, opened 7)
      (record { live = refl; opened = refl; placed = refl; holds = tt }) (omega arith)

-- Two operations that differ on a fork that the file does not hold.
abbrev if_held : ℕ → Option (Fork × ℕ) → M (Scope (Unit {0})) (Unit {0})
if_held bad none s = if ltb bad 5 then (ok tt, s) else (err eof, s)
if_held bad (some f) s = (ok tt, s)

abbrev operation : ℕ → VolumeRef → Fork → M (Scope (Unit {0})) (Unit {0})
operation bad v f s = if_held bad s.file.fork s

with_fork-current_example :
    with_fork network server plain in_order (λ _ a. a) (operation 1) (manager, opened 2)
    ≡ with_fork network server plain in_order (λ _ a. a) (operation 9) (manager, opened 2)
with_fork-current_example =
    with_fork-current network server plain in_order (operation 1) (operation 9)
      (λ v f s held. ap (λ o. if_held 1 o s) held ∙ ap (λ o. if_held 9 o s) (sym held)) (λ _ a. a)
      (manager, opened 2)

-- A server that lets every request be, and opens the fork 1, of five bytes.
abbrev opens : VolumeRef → Link (Unit {0})
opens v = record {
  request = λ _ _ _ w. (ok (with_code res_no_err (0 ∷ 2 ∷ 0 ∷ 1 ∷ replicate 7 0 ++ 5 ∷ [])), w);
  quantum = 1024;
  sooner = λ _. true;
}

-- What `Create` of the name "a" returns: the file is truncated.
abbrev created_file : File
created_file = record {
  path = codes "a";
  writable = true;
  fork = some (
    record { id = 1; size = 5; chunk_size = read_chunk_size; max_parallel = max_concurrent_reads },
    7,
  );
  cursor = pos 0;
  size = pos 0;
}

created_lem :
    open_with network opens plain in_order (λ _ s. s) [] (codes "a") create_flags (manager, tt)
    ≡ (ok created_file, (manager, tt))
unfolding open_with open_body open_file do_op resolve path_join clean_path split_slash clean
    clean_step same open_fork parse_fork uint read ask run command result_err create_file truncate
created_lem = refl

open_with-IsOpened_example : IsOpened create_flags (codes "a") created_file
unfolding open_with open_body open_file do_op resolve path_join clean_path split_slash clean
    clean_step same open_fork parse_fork uint read ask run command result_err create_file truncate
open_with-IsOpened_example =
    open_with-IsOpened network opens plain in_order (λ _ s. s) [] (codes "a") create_flags
      (manager, tt)

-- The same volume on a server that takes writes.
abbrev write_network : Network Contents ℕ VolumeRef
write_network = record { dial = λ w. (ok link, w); close = λ c w. w; is_alive = λ c w. true }

abbrev write_server : VolumeRef → Link Contents
write_server v = Files.writes

abbrev writable : Scope Contents
writable = record {
  world = λ _. none;
  file = record {
    path = codes "a";
    writable = true;
    fork = some (fork, 7);
    cursor = pos 4;
    size = pos 5;
  };
  n = 0;
  p = [];
}

writes-put_example :
    (b : Around write_network write_server plain in_order) × (writes write_network write_server
        plain in_order
        (replicate 3 8 ∷ replicate 2 9 ∷ [])
        (manager, writable)
      ≡ (ok tt, b))
    × IsOpenAt write_network write_server plain in_order link fork
        (λ w. put 4 (8 ∷ 8 ∷ 8 ∷ 9 ∷ 9 ∷ []) (λ _. none) ≡ w)
        9
        b
unfolding total
writes-put_example =
    writes-put write_network write_server plain in_order link fork (λ c w. c ≡ w)
      (λ total. Permᴰ.refl (pieces total (write_chunk_size 22 fork))) writes-takes
      (replicate 3 8 ∷ replicate 2 9 ∷ []) 4 (λ _. none) (manager, writable)
      (record { live = refl; opened = refl; placed = refl; holds = refl }) (omega arith)
