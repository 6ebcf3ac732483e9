-- ===== src/Nfsfs/Serve.antt =====
-- internal/nfsfs/serve.go: the answer to FSSTAT. The server itself is go-nfs.
use goafp.Base.{ℕ, List}
use goafp.Base.Outcome.{Outcome, ok, err, panic}
use goafp.Afp.Text.{Norm}
use goafp.Afp.Link.{M, Link}
use goafp.Afp.Volume.{FsInfo}
use goafp.Afp.Fork.{Chunk}
use goafp.Base.Bytes.{Bytes}
use goafp.Nfsfs.Conn.{Network, State}
use goafp.Nfsfs.File.{VolumeRef}
use goafp.Nfsfs.Fs.{stat_fs}

-- What `nfs.FSStat` holds of sizes.
pub record FsStat : Type 0 where
  pub total_size : ℕ
  pub free_size : ℕ
  pub available_size : ℕ

-- An error leaves the sizes as they were.
abbrev pub fill_stat : {S : Type 0} → FsStat → Outcome FsInfo × S → Outcome FsStat × S
fill_stat s (ok i, a) = (
  ok (record {
    total_size = i.total_bytes;
    free_size = i.free_bytes;
    available_size = i.free_bytes;
  }),
  a,
)
fill_stat s (err e, a) = (ok s, a)
fill_stat s (panic, a) = (panic, a)

module _ {W C : Type 0} (net : Network W C VolumeRef) (link : VolumeRef → Link W) (norm : Norm)
    (sched : ℕ → ℕ → List Chunk) (others : ℕ → State net → State net) (base : Bytes) where
  -- `statfsHandler.FSStat`.
  unfoldable pub fs_stat : FsStat → M (State net) FsStat
  fs_stat s a = fill_stat s (stat_fs net link norm sched others base a)
