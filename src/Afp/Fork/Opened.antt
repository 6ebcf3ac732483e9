-- ===== src/Afp/Fork/Opened.antt =====
-- internal/afp/fork.go: what a fork that has been opened is like.
use goafp.Base.{ℕ, ◌≡◌, sym, ap}
use goafp.Base.Bytes.{Bytes}
use goafp.Base.Outcome.{Outcome, ok, err, panic}
use goafp.Afp.Text.{Norm}
use goafp.Afp.Reader.{reader, uint}
use goafp.Afp.Link.{lift, Link, ask}
use goafp.Afp.Link.Results.{seq-ok}
use goafp.Afp.Volume.{Volume, bind, need}
use goafp.Afp.Fork.{Fork, parse_fork, open_fork, read_chunk_size, max_concurrent_reads}

bind-ok : (o : Outcome (Unit {0})) (g f : Fork) → bind o (λ _. ok g) ≡ ok f → g ≡ f
bind-ok (ok _) g f e = ap (λ o. elim o [ ok h ↦ h | err _ ↦ g | panic ↦ g ]) e
bind-ok (err x) g f e = absurd cc
bind-ok panic g f e = absurd cc

parse_fork-sizes :
    (payload : Bytes) (f : Fork)
    → parse_fork payload ≡ ok f
    → (f.chunk_size ≡ read_chunk_size) × (f.max_parallel ≡ max_concurrent_reads)
unfolding parse_fork
parse_fork-sizes payload f e =
    let (_, r1) = uint 2 (reader payload) in
    let (_, r2) = uint 2 r1 in
    let f_is = bind-ok (need (uint 8 r2).1) _ f e in
    (ap (λ g. g.chunk_size) (sym f_is), ap (λ g. g.max_parallel) (sym f_is))

pub open_fork-sizes :
    {W : Type 0} (link : Link W) (norm : Norm) (v : Volume) (dir_id : ℕ) (p : Bytes) (mode : ℕ)
    (f : Fork) (w w' : W)
    → open_fork link norm v dir_id p mode w ≡ (ok f, w')
    → (f.chunk_size ≡ read_chunk_size) × (f.max_parallel ≡ max_concurrent_reads)
unfolding open_fork
open_fork-sizes link norm v dir_id p mode f w w' e =
    let (payload, w1, _, last) =
      seq-ok (ask link _) (λ payload. lift (parse_fork payload)) w f w' e in
    parse_fork-sizes payload f (ap (λ q. q.0) last)
