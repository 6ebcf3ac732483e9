-- ===== src/Nfsfs/Paths/Resolved.antt =====
-- internal/nfsfs/fs.go: what `resolve` returns, and how it goes with `Chroot`.
use goafp.Base.{
  ℕ, ◌≡◌, refl, sym, ap, ◌∙◌, inl, inr, true, false, ◌||◌, List, [], ◌∷◌, ◌++◌, append-nil,
  append_assoc, ◌==◌, if◌then◌else◌, Bool-cases, All, All-append,
}
use goafp.Base.Bytes.{Bytes}
use mathlib.Core.List.{reverse, reverse_aux, reverse-reverse, reverse-append}
use goafp.Afp.Text.{slash, same}
use goafp.Afp.Volume.Paths.{NoSlash}
use goafp.Nfsfs.Paths.{
  is_empty, onto_first, split_slash, join_rest, join_slash, dot, dot_dot, up, clean_step, clean,
  clean_path, path_join, resolve,
}

-- A name of a directory's entry, as a path goes through it.
pub record IsComponent (p : Bytes) : Type 0 where
  pub there : is_empty p ≡ false
  pub no_dot : same p dot ≡ false
  pub no_dot_dot : same p dot_dot ≡ false
  pub no_slash : NoSlash p

onto_first-append :
    (c : ℕ) (p : Bytes) (ps qs : List Bytes)
    → onto_first c ((p ∷ ps) ++ qs) ≡ onto_first c (p ∷ ps) ++ qs
onto_first-append c p ps qs = refl

split_slash-cons : (s : Bytes) → (p : Bytes) × (ps : List Bytes) × (split_slash s ≡ p ∷ ps)
unfolding split_slash
split_slash-cons [] = ([], [], refl)
split_slash-cons (c ∷ cs) =
    let (p, ps, e) = split_slash-cons cs in
    elim (Bool-cases (c == slash)) [
      | inl here ↦ ([], split_slash cs, rw here)
      | inr other ↦ (c ∷ p, ps, rw (other, e))
    ]

split_slash-append : (a b : Bytes) → split_slash (a ++ slash ∷ b) ≡ split_slash a ++ split_slash b
unfolding split_slash
split_slash-append [] b = refl
split_slash-append (c ∷ a) b =
    let (p, ps, e) = split_slash-cons a in
    elim (Bool-cases (c == slash)) [
      | inl here ↦ rw here (ap (◌∷◌ []) (split_slash-append a b))
      | inr other ↦ rw (other, split_slash-append a b, e)
    ]

onto_first-NoSlash :
    (c : ℕ) (ps : List Bytes)
    → (c == slash) ≡ false
    → All NoSlash ps
    → All NoSlash (onto_first c ps)
onto_first-NoSlash c [] e h = ((e, tt), tt)
onto_first-NoSlash c (p ∷ ps) e h = ((e, h.0), h.1)

split_slash-NoSlash : (s : Bytes) → All NoSlash (split_slash s)
unfolding split_slash
split_slash-NoSlash [] = (tt, tt)
split_slash-NoSlash (c ∷ cs) = elim (Bool-cases (c == slash)) [
  | inl here ↦ rw here (tt, split_slash-NoSlash cs)
  | inr other ↦ rw other (onto_first-NoSlash c (split_slash cs) other (split_slash-NoSlash cs))
]

split_slash_component : (p : Bytes) → NoSlash p → split_slash p ≡ p ∷ []
unfolding split_slash
split_slash_component [] h = refl
split_slash_component (c ∷ p) h = rw (h.0, split_slash_component p h.1)

split_slash-join_rest :
    (p : Bytes) (ps : List Bytes)
    → NoSlash p
    → All NoSlash ps
    → split_slash (p ++ join_rest ps) ≡ p ∷ ps
split_slash-join_rest p [] h hs = ap split_slash (append-nil p) ∙ split_slash_component p h
split_slash-join_rest p (q ∷ qs) h hs =
    split_slash-append p (q ++ join_rest qs)
    ∙ rw (split_slash_component p h, split_slash-join_rest q qs hs.0 hs.1)

-- The components that stand at a point, last first.
stack : List Bytes → List Bytes → List Bytes
stack st [] = st
stack st (p ∷ ps) = stack (clean_step true st p) ps

clean-stack : (st ps : List Bytes) → clean true st ps ≡ reverse (stack st ps)
unfolding clean stack
clean-stack st [] = refl
clean-stack st (p ∷ ps) = clean-stack (clean_step true st p) ps

stack-append : (st ps qs : List Bytes) → stack st (ps ++ qs) ≡ stack (stack st ps) qs
unfolding stack
stack-append st [] qs = refl
stack-append st (p ∷ ps) qs = stack-append (clean_step true st p) ps qs

up-IsComponent : (st : List Bytes) → All IsComponent st → All IsComponent (up true st)
up-IsComponent [] h = tt
up-IsComponent (p ∷ st) h = rw h.0.no_dot_dot h.1

clean_step-IsComponent :
    (st : List Bytes) (p : Bytes)
    → NoSlash p
    → All IsComponent st
    → All IsComponent (clean_step true st p)
unfolding clean_step
clean_step-IsComponent st p flat h = elim (Bool-cases (is_empty p)) [
  | inl none_there ↦ rw none_there h
  | inr there ↦ elim (Bool-cases (same p dot)) [
    | inl here ↦ rw (there, here) h
    | inr no_dot ↦ elim (Bool-cases (same p dot_dot)) [
      | inl parent ↦ rw (there, no_dot, parent) (up-IsComponent st h)
      | inr ordinary ↦
          rw (there, no_dot, ordinary)
            (record { there = there; no_dot = no_dot; no_dot_dot = ordinary; no_slash = flat }, h)
    ]
  ]
]

stack-IsComponent :
    (st ps : List Bytes) → All NoSlash ps → All IsComponent st → All IsComponent (stack st ps)
unfolding stack
stack-IsComponent st [] flat h = h
stack-IsComponent st (p ∷ ps) flat h =
    stack-IsComponent (clean_step true st p) ps flat.1 (clean_step-IsComponent st p flat.0 h)

clean_step_component : (st : List Bytes) (p : Bytes) → IsComponent p → clean_step true st p ≡ p ∷ st
unfolding clean_step
clean_step_component st p h = rw (h.there, h.no_dot, h.no_dot_dot)

resolve_lem :
    (b n : Bytes) → resolve b n ≡ join_slash (reverse (stack [] (split_slash b ++ split_slash n)))
unfolding resolve path_join clean_path split_slash clean clean_step
resolve_lem b n =
    ap join_slash (
      ap (clean true []) (split_slash-append b n) ∙ clean-stack [] (split_slash b ++ split_slash n))

stack_components : (st ps : List Bytes) → All IsComponent ps → stack st ps ≡ reverse_aux ps st
unfolding stack
stack_components st [] h = refl
stack_components st (p ∷ ps) h =
    ap (λ x. stack x ps) (clean_step_component st p h.0) ∙ stack_components (p ∷ st) ps h.1

All-flat : (ps : List Bytes) → All IsComponent ps → All NoSlash ps
All-flat [] h = tt
All-flat (p ∷ ps) h = (h.0.no_slash, All-flat ps h.1)

pub split_slash-join_slash :
    (p : Bytes) (ps : List Bytes)
    → All IsComponent (p ∷ ps)
    → split_slash (join_slash (p ∷ ps)) ≡ p ∷ ps
split_slash-join_slash p ps h = split_slash-join_rest p ps h.0.no_slash (All-flat ps h.1)

stack-join_slash :
    (ps : List Bytes) → All IsComponent ps → stack [] (split_slash (join_slash ps)) ≡ reverse ps
unfolding stack split_slash clean_step
stack-join_slash [] h = refl
stack-join_slash (p ∷ ps) h =
    ap (stack []) (split_slash-join_slash p ps h) ∙ stack_components [] (p ∷ ps) h

All-reverse_aux :
    (ps qs : List Bytes)
    → All IsComponent ps
    → All IsComponent qs
    → All IsComponent (reverse_aux ps qs)
All-reverse_aux [] qs h k = k
All-reverse_aux (p ∷ ps) qs h k = All-reverse_aux ps (p ∷ qs) h.1 (h.0, k)

module _ (b d : Bytes) where
  -- The components of the resolved path, last first.
  resolved : List Bytes
  resolved = stack [] (split_slash b ++ split_slash d)

  resolved-IsComponent : All IsComponent resolved
  unfolding resolved
  resolved-IsComponent =
      stack-IsComponent [] (split_slash b ++ split_slash d)
        (All-append NoSlash (split_slash b) (split_slash d) (split_slash-NoSlash b)
          (split_slash-NoSlash d))
        tt

  -- For every base and name, the resolved path is the join of components that are not empty, hold
  -- no slash, and are neither "." nor "..".
  pub resolve-components : (cs : List Bytes) × (resolve b d ≡ join_slash cs) × All IsComponent cs
  unfolding resolved
  resolve-components =
      (reverse resolved, resolve_lem b d, All-reverse_aux resolved [] resolved-IsComponent tt)

  stack-resolve : stack [] (split_slash (resolve b d)) ≡ resolved
  unfolding resolved
  stack-resolve =
      ap (λ p. stack [] (split_slash p)) (resolve_lem b d)
      ∙ stack-join_slash (reverse resolved) (All-reverse_aux resolved [] resolved-IsComponent tt)
      ∙ reverse-reverse resolved

  -- Resolving a name in the file system that `Chroot` of a directory returns is resolving
  -- directory, slash and name in the one it is called on, for every base, directory and name.
  pub resolve-resolve : (n : Bytes) → resolve (resolve b d) n ≡ resolve b (d ++ slash ∷ n)
  unfolding resolved
  resolve-resolve n =
      resolve_lem (resolve b d) n
      ∙ ap (λ s. join_slash (reverse s))
          (stack-append [] (split_slash (resolve b d)) (split_slash n)
            ∙ ap (λ s. stack s (split_slash n)) stack-resolve
            ∙ sym (stack-append [] (split_slash b ++ split_slash d) (split_slash n))
            ∙ ap (stack []) (
                append_assoc (split_slash b) (split_slash d) (split_slash n)
                ∙ ap (λ q. split_slash b ++ q) (sym (split_slash-append d n))))
      ∙ sym (resolve_lem b (d ++ slash ∷ n))

abbrev pub NoParent : List Bytes → Type 0
NoParent = All (λ p. same p dot_dot ≡ false)

clean_step-grows :
    (st : List Bytes) (p : Bytes)
    → same p dot_dot ≡ false
    → (more : List Bytes) × (clean_step true st p ≡ more ++ st)
unfolding clean_step
clean_step-grows st p h = elim (Bool-cases (is_empty p || same p dot)) [
  | inl none_there ↦ ([], rw none_there)
  | inr there ↦ (p ∷ [], rw (there, h))
]

stack-grows : (st ps : List Bytes) → NoParent ps → (more : List Bytes) × (stack st ps ≡ more ++ st)
unfolding stack
stack-grows st [] h = ([], refl)
stack-grows st (p ∷ ps) h =
    let (one, e) = clean_step-grows st p h.0 in
    let (more, e') = stack-grows (clean_step true st p) ps h.1 in
    (more ++ one, e' ∙ ap (λ s. more ++ s) e ∙ sym (append_assoc more one st))

-- A name without a ".." among its components resolves to a path below the base: its components are
-- those of the base, and then others.
pub resolve-below :
    (b n : Bytes)
    → NoParent (split_slash n)
    → (cs rest : List Bytes) × (resolve b [] ≡ join_slash cs)
      × (resolve b n ≡ join_slash (cs ++ rest))
unfolding split_slash stack clean_step
resolve-below b n h =
    let s = stack [] (split_slash b) in
    let (more, e) = stack-grows s (split_slash n) h in
    (
      reverse s,
      reverse more,
      resolve_lem b []
          ∙ ap (λ x. join_slash (reverse x)) (stack-append [] (split_slash b) ([] ∷ [])),
      resolve_lem b n
          ∙ ap (λ x. join_slash (reverse x)) (stack-append [] (split_slash b) (split_slash n) ∙ e)
          ∙ ap join_slash (reverse-append more s),
    )

-- Under a base of one component, a name that starts with "../" resolves as the rest of it does at
-- the root of the volume.
pub resolve_escapes :
    (c n : Bytes) → IsComponent c → resolve c (dot_dot ++ slash ∷ n) ≡ resolve [] n
unfolding stack clean_step split_slash same
resolve_escapes c n h =
    resolve_lem c (dot_dot ++ slash ∷ n)
    ∙ ap (λ x. join_slash (reverse x))
        (ap (λ x. stack [] (x ++ split_slash (dot_dot ++ slash ∷ n)))
            (split_slash_component c h.no_slash)
          ∙ ap (λ x. stack x (split_slash (dot_dot ++ slash ∷ n))) (clean_step_component [] c h)
          ∙ ap (λ x. stack (if x then dot_dot ∷ c ∷ [] else []) (split_slash n)) h.no_dot_dot)
    ∙ sym (resolve_lem [] n)
