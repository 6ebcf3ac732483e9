-- ===== src/Afp/Session/Laws.antt =====
-- What is negotiated, and where the password stands.
use goafp.Base.{
  ℕ, ◌+◌, ◌%◌, ◌≤◌, ◌≡◌, sym, ap, ◌⊎◌, inl, inr, true, false, List, [], ◌∷◌, ◌++◌, append_assoc,
  arith, ◌==◌, if◌then◌else◌, le→ltb, ==_iff, Bool-cases, length, All, length-append,
}
use goafp.Base.Bytes.{Bytes, be}
use goafp.Base.Outcome.{Error, unsupported, ok, err}
use goafp.Afp.Builder.{pascal, cut}
use goafp.Afp.Codes.{cmd_login}
use goafp.Afp.Session.{
  version_preference, offers, first_offered, pick_version, uam_no_auth, uam_cleartext, uam_dhx2,
  uam_srp, guest, cleartext, choose_method, is_empty, password_field, cleartext_authinfo,
  login_request,
}

-- `Login` chooses the cleartext method only for a user with a name, on a server that offers it and
-- offers neither DHX2 nor SRP.
pub choose_method_cleartext :
    (uams : List Bytes) (username : Bytes)
    → choose_method uams username ≡ ok cleartext
    → (is_empty username ≡ false)
      × (offers uams uam_cleartext ≡ true)
      × (offers uams uam_dhx2 ≡ false)
      × (offers uams uam_srp ≡ false)
unfolding choose_method
choose_method_cleartext uams username h = ground arith

-- A login without a name is a guest login or none at all.
pub choose_method_guest :
    (uams : List Bytes)
    → choose_method uams [] ≡ (if offers uams uam_no_auth then ok guest else err unsupported)
unfolding choose_method
choose_method_guest uams = ground arith

-- The version picked is offered, and the server offers none of those before it in the preference.
abbrev pub PickedFrom : List Bytes → List Bytes → Bytes → Type 0
PickedFrom [] offered v = ⊥
PickedFrom (x ∷ xs) offered v =
    ((v ≡ x) × (offers offered x ≡ true)) ⊎ ((offers offered x ≡ false) × PickedFrom xs offered v)

first_offered_lem :
    (prefs offered : List Bytes) {v : Bytes}
    → first_offered prefs offered ≡ ok v
    → PickedFrom prefs offered v
unfolding first_offered
first_offered_lem [] offered h = cc
first_offered_lem (x ∷ xs) offered h = elim (Bool-cases (offers offered x)) [
  | inl yes' ↦ inl (ground arith, yes')
  | inr no' ↦ inr (no', first_offered_lem xs offered (rw no' at h))
]

-- A version that `pickVersion` returns is offered and is in the preference list, and the server
-- offers none of those that stand before it there.
pub pick_version_best :
    (offered : List Bytes) {v : Bytes}
    → pick_version offered ≡ ok v
    → PickedFrom version_preference offered v
unfolding pick_version
pick_version_best offered h = first_offered_lem version_preference offered h

first_offered_none :
    (prefs offered : List Bytes) {e : Error}
    → first_offered prefs offered ≡ err e
    → All (λ v. offers offered v ≡ false) prefs
unfolding first_offered
first_offered_none [] offered h = tt
first_offered_none (x ∷ xs) offered h = elim (Bool-cases (offers offered x)) [
  | inl yes' ↦ ground arith
  | inr no' ↦ (no', first_offered_none xs offered (rw no' at h))
]

length-pascal : (s w : Bytes) → length (pascal s w) ≡ length w + 1 + length (cut s)
unfolding pascal
length-pascal s w = omega (
  arith,
  length-append (w ++ be 1 (length (cut s))) (cut s),
  length-append w (be 1 (length (cut s))),
)

padded_even :
    (prefix : ℕ) (name : Bytes)
    → (prefix + length (if (prefix + length name) % 2 == 1 then name ++ 0 ∷ [] else name)) % 2 ≡ 0
padded_even prefix name = elim (Bool-cases ((prefix + length name) % 2 == 1)) [
  | inl odd ↦
      rw (odd, length-append name (0 ∷ []))
        (let e = (==_iff ((prefix + length name) % 2) 1).0 odd in omega arith)
  | inr even ↦ rw even (ground arith)
]

cut_whole : (s : Bytes) → length s ≤ 255 → cut s ≡ s
cut_whole s h = rw (le→ltb 255 (length s) h)

-- In the FPLogin block of a cleartext login, for a version string of at most 255 bytes and every
-- user name and password, the eight bytes of the password field stand at the end and begin at an
-- even offset.
pub cleartext_password_even :
    (version username password : Bytes)
    → length version ≤ 255
    → (pre : Bytes) × (login_request version uam_cleartext
          (cleartext_authinfo version username password)
        ≡ pre ++ password_field password)
      × (length pre % 2 ≡ 0)
unfolding cleartext_authinfo
cleartext_password_even version username password h =
    let header = pascal uam_cleartext (pascal version (be 1 cmd_login)) in
    let name = pascal username [] in
    let prefix = 1 + (1 + length version) + (1 + length uam_cleartext) in
    let padded = if (prefix + length name) % 2 == 1 then name ++ 0 ∷ [] else name in
    let size : length header ≡ prefix = omega (
      arith,
      length-pascal uam_cleartext (pascal version (be 1 cmd_login)),
      length-pascal version (be 1 cmd_login),
      ap length (cut_whole version h),
    ) in
    (
      header ++ padded,
      sym (append_assoc header padded (password_field password)),
      rw (length-append header padded, size) (padded_even prefix name),
    )
