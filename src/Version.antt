-- ===== src/Version.antt =====
-- internal/version/version.go: what a build says of itself. The build information that the Go runtime has
-- embedded, if any, is an argument; Version and Commit are what the linker has set.
mod Tests
use pget.Base.{
  ℕ, zero, suc, ◌≤◌, ◌≡◌, ◌∙◌, refl, ap, Bool, true, false, not, ◌&&◌, List, [], ◌∷◌, ◌++◌, Option,
  none, some, arith, ◌==◌, ltb, leb, if◌then◌else◌, length, take, bytes, same_text, strip_prefix,
  has_prefix, behind_last, Option-cases,
}

pub record BuildInfo : Type 0 where
  pub settings : List (List ℕ × List ℕ)
  pub main_version : List ℕ

unfoldable pub vcs_revision : List (List ℕ × List ℕ) → Option (List ℕ)
unfolding same_text bytes
vcs_revision [] = none
vcs_revision ((key, value) ∷ settings) =
    let rest = vcs_revision settings in
    if same_text key (bytes "vcs.revision")
    then some (if ltb 7 (length value) then take 7 value else value)
    else rest

unfoldable pub short_hash : Option (List ℕ) → List ℕ
short_hash none = []
short_hash (some hash) = if leb 7 (length hash) then take 7 hash else []

unfoldable pub commit_from_pseudo_version : List ℕ → List ℕ
unfolding has_prefix behind_last short_hash bytes
commit_from_pseudo_version v =
    if has_prefix v (bytes "v0.0.0-") then short_hash (behind_last b'-' v) else []

unfoldable pub commit_of : List ℕ → BuildInfo → List ℕ
unfolding vcs_revision commit_from_pseudo_version same_text
commit_of commit info = elim (vcs_revision info.settings) [
  | some rev ↦ rev
  | none ↦
      let rev = commit_from_pseudo_version info.main_version in
      if same_text rev [] then commit else rev
]

unfoldable pub version_of : List ℕ → BuildInfo → List ℕ
unfolding same_text bytes
version_of version info =
    if not (same_text info.main_version []) && not (same_text info.main_version (bytes "(devel)"))
    then info.main_version
    else version

-- Version and Commit after `init`.
unfoldable pub init : List ℕ → List ℕ → Option BuildInfo → List ℕ × List ℕ
unfolding commit_of version_of same_text bytes
init version commit none = (version, commit)
init version commit (some info) =
    if same_text version (bytes "dev")
    then (version_of version info, commit_of commit info)
    else (version, commit)

unfoldable pub version_text : List ℕ → List ℕ → List ℕ
unfolding same_text has_prefix bytes
version_text version commit =
    if not (same_text version (bytes "dev")) && not (has_prefix version (bytes "v0.0.0-"))
    then if not (same_text commit (bytes "unknown"))
      then bytes "pget " ++ version ++ bytes " (" ++ commit ++ bytes ")"
      else bytes "pget " ++ version
    else if not (same_text commit (bytes "unknown"))
    then bytes "pget " ++ commit
    else bytes "pget dev (unknown)"

behind_last-append :
    (sep : ℕ) (before behind : List ℕ)
    → behind_last sep behind ≡ none
    → behind_last sep (before ++ sep ∷ behind) ≡ some behind
unfolding behind_last
behind_last-append sep [] behind e = rw e (ground arith)
behind_last-append sep (c ∷ before) behind e = rw (behind_last-append sep before behind e) refl

-- The pseudo-version of a module without tags, `v0.0.0-` and a time and a hash of at least seven
-- characters without a dash, gives the first seven characters of the hash, whatever the time.
pub commit_from_pseudo_version-hash :
    (time hash : List ℕ)
    → behind_last b'-' hash ≡ none
    → 7 ≤ length hash
    → commit_from_pseudo_version (bytes "v0.0.0-" ++ time ++ b'-' ∷ hash) ≡ take 7 hash
unfolding commit_from_pseudo_version bytes
commit_from_pseudo_version-hash time hash plain long =
    let found : behind_last b'-' (bytes "v0.0.0-" ++ time ++ b'-' ∷ hash) ≡ some hash =
      behind_last-append b'-' (bytes "v0.0.0-" ++ time) hash plain in
    let enough : leb 7 (length hash) ≡ true = ground arith in
    rw found (unfold short_hash in rw enough refl)
