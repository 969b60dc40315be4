-- ===== src/Version/Tests.antt =====
-- The version texts of some builds.
use pget.Base.{ℕ, ◌≡◌, refl, List, [], ◌∷◌, ◌++◌, none, some, arith, take, bytes, behind_last}
use pget.Version.{
  BuildInfo, init, version_text, commit_from_pseudo_version, commit_from_pseudo_version-hash,
}

abbrev hash : List ℕ
hash = bytes "abcdefabcdef"

abbrev installed : BuildInfo
installed = record { settings = []; main_version = bytes "v0.0.0-20260101000000-abcdefabcdef" }

installed_test :
    init (bytes "dev") (bytes "unknown") (some installed)
    ≡ (bytes "v0.0.0-20260101000000-abcdefabcdef", bytes "abcdefa")
unfolding init bytes
installed_test = refl

text_test :
    version_text (bytes "v0.0.0-20260101000000-abcdefabcdef") (bytes "abcdefa")
    ≡ bytes "pget abcdefa"
unfolding version_text bytes
text_test = refl

no_dash : behind_last b'-' hash ≡ none
unfolding behind_last bytes
no_dash = refl

commit_from_pseudo_version-hash_example :
    commit_from_pseudo_version (bytes "v0.0.0-" ++ bytes "20260101000000" ++ b'-' ∷ hash)
    ≡ take 7 hash
commit_from_pseudo_version-hash_example =
    commit_from_pseudo_version-hash (bytes "20260101000000") hash no_dash
      (unfold bytes in ground arith)
