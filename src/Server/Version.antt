-- ===== src/Server/Version.antt =====
-- version.go: the version that is reported.
use xensus.Base.{
  ◌≡◌, refl, ◌⊎◌, inl, inr, Bool, true, false, not, ◌&&◌, ◌||◌, ◌==◌, Bool-cases, Option, none,
  some, List, [], ◌∷◌, Text, codes, text_eq, is_empty, if◌then◌else◌,
}

-- What version.go reads of runtime/debug's BuildInfo: the keys of the settings and the main version.
pub record BuildInfo : Type 0 where
  pub settings : List Text
  pub main_version : Text

abbrev pub version_placeholder : Text
version_placeholder = codes "(devel)"

-- `strings.HasPrefix`
unfoldable pub has_prefix : Text → Text → Bool
has_prefix s [] = true
has_prefix [] (p ∷ ps) = false
has_prefix (c ∷ s) (p ∷ ps) = c == p && has_prefix s ps

-- The loop over the settings.
unfoldable pub has_vcs : List Text → Bool
has_vcs [] = false
has_vcs (key ∷ keys) = has_prefix key (codes "vcs.") || has_vcs keys

-- `strings.TrimPrefix(v, "v")`
abbrev pub without_v : Text → Text
without_v [] = []
without_v (c ∷ v) = if c == b'v' then v else c ∷ v

abbrev pub from_build : Text → Option BuildInfo → Text
from_build stamped none = stamped
from_build stamped (some info) =
    if has_vcs info.settings
    then stamped
    else if is_empty info.main_version || text_eq info.main_version (codes "(devel)")
    then stamped
    else without_v info.main_version

-- `pickVersion`
unfoldable pub pick_version : Text → Option BuildInfo → Text
pick_version stamped info =
    if not (is_empty stamped) && not (text_eq stamped version_placeholder)
    then stamped
    else from_build stamped info

-- `resolveVersion`, for the stamp and what debug.ReadBuildInfo gives
abbrev pub resolve_version : Text → Option BuildInfo → Text
resolve_version version none = version
resolve_version version (some info) = pick_version version (some info)

-- A build that was fetched as a module by its version: no stamp, no checkout, and a version.
pub record IsInstalled (stamped : Text) (info : BuildInfo) : Type 0 where
  pub unstamped : (not (is_empty stamped) && not (text_eq stamped version_placeholder)) ≡ false
  pub no_checkout : has_vcs info.settings ≡ false
  pub named : (is_empty info.main_version || text_eq info.main_version version_placeholder) ≡ false

-- The version reported is the stamp; or there is no stamp but the empty one or the placeholder, no
-- setting of a checkout, and a module version other than the empty one and the placeholder, and that is
-- reported, without its leading v.
pub resolve_version-IsHonest :
    (stamped : Text) (info : BuildInfo)
    → ((resolve_version stamped (some info) ≡ stamped)
        ⊎ (IsInstalled stamped info
            × (resolve_version stamped (some info) ≡ without_v info.main_version)))
unfolding pick_version
resolve_version-IsHonest stamped info =
    elim (Bool-cases (not (is_empty stamped) && not (text_eq stamped version_placeholder))) [
      | inl release ↦ rw release (inl refl)
      | inr unstamped ↦ elim (Bool-cases (has_vcs info.settings)) [
        | inl checkout ↦ rw (unstamped, checkout) (inl refl)
        | inr fetched ↦
            elim (Bool-cases
              (is_empty info.main_version || text_eq info.main_version version_placeholder)) [
                | inl nameless ↦ rw (unstamped, fetched, nameless) (inl refl)
                | inr named ↦
                    let installed : IsInstalled stamped info = record {
                      unstamped = unstamped;
                      no_checkout = fetched;
                      named = named;
                    } in
                    inr (installed, rw (unstamped, fetched, named) refl)
              ]
      ]
    ]
