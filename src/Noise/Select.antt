-- ===== src/Noise/Select.antt =====
-- `select_noise_options` of src/noise.rs. Names are texts.
use text.Mathlib.Text.{◌==◌ as str_eq}
use Prim.Native.String.{String}
use thalovant_rust_sdk.Prelude.{
  Bool, true, false, ◌&&◌, ◌||◌, Option, none, some, List, [], ◌∷◌, if◌then◌else◌, ◌≡◌, ◌↔◌, ◌⊎◌,
  arith, not,
}

abbrev pub noise_pattern_kk : String
noise_pattern_kk = "KKpsk0"

abbrev pub noise_pattern_xx : String
noise_pattern_xx = "XXpsk2"

abbrev pub suite_chacha : String
suite_chacha = "25519_ChaChaPoly_SHA256"

abbrev pub suite_aes : String
suite_aes = "25519_AESGCM_SHA256"

-- In the client's order of preference.
abbrev pub noise_suites : List String
noise_suites = suite_chacha ∷ suite_aes ∷ []

-- `offered.iter().any(|o| o == name)`.
unfoldable pub offers : List String → String → Bool
offers [] name = false
offers (o ∷ os) name = str_eq o name || offers os name

-- `NOISE_SUITES.iter().find(|candidate| hub_suites.iter().any(..))`.
unfoldable pub find_suite : List String → List String → Option String
find_suite [] hub_suites = none
find_suite (s ∷ suites) hub_suites =
    if offers hub_suites s then some s else find_suite suites hub_suites

-- `pinned_remote_key.is_some_and(|key| !key.is_empty())`.
abbrev pub has_key : Option String → Bool
has_key none = false
has_key (some key) = not (str_eq key "")

unfoldable pub pick_pattern : List String → Option String → String → Option (String × String)
pick_pattern hub_patterns pinned suite =
    if has_key pinned && offers hub_patterns noise_pattern_kk
    then some (noise_pattern_kk, suite)
    else if offers hub_patterns noise_pattern_xx
    then some (noise_pattern_xx, suite)
    else none

unfoldable pub select_noise_options :
    List String → List String → Option String → Option (String × String)
unfolding find_suite pick_pattern
select_noise_options hub_patterns hub_suites pinned = elim (find_suite noise_suites hub_suites) [
  | none ↦ none
  | some suite ↦ pick_pattern hub_patterns pinned suite
]

-- What a selection must be: both names are offered, the suite is ChaChaPoly unless only AES is
-- offered, and the pattern is KK exactly for a hub that is pinned and offers it.
pub record IsChoice (hub_patterns hub_suites : List String) (pinned : Option String)
    (pattern_name suite : String) : Type 0 where
  pub pattern_offered : offers hub_patterns pattern_name ≡ true
  pub suite_offered : offers hub_suites suite ≡ true
  pub suite_preferred :
      (suite ≡ suite_chacha) ⊎ ((suite ≡ suite_aes) × (offers hub_suites suite_chacha ≡ false))
  pub pattern_chosen :
      ((pattern_name ≡ noise_pattern_kk) × (has_key pinned ≡ true))
      ⊎ ((pattern_name ≡ noise_pattern_xx)
          × ((has_key pinned && offers hub_patterns noise_pattern_kk) ≡ false))

-- The selection is `some (pattern, suite)` exactly when that is the choice.
pub select_iff :
    (hub_patterns hub_suites : List String) (pinned : Option String) (pattern_name suite : String)
    → (select_noise_options hub_patterns hub_suites pinned ≡ some (pattern_name, suite))
      ↔ IsChoice hub_patterns hub_suites pinned pattern_name suite
unfolding select_noise_options
select_iff hub_patterns hub_suites pinned pattern_name suite =
    (λ e. ground arith, λ h. ground arith)

-- There is no selection exactly when the hub shares no suite with the client, or offers neither XX
-- nor, for a pinned hub, KK.
pub select_none_iff :
    (hub_patterns hub_suites : List String) (pinned : Option String)
    → (select_noise_options hub_patterns hub_suites pinned ≡ none) ↔ (
        ((offers hub_suites suite_chacha ≡ false) × (offers hub_suites suite_aes ≡ false))
        ⊎ ((offers hub_patterns noise_pattern_xx ≡ false)
            × ((has_key pinned && offers hub_patterns noise_pattern_kk) ≡ false)))
unfolding select_noise_options
select_none_iff hub_patterns hub_suites pinned = (λ e. ground arith, λ h. ground arith)
