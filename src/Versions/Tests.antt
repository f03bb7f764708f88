-- ===== src/Versions/Tests.antt =====
-- Versions that are compared, and the theorem at three of them.
use Prim.Native.Nat.{lt, eq, gt}
use facenox.Base.{◌≡◌, refl, Bool, true, false, List, [], ◌∷◌, Option, none, some, String}
use text.Mathlib.Text.{◌==◌}
use facenox.Base.Text.{Text, codes}
use facenox.Versions.{compare_versions, get_version_parts, parse_number}
use facenox.Versions.Laws.{flip, Chained, compare_versions-Chained}
use facenox.Versions.Checks.{
  GitHubRelease, UpdateState, Check, fetched, unavailable, check_for_updates, after_checks,
  get_download_url,
}
use facenox.Versions.Checks.Told.{Told, check_for_updates-Told}

numbers_as_numbers : compare_versions (codes "v1.10.0") (codes "1.9.9") ≡ gt
unfolding compare_versions get_version_parts parse_number
numbers_as_numbers = refl

missing_as_zero : compare_versions (codes "1.2") (codes "1.2.0") ≡ eq
unfolding compare_versions get_version_parts parse_number
missing_as_zero = refl

release_last : compare_versions (codes "1.0.0-rc.1") (codes "1.0.0") ≡ lt
unfolding compare_versions get_version_parts parse_number
release_last = refl

abbrev beta_2 : Text
beta_2 = codes "1.0.0-beta.2"

abbrev beta_10 : Text
beta_10 = codes "1.0.0-beta.10"

abbrev rc_1 : Text
rc_1 = codes "1.0.0-rc.1"

in_order : compare_versions beta_2 beta_10 ≡ lt
unfolding compare_versions get_version_parts parse_number
in_order = refl

compare_versions-Chained_example :
    (compare_versions beta_10 beta_2 ≡ flip (compare_versions beta_2 beta_10))
    × Chained
        (compare_versions beta_2 beta_10)
        (compare_versions beta_10 rc_1)
        (compare_versions beta_2 rc_1)
compare_versions-Chained_example = compare_versions-Chained beta_2 beta_10 rc_1

abbrev windows : List (String → Bool)
windows = (λ name. name == "setup.exe") ∷ (λ name. name == "setup.msi") ∷ []

abbrev release : GitHubRelease
release = record {
  tag_name = beta_10;
  body = none;
  html_url = "page";
  published_at = "today";
  assets =
      record { name = "setup.msi"; browser_download_url = "msi" }
      ∷ record { name = "setup.exe"; browser_download_url = "exe" }
      ∷ [];
}

abbrev first_check : Check
first_check = record { force = false; now = 90000000; is_online = true; result = fetched release }

abbrev unchecked : UpdateState
unchecked = record { last_check_time = 0; cached_update_info = none }

-- The last check first: offline, and before it one that is answered with the release.
abbrev before : List Check
before = record first_check { now = 90000001; is_online = false } ∷ first_check ∷ []

abbrev told : Check → Bool × Option String
told check =
    let (info, s) =
      check_for_updates some windows beta_2 check
        (after_checks some windows beta_2 before unchecked) in
    (info.has_update, info.download_url)

from_the_cache :
    told (record first_check { now = 90000002; is_online = false }) ≡ (true, some "exe")
unfolding after_checks check_for_updates get_download_url compare_versions get_version_parts
    parse_number
from_the_cache = refl

fails :
    told (record first_check { force = true; result = unavailable (some "timed out") })
    ≡ (false, none)
unfolding after_checks check_for_updates get_download_url compare_versions get_version_parts
    parse_number
fails = refl

check_for_updates-Told_example :
    Told some windows beta_2 before
      (record first_check { now = 90000002 })
      (check_for_updates some windows beta_2
        (record first_check { now = 90000002 })
        (after_checks some windows beta_2 before unchecked)).0
check_for_updates-Told_example =
    check_for_updates-Told some windows beta_2 before (record first_check { now = 90000002 })
      unchecked refl
