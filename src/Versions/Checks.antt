-- ===== src/Versions/Checks.antt =====
-- app/src/electron/updater.ts: the check for updates with its cache, and from updaterUtils.ts the
-- choice of the file to download. The network, the version in the tag of a release and the patterns
-- of the platform's file names are parameters. A call during a check gets the result of that check.
pub mod Told
use Prim.Native.Nat.{Ordering, lt, eq, gt}
use facenox.Base.{
  ℕ, ◌-◌, ◌*◌, Bool, true, false, not, ◌&&◌, List, [], ◌∷◌, Option, none, some, String, ltb,
  if◌then◌else◌,
}
use facenox.Base.Text.{Text}
use facenox.Versions.{compare_versions}

pub record ReleaseAsset : Type 0 where
  pub name : String
  pub browser_download_url : String

pub record GitHubRelease : Type 0 where
  pub tag_name : Text
  pub body : Option String
  pub html_url : String
  pub published_at : String
  pub assets : List ReleaseAsset

pub record UpdateInfo : Type 0 where
  pub current_version : Text
  pub latest_version : Text
  pub has_update : Bool
  pub release_url : String
  pub release_notes : String
  pub published_at : String
  pub download_url : Option String
  pub error : Option String
  pub is_offline : Bool

pub record UpdateState : Type 0 where
  pub last_check_time : ℕ
  pub cached_update_info : Option UpdateInfo

-- What `fetchLatestRelease` brings: the release or an error.
pub data ReleaseFetchResult : Type 0 where
  fetched : GitHubRelease → ReleaseFetchResult
  unavailable : Option String → ReleaseFetchResult

abbrev pub check_interval : ℕ
check_interval = 24 * 60 * 60 * 1000

abbrev pub releases_page : String
releases_page = "https://facenox.com/download"

abbrev pub find_asset : (String → Bool) → List ReleaseAsset → Option ReleaseAsset
find_asset pattern [] = none
find_asset pattern (asset ∷ assets) =
    let rest = find_asset pattern assets in if pattern asset.name then some asset else rest

abbrev pub url_or : Option ReleaseAsset → Option String → Option String
url_or (some asset) other = some asset.browser_download_url
url_or none other = other

-- The first asset of the first pattern that has one.
unfoldable pub get_download_url : List (String → Bool) → List ReleaseAsset → Option String
get_download_url [] assets = none
get_download_url (pattern ∷ patterns) assets =
    url_or (find_asset pattern assets) (get_download_url patterns assets)

abbrev pub is_newer : Ordering → Bool
is_newer gt = true
is_newer _ = false

abbrev pub text_or_empty : Option String → String
text_or_empty none = ""
text_or_empty (some text) = text

abbrev pub is_fresh : ℕ → UpdateState → Bool
is_fresh now s = ltb (now - s.last_check_time) check_interval

pub record Check : Type 0 where
  pub force : Bool
  pub now : ℕ
  pub is_online : Bool
  pub result : ReleaseFetchResult

module _ (extract : Text → Option Text) (patterns : List (String → Bool)) (current : Text) where
  abbrev pub no_update : Option String → Bool → UpdateInfo
  no_update error offline = record {
    current_version = current;
    latest_version = current;
    has_update = false;
    release_url = releases_page;
    release_notes = "";
    published_at = "";
    download_url = none;
    error = error;
    is_offline = offline;
  }

  abbrev pub info_of : GitHubRelease → Option Text → UpdateInfo
  info_of release none = record {
    current_version = current;
    latest_version = current;
    has_update = false;
    release_url = release.html_url;
    release_notes = text_or_empty release.body;
    published_at = release.published_at;
    download_url = get_download_url patterns release.assets;
    error =
        some
          "Latest release tag did not contain a semantic version (expected something like v2.0.0)";
    is_offline = false;
  }
  info_of release (some latest) = record {
    current_version = current;
    latest_version = latest;
    has_update = is_newer (compare_versions latest current);
    release_url = release.html_url;
    release_notes = text_or_empty release.body;
    published_at = release.published_at;
    download_url = get_download_url patterns release.assets;
    error = none;
    is_offline = false;
  }

  abbrev pub fetched_info : ReleaseFetchResult → UpdateInfo
  fetched_info (unavailable error) = no_update error false
  fetched_info (fetched release) = info_of release (extract release.tag_name)

  abbrev pub store : ℕ → UpdateInfo → UpdateInfo × UpdateState
  store now info = (info, record { last_check_time = now; cached_update_info = some info })

  abbrev pub check_now : Check → UpdateState → UpdateInfo × UpdateState
  check_now check s =
      if check.is_online
      then store check.now (fetched_info check.result)
      else (no_update none true, s)

  abbrev pub check_with : Option UpdateInfo → Check → UpdateState → UpdateInfo × UpdateState
  check_with none check s = check_now check s
  check_with (some info) check s =
      if not check.force && is_fresh check.now s then (info, s) else check_now check s

  unfoldable pub check_for_updates : Check → UpdateState → UpdateInfo × UpdateState
  check_for_updates check s = check_with s.cached_update_info check s

  -- The state after a sequence of checks, the last one first.
  unfoldable pub after_checks : List Check → UpdateState → UpdateState
  unfolding check_for_updates
  after_checks [] s = s
  after_checks (check ∷ before) s = (check_for_updates check (after_checks before s)).1
