-- ===== src/Versions/Checks/Told.antt =====
-- What a check tells of the release that it, or an earlier check, has found.
use Prim.Native.Nat.{Ordering, lt, eq, gt}
use facenox.Base.{
  ℕ, ◌-◌, ◌<◌, ◌≡◌, ◌↔◌, refl, Bool, true, false, not, ◌&&◌, List, [], ◌∷◌, Option, none, some,
  String, ltb, if_elim, ◌⊎◌, inl, inr, and_split, Elem, ltb→lt,
}
use facenox.Base.Text.{Text}
use facenox.Versions.{compare_versions}
use facenox.Versions.Checks.{
  GitHubRelease, UpdateInfo, UpdateState, ReleaseFetchResult, fetched, unavailable, Check, is_fresh,
  check_interval, is_newer, info_of, fetched_info, check_now, check_with, check_for_updates,
  after_checks,
}

from_not : (b : Bool) → not b ≡ true → b ≡ false
from_not true h = cc
from_not false h = refl

in_time :
    (now last earlier : ℕ)
    → last ≡ earlier
    → ltb (now - last) check_interval ≡ true
    → now - earlier < check_interval
in_time now last earlier e h = rw (← e) (ltb→lt (now - last) check_interval h)

module _ (extract : Text → Option Text) (patterns : List (String → Bool)) (current : Text) where
  -- What is told of a release with the version `latest`: this version, and an update exactly if the
  -- comparison finds it newer than the one that runs. Without a version no update is told.
  abbrev pub TellsOf : Option Text → UpdateInfo → Type 0
  TellsOf none info = info.has_update ≡ false
  TellsOf (some latest) info =
      (info.latest_version ≡ latest)
      × ((info.has_update ≡ true) ↔ (compare_versions latest current ≡ gt))
      × (info.error ≡ none)

  abbrev pub Tells : ReleaseFetchResult → UpdateInfo → Type 0
  Tells (unavailable error) info = (info.has_update ≡ false) × (info.error ≡ error)
  Tells (fetched release) info = TellsOf (extract release.tag_name) info

  -- A check that is made anew tells what it has found; without a network it tells of no update. One
  -- that is not forced may tell what an earlier check of the last day has found.
  abbrev pub Told : List Check → Check → UpdateInfo → Type 0
  Told before check info =
      ((check.is_online ≡ true) × Tells check.result info)
      ⊎ ((check.is_online ≡ false) × (info.has_update ≡ false) × (info.is_offline ≡ true))
      ⊎ ((check.force ≡ false)
          × (earlier : Check) × Elem earlier before
          × (earlier.is_online ≡ true)
          × (check.now - earlier.now < check_interval)
          × Tells earlier.result info)

  is_newer_iff : (o : Ordering) → (is_newer o ≡ true) ↔ (o ≡ gt)
  is_newer_iff gt = (λ h. refl, λ h. refl)
  is_newer_iff lt = (λ h. absurd cc, λ h. absurd cc)
  is_newer_iff eq = (λ h. absurd cc, λ h. absurd cc)

  info_of-TellsOf :
      (release : GitHubRelease) (latest : Option Text)
      → TellsOf latest (info_of extract patterns current release latest)
  info_of-TellsOf release none = refl
  info_of-TellsOf release (some latest) =
      (refl, is_newer_iff (compare_versions latest current), refl)

  fetched_info-Tells :
      (result : ReleaseFetchResult) → Tells result (fetched_info extract patterns current result)
  fetched_info-Tells (unavailable error) = (refl, refl)
  fetched_info-Tells (fetched release) = info_of-TellsOf release (extract release.tag_name)

  -- The cache holds what an earlier check has found, with its time.
  abbrev Cached : List Check → UpdateState → Option UpdateInfo → Type 0
  Cached before s none = Unit
  Cached before s (some info) =
      (earlier : Check) × Elem earlier before
      × (earlier.is_online ≡ true)
      × (s.last_check_time ≡ earlier.now)
      × Tells earlier.result info

  abbrev Kept : List Check → UpdateState → Type 0
  Kept before s = Cached before s s.cached_update_info

  older-Cached :
      (before : List Check) (check : Check) (s : UpdateState) (cached : Option UpdateInfo)
      → Cached before s cached
      → Cached (check ∷ before) s cached
  older-Cached before check s none h = tt
  older-Cached before check s (some info) (earlier, there, online, at, tells) =
      (earlier, inr there, online, at, tells)

  abbrev Done : List Check → Check → UpdateInfo × UpdateState → Type 0
  Done before check (info, s) = Told before check info × Kept (check ∷ before) s

  check_now-Done :
      (before : List Check) (check : Check) (s : UpdateState)
      → Kept before s
      → Done before check (check_now extract patterns current check s)
  check_now-Done before check s kept =
      let found = fetched_info-Tells check.result in
      if_elim (Done before check) check.is_online
        (λ online. (inl (online, found), (check, inl refl, online, refl, found)))
        (λ offline.
          (inr (inl (offline, refl, refl)), older-Cached before check s s.cached_update_info kept))

  check_with-Done :
      (before : List Check) (check : Check) (s : UpdateState) (cached : Option UpdateInfo)
      → s.cached_update_info ≡ cached
      → Kept before s
      → Cached before s cached
      → Done before check (check_with extract patterns current cached check s)
  check_with-Done before check s none e kept h = check_now-Done before check s kept
  check_with-Done before check s (some info) e kept h =
      if_elim (Done before check) (not check.force && is_fresh check.now s)
        (λ used.
          let (earlier, there, online, at, tells) = h in
          let (unforced, fresh) = and_split (not check.force) (is_fresh check.now s) used in
          (
            inr (
                inr (
                  from_not check.force unforced,
                  earlier,
                  there,
                  online,
                  in_time check.now s.last_check_time earlier.now at fresh,
                  tells,
                )),
            older-Cached before check s s.cached_update_info kept,
          ))
        (λ _. check_now-Done before check s kept)

  after_checks-Kept :
      (before : List Check) (s : UpdateState)
      → s.cached_update_info ≡ none
      → Kept before (after_checks extract patterns current before s)
  unfolding after_checks check_for_updates
  after_checks-Kept [] s empty = rw empty tt
  after_checks-Kept (check ∷ before) s empty =
      let t = after_checks extract patterns current before s in
      let kept = after_checks-Kept before s empty in
      (check_with-Done before check t t.cached_update_info refl kept kept).1

  -- After any checks from an empty cache, a check that is made anew tells what it has found, where
  -- without a network it tells of no update, and one that is not forced may tell what an earlier
  -- check has found less than a day ago. To tell of a release is to give the version in its tag, and
  -- an update exactly if the comparison finds this version newer than the one that runs; of a tag
  -- without a version, and of a failed request, no update is told.
  pub check_for_updates-Told :
      (before : List Check) (check : Check) (s : UpdateState)
      → s.cached_update_info ≡ none
      → Told before check
          (check_for_updates extract patterns current check
            (after_checks extract patterns current before s)).0
  unfolding check_for_updates
  check_for_updates-Told before check s empty =
      let t = after_checks extract patterns current before s in
      let kept = after_checks-Kept before s empty in
      (check_with-Done before check t t.cached_update_info refl kept kept).0
