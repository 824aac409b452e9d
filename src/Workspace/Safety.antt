-- ===== src/Workspace/Safety.antt =====
-- src/runtime/workspace.cpp: no path of an accepted manifest leaves the workspace.
use laso.Base.{
  ℕ, zero, suc, ◌≤◌, ◌≡◌, refl, subst, inl, inr, Bool, true, false, not, ◌&&◌, ◌||◌, Option, none,
  some, List, [], ◌∷◌, arith, ltb, ◌==◌, any, length, if◌then◌else◌, In, In-nil, In-cons,
}
use laso.Core.Errors.{ErrorCode, ok, bind-eq-ok, guard-eq-ok}
use laso.Pipeline.Reference.{Bytes}
use laso.Scheduler.Cron.{split}
use laso.Security.{bytes_eq}
use laso.Security.Gateway.{bytes_eq_iff}
use laso.Workspace.{
  WorkspaceManifestLimits, Entry, Manifest, safe_relative_path, valid_digest, is_dots, first_is,
  good_names, or_empty, check_inline, check_object, check_entries, check_manifest_size,
  validate_workspace_manifest,
}
use laso.Workspace.Sizes.{files_of}

-- Where a walk over the parts of a path stands, as a depth below its start; `none` is above it.
abbrev pub walk : ℕ → List Bytes → Option ℕ
walk depth [] = some depth
walk depth ([] ∷ ps) = walk depth ps
walk depth (p ∷ ps) =
    let up : Option ℕ = elim depth [ zero ↦ none | suc d ↦ walk d ps ] in
    let down = walk (suc depth) ps in
    let stay = walk depth ps in
    if bytes_eq p (46 ∷ 46 ∷ []) then up else if bytes_eq p (46 ∷ []) then stay else down

-- A path without dots only goes down.
walk_down :
    (depth : ℕ) (parts : List Bytes)
    → any is_dots parts ≡ false
    → (d : ℕ) × (walk depth parts ≡ some d) × (depth ≤ d)
walk_down depth [] h = (depth, refl, omega arith)
walk_down depth ([] ∷ ps) h = walk_down depth ps (ground (arith, h))
walk_down depth ((c ∷ cs) ∷ ps) h =
    let (dots, rest) = split_or (is_dots (c ∷ cs)) (any is_dots ps) h in
    let (up, dot) =
      split_or (bytes_eq (c ∷ cs) (46 ∷ 46 ∷ [])) (bytes_eq (c ∷ cs) (46 ∷ [])) dots in
    let (d, e, le) = walk_down (suc depth) ps rest in (d, rw (up, dot) e, omega (arith, le))
  where
    split_or : (a b : Bool) → (a || b) ≡ false → (a ≡ false) × (b ≡ false)
    split_or true b h = cc h
    split_or false b h = (refl, h)

-- A relative path that stays at or below the directory it starts from, at each of its parts.
pub record StaysInside (path : Bytes) : Type 0 where
  pub relative : first_is 47 path ≡ false
  pub depth : ℕ
  pub inside : walk 0 (split path 47) ≡ some depth

safe_relative_path-StaysInside : (path : Bytes) → safe_relative_path path ≡ true → StaysInside path
unfolding safe_relative_path
safe_relative_path-StaysInside path h =
    let (rel, dots) = parts in
    let (d, e, _) = walk_down 0 (split path 47) dots in
    record { relative = rel; depth = d; inside = e }
  where
    parts : (first_is 47 path ≡ false) × (any is_dots (split path 47) ≡ false)
    parts = ground (arith, h)

module _ (sha256_bytes : Bytes → Bytes) (limits : WorkspaceManifestLimits) where
  -- An entry has a path that stays inside, and none of the paths that came before it.
  abbrev pub IsNew : List Bytes → Entry → Type 0
  IsNew before e = (path : Bytes) × (e.path ≡ some path) × StaysInside path × (In path before → ⊥)

  -- Each entry is new after the paths before it and those of the entries before it.
  abbrev pub AllNew : List Bytes → List Entry → Type 0
  AllNew before [] = Unit
  AllNew before (e ∷ es) = IsNew before e × AllNew (or_empty sha256_bytes limits e.path ∷ before) es

  not_among :
      (path : Bytes) (before : List Bytes)
      → any (λ p. bytes_eq p path) before ≡ false
      → In path before
      → ⊥
  not_among path [] h i = In-nil i
  not_among path (p ∷ ps) h i = elim (In-cons i) [
    | inl e ↦ ground (arith, h, bytes_eq_iff p path, e)
    | inr j ↦ not_among path ps (ground (arith, h)) j
  ]

  new_entry :
      (before : List Bytes) (is_object : Bool) (path digest : Option Bytes)
      → good_names sha256_bytes limits is_object path digest ≡ true
      → any (λ p. bytes_eq p (or_empty sha256_bytes limits path)) before ≡ false
      → (p : Bytes) × (path ≡ some p) × StaysInside p × (In p before → ⊥)
  new_entry before is_object none digest h fresh = cc h
  new_entry before is_object (some p) none h fresh = cc h
  new_entry before is_object (some p) (some d) h fresh = (
    p,
    refl,
    safe_relative_path-StaysInside p (middle is_object (safe_relative_path p) (valid_digest d) h),
    not_among p before fresh,
  )
    where
      middle : (a b c : Bool) → (a && b && c) ≡ true → b ≡ true
      middle a b c h = ground arith

  check_entries-new :
      (version : ℕ) (before : List Bytes) (total : ℕ) (es : List Entry) (final : ℕ)
      → check_entries sha256_bytes limits version before total es ≡ ok final
      → AllNew before es
  unfolding check_entries
  check_entries-new version before total [] final h = tt
  check_entries-new version before total (e ∷ es) final h =
      let (good, h1) =
        guard-eq-ok (not (good_names sha256_bytes limits e.is_object e.path e.sha256))
          ErrorCode.validation _ _ h in
      let (fresh, h2) =
        guard-eq-ok (any (λ p. bytes_eq p (or_empty sha256_bytes limits e.path)) before)
          ErrorCode.conflict _ _ h1 in
      let (total', _, rest) =
        bind-eq-ok
          (if version == 1
            then check_inline sha256_bytes limits total (or_empty sha256_bytes limits e.sha256)
                e.inline_data
            else check_object sha256_bytes limits total e.object_id e.size)
          _ h2 in
      (
        new_entry before e.is_object e.path e.sha256
            (positive (good_names sha256_bytes limits e.is_object e.path e.sha256) good) fresh,
        check_entries-new version (or_empty sha256_bytes limits e.path ∷ before) total' es final
            rest,
      )
    where
      positive : (b : Bool) → not b ≡ false → b ≡ true
      positive b h = ground arith

  -- In an accepted manifest every entry has a path, each path is relative and a walk along its parts
  -- never leaves the directory that it starts from, and no two entries have the same path.
  pub accepted_paths_stay :
      (m : Manifest) (files : List Entry)
      → m.files ≡ some files
      → validate_workspace_manifest sha256_bytes limits m ≡ ok tt
      → AllNew [] files
  unfolding validate_workspace_manifest
  accepted_paths_stay m files listed h =
      let (files', read, h1) = bind-eq-ok (check_manifest_size sha256_bytes limits m) _ h in
      let same = files_of sha256_bytes limits m files files' listed read in
      let (_, h2) =
        guard-eq-ok (ltb limits.max_files (length files')) ErrorCode.validation _ _ h1 in
      let (final, checked, _) =
        bind-eq-ok (check_entries sha256_bytes limits m.version [] 0 files') _ h2 in
      subst (AllNew []) same (check_entries-new m.version [] 0 files' final checked)
