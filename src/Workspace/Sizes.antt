-- ===== src/Workspace/Sizes.antt =====
-- src/runtime/workspace.cpp: the limits that an accepted manifest keeps.
use laso.Base.{
  ℕ, ◌+◌, ◌-◌, ◌%◌, ◌^◌, ◌≤◌, ◌<◌, ◌≡◌, sym, ◌∙◌, subst, inl, inr, false, not, ◌&&◌, ◌||◌, Option,
  none, some, List, [], ◌∷◌, arith, ltb, ◌==◌, any, length, if◌then◌else◌, Bool-cases,
}
use laso.Core.Errors.{ErrorCode, Result, ok, err, bind-eq-ok, guard-eq-ok}
use laso.Pipeline.Reference.{Bytes}
use laso.Security.{bytes_eq}
use laso.Workspace.{
  WorkspaceManifestLimits, Entry, Manifest, size_sub, good_names, or_empty, check_bytes,
  check_inline, check_object, check_entries, check_manifest_size, validate_workspace_manifest,
}

-- The bytes of an entry.
abbrev pub read_size : Result Bytes → ℕ
read_size (ok bytes) = length bytes
read_size (err e) = 0

abbrev pub inline_size : Option (Result Bytes) → ℕ
inline_size none = 0
inline_size (some r) = read_size r

abbrev pub object_size : Option ℕ → ℕ
object_size none = 0
object_size (some n) = n

abbrev pub entry_size : ℕ → Entry → ℕ
entry_size version e = if version == 1 then inline_size e.inline_data else object_size e.size

abbrev pub total_size : ℕ → List Entry → ℕ
total_size version [] = 0
total_size version (e ∷ es) = entry_size version e + total_size version es

abbrev pub file_limit : ℕ → WorkspaceManifestLimits → ℕ
file_limit version l = if version == 1 then l.max_inline_file_bytes else l.max_file_bytes

abbrev pub total_limit : ℕ → WorkspaceManifestLimits → ℕ
total_limit version l = if version == 1 then l.max_inline_total_bytes else l.max_total_bytes

size_sub-le : (a b : ℕ) → b ≤ a → a < 2 ^ 64 → size_sub a b ≡ a - b
size_sub-le a b h w = omega arith

-- The bound that is tested keeps the sum below the limit.
room :
    (limit file total size : ℕ)
    → file ≤ limit
    → limit < 2 ^ 64
    → total ≤ limit
    → size ≤ file
    → ltb (size_sub limit size) total ≡ false
    → (total + size ≤ limit) × ((total + size) % 2 ^ 64 ≡ total + size)
room limit file total size f w t s h =
    let sub = size_sub-le limit size (omega (arith, s, f)) w in ground (arith, sub, h, f, t, s, w)

module _ (sha256_bytes : Bytes → Bytes) (limits : WorkspaceManifestLimits) where
  -- The result of an entry's test: the total has grown by its bytes and keeps the limit.
  abbrev Adds : ℕ → ℕ → ℕ → ℕ → Type 0
  Adds limit total size total' = (total' ≡ total + size) × (total' ≤ limit)

  module _ (inline_small : limits.max_inline_file_bytes ≤ limits.max_inline_total_bytes)
      (inline_word : limits.max_inline_total_bytes < 2 ^ 64) where
    check_bytes-Adds :
        (total total' : ℕ) (digest bytes : Bytes)
        → total ≤ limits.max_inline_total_bytes
        → check_bytes sha256_bytes limits total digest bytes ≡ ok total'
        → Adds limits.max_inline_total_bytes total (length bytes) total'
    check_bytes-Adds total total' digest bytes le h =
        let (good, done) =
          guard-eq-ok
            (ltb limits.max_inline_file_bytes (length bytes)
              || ltb (size_sub limits.max_inline_total_bytes (length bytes)) total
              || not (bytes_eq digest (sha256_bytes bytes)))
            ErrorCode.validation _ _ h in
        let (sum, exact) =
          room limits.max_inline_total_bytes limits.max_inline_file_bytes total (length bytes)
            inline_small inline_word le (ground (arith, good)) (ground (arith, good)) in
        let same : (total + length bytes) % 2 ^ 64 ≡ total' = cc done in
        (sym same ∙ exact, omega (arith, sum, exact, same))

    check_inline-Adds :
        (total total' : ℕ) (digest : Bytes) (read : Option (Result Bytes))
        → total ≤ limits.max_inline_total_bytes
        → check_inline sha256_bytes limits total digest read ≡ ok total'
        → Adds limits.max_inline_total_bytes total (inline_size read) total'
    check_inline-Adds total total' digest none le h = cc h
    check_inline-Adds total total' digest (some (err e)) le h = cc h
    check_inline-Adds total total' digest (some (ok bytes)) le h =
        check_bytes-Adds total total' digest bytes le h

  module _ (object_small : limits.max_file_bytes ≤ limits.max_total_bytes)
      (object_word : limits.max_total_bytes < 2 ^ 64) where
    check_object-Adds :
        (total total' : ℕ) (id : Option Bytes) (size : Option ℕ)
        → total ≤ limits.max_total_bytes
        → check_object sha256_bytes limits total id size ≡ ok total'
        → Adds limits.max_total_bytes total (object_size size) total'
    check_object-Adds total total' none none le h = cc h
    check_object-Adds total total' none (some size) le h = cc h
    check_object-Adds total total' (some id) none le h = cc h
    check_object-Adds total total' (some id) (some size) le h =
        let (good, done) =
          guard-eq-ok
            (ltb limits.max_file_bytes size || ltb (size_sub limits.max_total_bytes size) total)
            ErrorCode.validation _ _ h in
        let (sum, exact) =
          room limits.max_total_bytes limits.max_file_bytes total size object_small object_word le
            (ground (arith, good)) (ground (arith, good)) in
        let same : (total + size) % 2 ^ 64 ≡ total' = cc done in
        (sym same ∙ exact, omega (arith, sum, exact, same))

  -- Each limit on a file is at most the limit on the total, which fits a std::size_t.
  abbrev pub AreSane : Type 0
  AreSane =
      (limits.max_inline_file_bytes ≤ limits.max_inline_total_bytes)
      × (limits.max_inline_total_bytes < 2 ^ 64)
      × (limits.max_file_bytes ≤ limits.max_total_bytes)
      × (limits.max_total_bytes < 2 ^ 64)

  abbrev entry_check : ℕ → ℕ → Entry → Result ℕ
  entry_check version total e =
      if version == 1
      then check_inline sha256_bytes limits total (or_empty sha256_bytes limits e.sha256)
          e.inline_data
      else check_object sha256_bytes limits total e.object_id e.size

  entry_check-Adds :
      (version total total' : ℕ) (e : Entry)
      → AreSane
      → total ≤ total_limit version limits
      → entry_check version total e ≡ ok total'
      → Adds (total_limit version limits) total (entry_size version e) total'
  entry_check-Adds version total total' e (a, b, c, d) le h = elim (Bool-cases (version == 1)) [
    | inl inline ↦ rw inline (
        check_inline-Adds a b total total' (or_empty sha256_bytes limits e.sha256) e.inline_data
          (rw inline at le) (rw inline at h))
    | inr object ↦
        rw object
          (check_object-Adds c d total total' e.object_id e.size (rw object at le) (rw object at h))
  ]

  check_entries-total :
      (version : ℕ) (paths : List Bytes) (total : ℕ) (es : List Entry) (final : ℕ)
      → AreSane
      → total ≤ total_limit version limits
      → check_entries sha256_bytes limits version paths total es ≡ ok final
      → total + total_size version es ≤ total_limit version limits
  unfolding check_entries
  check_entries-total version paths total [] final sane le h = omega arith
  check_entries-total version paths total (e ∷ es) final sane le h =
      let (_, h1) =
        guard-eq-ok (not (good_names sha256_bytes limits e.is_object e.path e.sha256))
          ErrorCode.validation _ _ h in
      let (_, h2) =
        guard-eq-ok (any (λ p. bytes_eq p (or_empty sha256_bytes limits e.path)) paths)
          ErrorCode.conflict _ _ h1 in
      let (total', added, rest) = bind-eq-ok (entry_check version total e) _ h2 in
      let (sum, le') = entry_check-Adds version total total' e sane le added in
      let later =
        check_entries-total version (or_empty sha256_bytes limits e.path ∷ paths) total' es final
          sane le' rest in
      omega (arith, sum, later)

  pub files_of :
      (m : Manifest) (files files' : List Entry)
      → m.files ≡ some files
      → check_manifest_size sha256_bytes limits m ≡ ok files'
      → files' ≡ files
  files_of m files files' e h =
      let (_, done) =
        guard-eq-ok
          (not m.is_object
            || (not (m.version == 1) && not (m.version == 2))
            || ltb limits.max_manifest_bytes m.dump_size)
          ErrorCode.validation _ _ (rw e at h) in
      cc done

  -- With limits on a file that are at most those on the total, which fit a std::size_t, an accepted
  -- manifest keeps its limits: it has no more files than allowed, and their bytes together, the
  -- inline ones in version 1 and the objects in version 2, are at most the limit on the total.
  pub accepted_manifest_fits :
      (m : Manifest) (files : List Entry)
      → AreSane
      → m.files ≡ some files
      → validate_workspace_manifest sha256_bytes limits m ≡ ok tt
      → (length files ≤ limits.max_files)
        × (total_size m.version files ≤ total_limit m.version limits)
  unfolding validate_workspace_manifest
  accepted_manifest_fits m files sane listed h =
      let (files', read, h1) = bind-eq-ok (check_manifest_size sha256_bytes limits m) _ h in
      let same = files_of m files files' listed read in
      let (few, h2) =
        guard-eq-ok (ltb limits.max_files (length files')) ErrorCode.validation _ _ h1 in
      let (final, checked, _) =
        bind-eq-ok (check_entries sha256_bytes limits m.version [] 0 files') _ h2 in
      let bound = check_entries-total m.version [] 0 files' final sane (omega arith) checked in
      subst
        (λ fs.
          (length fs ≤ limits.max_files) × (total_size m.version fs ≤ total_limit m.version limits))
        same (ground (arith, few), omega (arith, bound))
