-- ===== src/Tests/Workspace.antt =====
-- Tests of src/runtime/workspace.cpp.
use laso.Base.{◌≤◌, ◌≡◌, refl, true, none, some, List, [], ◌∷◌, length, codes, arith}
use laso.Core.Errors.{ok}
use laso.Pipeline.Reference.{Bytes}
use laso.Scheduler.Cron.{split}
use laso.Security.{bytes_eq}
use laso.Workspace.{
  WorkspaceManifestLimits, Entry, Manifest, valid_digest, safe_relative_path, check_entries,
  validate_workspace_manifest,
}
use laso.Workspace.Sizes.{AreSane, total_size, total_limit, accepted_manifest_fits}
use laso.Workspace.Safety.{AllNew, accepted_paths_stay}

abbrev digest : Bytes
digest = codes "0123456789abcdef0123456789abcdef0123456789abcdef0123456789abcdef"

abbrev sha256_of : Bytes → Bytes
sha256_of bytes = digest

abbrev limits : WorkspaceManifestLimits
limits = record {
  max_files = 4096;
  max_file_bytes = 268435456;
  max_total_bytes = 536870912;
  max_manifest_bytes = 4194304;
  max_inline_file_bytes = 16384;
  max_inline_total_bytes = 49152;
}

limits-AreSane : AreSane sha256_of limits
limits-AreSane = (ground arith, ground arith, ground arith, ground arith)

abbrev entry : Bytes → Bytes → Entry
entry path bytes = record {
  is_object = true;
  path = some path;
  sha256 = some digest;
  inline_data = some (ok bytes);
  object_id = none;
  size = none;
}

abbrev entries : List Entry
entries = entry (codes "a/b.txt") (1 ∷ 2 ∷ []) ∷ entry (codes "..c") (3 ∷ []) ∷ []

abbrev manifest : Manifest
manifest = record { is_object = true; version = 1; files = some entries; dump_size = 300 }

manifest_accepted : validate_workspace_manifest sha256_of limits manifest ≡ ok tt
unfolding validate_workspace_manifest check_entries safe_relative_path valid_digest split bytes_eq
manifest_accepted = refl

accepted_manifest_fits_example :
    (length entries ≤ 4096) × (total_size 1 entries ≤ total_limit 1 limits)
accepted_manifest_fits_example =
    accepted_manifest_fits sha256_of limits manifest entries limits-AreSane refl manifest_accepted

accepted_paths_stay_example : AllNew sha256_of limits [] entries
accepted_paths_stay_example =
    accepted_paths_stay sha256_of limits manifest entries refl manifest_accepted
