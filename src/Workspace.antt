-- ===== src/Workspace.antt =====
-- src/runtime/workspace.cpp: `valid_digest`, `safe_relative_path`, `safe_component` and
-- `validate_workspace_manifest`. A std::string is the list of its bytes, and a std::filesystem::path is
-- iterated over what stands between the slashes; the empty parts that iteration leaves out pass every test
-- here. The JSON library is the parameters: the record `Entry` has what an entry's members are read as,
-- and `sha256_bytes` is the digest of bytes. A std::size_t wraps modulo 2^64.
pub mod Safety
pub mod Sizes
use laso.Base.{
  ℕ, suc, ◌+◌, ◌-◌, ◌%◌, ◌^◌, Bool, true, false, not, ◌&&◌, ◌||◌, Option, none, some, List, [], ◌∷◌,
  ltb, leb, ◌==◌, all, any, length, is_some, if◌then◌else◌,
}
use laso.Core.Errors.{ErrorCode, Result, ok, err, throw, throw_if, ◌>>=◌, ◌>>◌}
use laso.Pipeline.Reference.{Bytes, alnum, is_digit}
use laso.Security.{bytes_eq}
use laso.Scheduler.Cron.{split}

pub record WorkspaceManifestLimits : Type 0 where
  pub max_files : ℕ
  pub max_file_bytes : ℕ
  pub max_total_bytes : ℕ
  pub max_manifest_bytes : ℕ
  pub max_inline_file_bytes : ℕ
  pub max_inline_total_bytes : ℕ

-- What the members of an entry are read as; `none` where the member is missing or of another type.
-- `inline_data` is the array "data" whose numbers are read as bytes, which may throw.
pub record Entry : Type 0 where
  pub is_object : Bool
  pub path : Option Bytes
  pub sha256 : Option Bytes
  pub inline_data : Option (Result Bytes)
  pub object_id : Option Bytes
  pub size : Option ℕ

pub record Manifest : Type 0 where
  pub is_object : Bool
  pub version : ℕ
  pub files : Option (List Entry)
  pub dump_size : ℕ

abbrev pub hex_digit : ℕ → Bool
hex_digit c = is_digit c || (leb 97 c && leb c 102)

unfoldable pub valid_digest : Bytes → Bool
valid_digest value = length value == 64 && all hex_digit value

abbrev pub first_is : ℕ → Bytes → Bool
first_is c [] = false
first_is c (d ∷ ds) = d == c

abbrev pub contains : ℕ → Bytes → Bool
contains c value = any (λ d. d == c) value

abbrev pub is_dots : Bytes → Bool
is_dots part = bytes_eq part (46 ∷ 46 ∷ []) || bytes_eq part (46 ∷ [])

abbrev pub is_nil : Bytes → Bool
is_nil [] = true
is_nil (c ∷ cs) = false

-- '/' is 47, '\' is 92, ':' is 58.
unfoldable pub safe_relative_path : Bytes → Bool
safe_relative_path value =
    if is_nil value
      || ltb 512 (length value)
      || first_is 47 value
      || first_is 92 value
      || contains 58 value
      || contains 92 value
      || contains 0 value
    then false
    else not (any is_dots (split value 47))

abbrev pub component_char : ℕ → Bool
component_char c = alnum c || c == 45 || c == 95 || c == 46 || c == 58

unfoldable pub safe_component : Bytes → Bool
safe_component value =
    not (is_nil value) && leb (length value) 128 && not (is_dots value) && all component_char value

-- `a - b` of two std::size_t
abbrev pub size_sub : ℕ → ℕ → ℕ
size_sub a b = (a + (2 ^ 64 - b)) % 2 ^ 64

module _ (sha256_bytes : Bytes → Bytes) (limits : WorkspaceManifestLimits) where
  abbrev pub check_manifest_size : Manifest → Result (List Entry)
  check_manifest_size m = elim m.files [
    | none ↦ throw ErrorCode.validation "Invalid or oversized workspace manifest"
    | some files ↦
        throw_if
          (not m.is_object
            || (not (m.version == 1) && not (m.version == 2))
            || ltb limits.max_manifest_bytes m.dump_size)
          ErrorCode.validation "Invalid or oversized workspace manifest"
        >> ok files
  ]

  abbrev pub good_names : Bool → Option Bytes → Option Bytes → Bool
  good_names is_object (some path) (some digest) =
      is_object && safe_relative_path path && valid_digest digest
  good_names is_object _ _ = false

  abbrev pub or_empty : Option Bytes → Bytes
  or_empty none = []
  or_empty (some b) = b

  -- The test of an inline entry: the total with its bytes.
  abbrev pub check_bytes : ℕ → Bytes → Bytes → Result ℕ
  check_bytes total digest bytes = do
    throw_if
        (ltb limits.max_inline_file_bytes (length bytes)
          || ltb (size_sub limits.max_inline_total_bytes (length bytes)) total
          || not (bytes_eq digest (sha256_bytes bytes)))
        ErrorCode.validation "Workspace inline integrity or size check failed"
    ok ((total + length bytes) % 2 ^ 64)

  abbrev pub check_inline : ℕ → Bytes → Option (Result Bytes) → Result ℕ
  check_inline total digest none =
      throw ErrorCode.validation "Inline workspace entry is missing data"
  check_inline total digest (some read) = read >>= check_bytes total digest

  abbrev pub check_object : ℕ → Option Bytes → Option ℕ → Result ℕ
  check_object total (some id) (some size) = do
    throw_if (ltb limits.max_file_bytes size || ltb (size_sub limits.max_total_bytes size) total)
        ErrorCode.validation "Workspace object exceeds the configured limit"
    ok ((total + size) % 2 ^ 64)
  check_object total _ _ = throw ErrorCode.validation "Object-backed workspace entry is incomplete"

  -- The loop over the entries: `paths` are the paths so far, and `total` the bytes so far.
  unfoldable pub check_entries : ℕ → List Bytes → ℕ → List Entry → Result ℕ
  check_entries version paths total [] = ok total
  check_entries version paths total (e ∷ es) = do
    throw_if (not (good_names e.is_object e.path e.sha256)) ErrorCode.validation
        "Invalid workspace manifest entry"
    throw_if (any (λ p. bytes_eq p (or_empty e.path)) paths) ErrorCode.conflict
        "Workspace manifest contains duplicate paths"
    total' ←
        (if version == 1
          then check_inline total (or_empty e.sha256) e.inline_data
          else check_object total e.object_id e.size)
    check_entries version (or_empty e.path ∷ paths) total' es

  unfoldable pub validate_workspace_manifest : Manifest → Result (Unit {0})
  validate_workspace_manifest m = do
    files ← check_manifest_size m
    throw_if (ltb limits.max_files (length files)) ErrorCode.validation
        "Workspace file count exceeds the configured limit"
    total ← check_entries m.version [] 0 files
    ok tt
