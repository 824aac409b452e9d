-- ===== src/Config.antt =====
-- src/core/config.cpp, `Config::validate`: the checks of the workers that run as processes, and of those
-- that may be remote. A std::string is the list of its bytes; a std::map is the list of its entries.
pub mod Processes
pub mod Limits
pub mod Consistency
use laso.Base.{
  ℕ, ◌+◌, ◌-◌, Bool, true, false, not, ◌&&◌, ◌||◌, Option, none, some, List, [], ◌∷◌, leb, ltb,
  ◌==◌, all, any, length, if◌then◌else◌,
}
use laso.Core.Errors.{ErrorCode, Result, ok, throw_if, ◌>>◌}
use laso.Pipeline.Reference.{Bytes, alnum, identifier}
use laso.Security.{bytes_eq}

pub record ProcessWorkerConfig : Type 0 where
  pub executable : Bytes
  pub args : List Bytes
  pub remote : Bool
  pub environment_allowlist : List Bytes
  pub environment : List (Bytes × Bytes)
  pub startup_timeout_ms : ℕ
  pub request_timeout_ms : ℕ
  pub interaction_timeout_ms : ℕ

-- [A-Za-z_][A-Za-z0-9_]{0,127}
unfoldable pub env_name : Bytes → Bool
env_name [] = false
env_name (c ∷ cs) =
    ((leb 65 c && leb c 90) || (leb 97 c && leb c 122) || c == 95)
    && leb (length cs) 127
    && all (λ ch. alnum ch || ch == 95) cs

abbrev pub absolute : Bytes → Bool
absolute [] = false
absolute (c ∷ cs) = c == 47

unfoldable pub check_args : ℕ → List Bytes → Result (Unit {0})
check_args argument_bytes [] = ok tt
check_args argument_bytes (arg ∷ rest) =
    throw_if
      (ltb 4096 (length arg)
        || ltb 65536 argument_bytes
        || ltb (65536 - argument_bytes) (length arg + 1))
      ErrorCode.configuration "Invalid process worker arguments"
    >> check_args (argument_bytes + (length arg + 1)) rest

-- The set of the names that came before is the list `seen`.
unfoldable pub check_names : List Bytes → List Bytes → Result (Unit {0})
check_names seen [] = ok tt
check_names seen (name ∷ rest) =
    throw_if (not (env_name name) || any (bytes_eq name) seen) ErrorCode.configuration
      "Invalid process worker environment name"
    >> check_names (name ∷ seen) rest

abbrev pub entry_bytes : Bytes → Bytes → ℕ
entry_bytes name value = length name + length value + 2

unfoldable pub check_environment : ℕ → List (Bytes × Bytes) → Result (Unit {0})
check_environment configured [] = ok tt
check_environment configured ((name, value) ∷ rest) =
    throw_if
      (not (env_name name)
        || ltb 4096 (length value)
        || any (λ ch. ch == 0) name
        || any (λ ch. ch == 0) value
        || ltb 65536 (entry_bytes name value)
        || ltb (65536 - entry_bytes name value) configured)
      ErrorCode.configuration "Invalid process worker environment"
    >> check_environment (configured + entry_bytes name value) rest

unfoldable pub invalid_worker_limits : ProcessWorkerConfig → Bool
invalid_worker_limits w =
    ltb 128 (length w.args)
    || ltb 64 (length w.environment_allowlist)
    || ltb 64 (length w.environment)
    || w.startup_timeout_ms == 0
    || ltb 300000 w.startup_timeout_ms
    || w.request_timeout_ms == 0
    || ltb 300000 w.request_timeout_ms
    || w.interaction_timeout_ms == 0
    || ltb 3600000 w.interaction_timeout_ms

abbrev pub invalid_executable : Bytes → ProcessWorkerConfig → Bool
invalid_executable id w =
    not (identifier id) || ltb 4096 (length w.executable) || not (absolute w.executable)

unfoldable pub check_process_worker : Bytes → ProcessWorkerConfig → Result (Unit {0})
check_process_worker id w =
    throw_if (invalid_executable id w) ErrorCode.configuration "Invalid process worker executable"
    >> (check_args 0 w.args
        >> (throw_if (invalid_worker_limits w) ErrorCode.configuration
              "Invalid process worker limits"
            >> (check_names [] w.environment_allowlist >> check_environment 0 w.environment)))

unfoldable pub check_process_workers : List (Bytes × ProcessWorkerConfig) → Result (Unit {0})
check_process_workers [] = ok tt
check_process_workers ((id, w) ∷ rest) = check_process_worker id w >> check_process_workers rest

-- `worker != process_workers.end() && worker->second.remote`
unfoldable pub is_remote : List (Bytes × ProcessWorkerConfig) → Bytes → Bool
is_remote [] id = false
is_remote ((key, w) ∷ rest) id = if bytes_eq key id then w.remote else is_remote rest id

unfoldable pub check_remote :
    List (Bytes × ProcessWorkerConfig) → List Bytes → List Bytes → Result (Unit {0})
check_remote workers seen [] = ok tt
check_remote workers seen (id ∷ rest) =
    throw_if (not (identifier id) || any (bytes_eq id) seen || not (is_remote workers id))
      ErrorCode.configuration
      "allow_remote_workers must name unique configured remote process workers"
    >> check_remote workers (id ∷ seen) rest

-- The end of Config::validate, from `process_workers.size() > 64` on.
unfoldable pub check_processes : List (Bytes × ProcessWorkerConfig) → List Bytes → Result (Unit {0})
check_processes workers allow_remote_workers =
    throw_if (ltb 64 (length workers)) ErrorCode.configuration "Too many process workers"
    >> (check_process_workers workers
        >> (throw_if (ltb 64 (length allow_remote_workers)) ErrorCode.configuration
              "Too many explicitly allowed remote workers"
            >> check_remote workers [] allow_remote_workers))
