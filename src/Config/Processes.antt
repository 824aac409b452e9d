-- ===== src/Config/Processes.antt =====
-- src/core/config.cpp, `Config::validate`: what the workers of an accepted configuration are.
use laso.Base.{ℕ, ◌+◌, ◌≤◌, ◌≡◌, true, false, List, [], ◌∷◌, arith, length, All, any}
use laso.Core.Errors.{ok, guard-eq-ok, then-eq-ok}
use laso.Pipeline.Reference.{Bytes}
use laso.Security.{bytes_eq}
use laso.Config.{
  ProcessWorkerConfig, absolute, check_args, check_names, entry_bytes, check_environment,
  invalid_worker_limits, invalid_executable, check_process_worker, check_process_workers, is_remote,
  check_remote, check_processes,
}

-- The bytes of the arguments and of the environment that a process is started with.
unfoldable pub args_bytes : List Bytes → ℕ
args_bytes [] = 0
args_bytes (arg ∷ rest) = length arg + 1 + args_bytes rest

unfoldable pub environment_bytes : List (Bytes × Bytes) → ℕ
environment_bytes [] = 0
environment_bytes ((name, value) ∷ rest) = entry_bytes name value + environment_bytes rest

abbrev pub Starts : Bytes × ProcessWorkerConfig → Type 0
Starts (id, w) =
    (absolute w.executable ≡ true)
    × (args_bytes w.args ≤ 65536)
    × (environment_bytes w.environment ≤ 65536)

-- Every name is that of a remote worker, and none is there twice.
abbrev pub EachRemote : List (Bytes × ProcessWorkerConfig) → List Bytes → List Bytes → Type 0
EachRemote workers seen [] = Unit
EachRemote workers seen (id ∷ rest) =
    (is_remote workers id ≡ true)
    × (any (bytes_eq id) seen ≡ false)
    × EachRemote workers (id ∷ seen) rest

check_args-fit :
    (n : ℕ) (args : List Bytes)
    → n ≤ 65536
    → check_args n args ≡ ok tt
    → n + args_bytes args ≤ 65536
unfolding check_args args_bytes
check_args-fit n [] l h = omega arith
check_args-fit n (arg ∷ rest) l h =
    let (fits, h1) = guard-eq-ok _ _ _ (check_args (n + (length arg + 1)) rest) h in
    let small : n + (length arg + 1) ≤ 65536 = ground (arith, fits) in
    omega (arith, check_args-fit (n + (length arg + 1)) rest small h1)

check_environment-fit :
    (n : ℕ) (env : List (Bytes × Bytes))
    → n ≤ 65536
    → check_environment n env ≡ ok tt
    → n + environment_bytes env ≤ 65536
unfolding check_environment environment_bytes
check_environment-fit n [] l h = omega arith
check_environment-fit n ((name, value) ∷ rest) l h =
    let (fits, h1) = guard-eq-ok _ _ _ (check_environment (n + entry_bytes name value) rest) h in
    let small : n + entry_bytes name value ≤ 65536 = ground (arith, fits) in
    omega (arith, check_environment-fit (n + entry_bytes name value) rest small h1)

check_process_worker-Starts :
    (id : Bytes) (w : ProcessWorkerConfig) → check_process_worker id w ≡ ok tt → Starts (id, w)
unfolding check_process_worker
check_process_worker-Starts id w h =
    let (runs, h1) = guard-eq-ok (invalid_executable id w) _ _ _ h in
    let (args, h2) = then-eq-ok (check_args 0 w.args) _ h1 in
    let (_, h3) = guard-eq-ok (invalid_worker_limits w) _ _ _ h2 in
    let (_, h4) = then-eq-ok (check_names [] w.environment_allowlist) _ h3 in
    (
      ground (arith, runs),
      omega (arith, check_args-fit 0 w.args (omega arith) args),
      omega (arith, check_environment-fit 0 w.environment (omega arith) h4),
    )

check_process_workers-Starts :
    (ws : List (Bytes × ProcessWorkerConfig)) → check_process_workers ws ≡ ok tt → All Starts ws
unfolding check_process_workers
check_process_workers-Starts [] h = tt
check_process_workers-Starts ((id, w) ∷ rest) h =
    let (one, h1) = then-eq-ok (check_process_worker id w) _ h in
    (check_process_worker-Starts id w one, check_process_workers-Starts rest h1)

check_remote-EachRemote :
    (ws : List (Bytes × ProcessWorkerConfig)) (seen ids : List Bytes)
    → check_remote ws seen ids ≡ ok tt
    → EachRemote ws seen ids
unfolding check_remote
check_remote-EachRemote ws seen [] h = tt
check_remote-EachRemote ws seen (id ∷ rest) h =
    let (good, h1) = guard-eq-ok _ _ _ (check_remote ws (id ∷ seen) rest) h in
    (ground (arith, good), ground (arith, good), check_remote-EachRemote ws (id ∷ seen) rest h1)

-- In an accepted configuration every process worker has an absolute path to run, and arguments and an
-- environment of at most 65536 bytes each, terminators included; and every worker that is explicitly
-- allowed to be remote is configured as a remote one, and named once.
pub accepted_processes :
    (ws : List (Bytes × ProcessWorkerConfig)) (ids : List Bytes)
    → check_processes ws ids ≡ ok tt
    → All Starts ws × EachRemote ws [] ids
unfolding check_processes
accepted_processes ws ids h =
    let (_, h1) = guard-eq-ok _ _ _ _ h in
    let (each, h2) = then-eq-ok (check_process_workers ws) _ h1 in
    let (_, h3) = guard-eq-ok _ _ _ _ h2 in
    (check_process_workers-Starts ws each, check_remote-EachRemote ws [] ids h3)
