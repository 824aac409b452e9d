-- ===== src/Tests/Policy.antt =====
-- Tests of include/laso/policies/policy.hpp.
use laso.Base.{◌≡◌, false, ◌||◌, [], ◌∷◌}
use laso.Policy.{PolicyContext, PolicyEngine, deny, require_approval, evaluate}
use laso.Policy.Laws.{
  evaluate-strongest, is_blocked, leaks, some_rule, is_deny, is_require, strongest,
}

abbrev engine : PolicyEngine
engine = record {
  rules =
      record { resource = "*"; decision = require_approval }
      ∷ record { resource = "delete"; decision = deny }
      ∷ [];
  allow_network = false;
  allow_remote_workers = "codex" ∷ [];
}

abbrev call : PolicyContext
call = record {
  pipeline_id = "p";
  node_id = "n";
  resource = "delete";
  classification = "public";
  network = false;
  remote = false;
  worker_node = false;
  approval_required = false;
}

evaluate-strongest_example :
    (evaluate engine call).decision
    ≡ strongest
        (is_blocked engine call || leaks call || some_rule is_deny engine.rules call)
        (call.approval_required || some_rule is_require engine.rules call)
evaluate-strongest_example = evaluate-strongest engine call
