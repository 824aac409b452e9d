-- ===== src/Policy.antt =====
-- include/laso/policies/policy.hpp: `PolicyEngine`.
pub mod Laws
use laso.Base.{
  String, Bool, true, false, not, ◌&&◌, ◌||◌, List, [], ◌∷◌, str_eq, any, if◌then◌else◌,
}

pub data PolicyDecision : Type 0 where
  allow deny require_approval : PolicyDecision

pub record PolicyContext : Type 0 where
  pub pipeline_id : String
  pub node_id : String
  pub resource : String
  pub classification : String
  pub network : Bool
  pub remote : Bool
  pub worker_node : Bool
  pub approval_required : Bool

pub record PolicyResult : Type 0 where
  pub decision : PolicyDecision
  pub reason : String

pub record PolicyRule : Type 0 where
  pub resource : String
  pub decision : PolicyDecision

pub record PolicyEngine : Type 0 where
  pub rules : List PolicyRule
  pub allow_network : Bool
  pub allow_remote_workers : List String

unfoldable pub trusted_remote_worker : PolicyEngine → PolicyContext → Bool
trusted_remote_worker e c =
    c.remote && c.worker_node && any (λ w. str_eq w c.resource) e.allow_remote_workers

abbrev pub applies : PolicyRule → PolicyContext → Bool
applies r c = str_eq r.resource c.resource || str_eq r.resource "*"

abbrev pub verdict : PolicyDecision → PolicyResult
verdict require_approval = record {
  decision = require_approval;
  reason = "Human approval required";
}
verdict d = record { decision = d; reason = "Allowed local operation" }

-- One rule that applies: `Deny` returns at once, `RequireApproval` changes the decision.
abbrev pub consider :
    PolicyDecision → PolicyDecision → (PolicyDecision → PolicyResult) → PolicyResult
consider deny decision rest = record { decision = deny; reason = "Denied by deployment policy" }
consider require_approval decision rest = rest require_approval
consider allow decision rest = rest decision

-- The loop over the rules.
unfoldable pub apply_rules : List PolicyRule → PolicyContext → PolicyDecision → PolicyResult
apply_rules [] c decision = verdict decision
apply_rules (r ∷ rs) c decision =
    if applies r c
    then consider r.decision decision (apply_rules rs c)
    else apply_rules rs c decision

unfoldable pub evaluate : PolicyEngine → PolicyContext → PolicyResult
unfolding trusted_remote_worker
evaluate e c =
    if (c.network || c.remote) && not e.allow_network && not (trusted_remote_worker e c)
    then record { decision = deny; reason = "Network access is disabled" }
    else if c.remote && not c.worker_node && not (str_eq c.classification "public")
    then record {
      decision = deny;
      reason = "Non-public data cannot leave the process through remote models";
    }
    else apply_rules e.rules c (if c.approval_required then require_approval else allow)
