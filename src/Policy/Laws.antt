-- ===== src/Policy/Laws.antt =====
-- include/laso/policies/policy.hpp, `PolicyEngine::evaluate`, against a declarative policy.
use laso.Base.{◌≡◌, ◌≢◌, Bool, true, false, not, ◌&&◌, ◌||◌, List, [], ◌∷◌, str_eq, any, arith}
use laso.Policy.{
  PolicyDecision, allow, deny, require_approval, PolicyContext, PolicyRule, PolicyEngine,
  trusted_remote_worker, applies, apply_rules, evaluate,
}

abbrev pub is_deny : PolicyDecision → Bool
is_deny deny = true
is_deny _ = false

abbrev pub is_require : PolicyDecision → Bool
is_require require_approval = true
is_require _ = false

-- Some rule that applies to the operation has the given kind of decision.
abbrev pub some_rule : (PolicyDecision → Bool) → List PolicyRule → PolicyContext → Bool
some_rule kind rules c = any (λ r. applies r c && kind r.decision) rules

-- The decision that the rules call for, whatever their order: a denial wins, then an approval.
abbrev pub strongest : Bool → Bool → PolicyDecision
strongest true _ = deny
strongest false true = require_approval
strongest false false = allow

apply_rules-strongest :
    (rules : List PolicyRule) (c : PolicyContext) (d : PolicyDecision)
    → d ≢ deny
    → (apply_rules rules c d).decision
      ≡ strongest (some_rule is_deny rules c) (is_require d || some_rule is_require rules c)
unfolding apply_rules
apply_rules-strongest [] c d h = ground arith
apply_rules-strongest (r ∷ rs) c d h =
    ground (arith, apply_rules-strongest rs c d, apply_rules-strongest rs c require_approval)

-- The network or a remote party is asked for, and nothing permits it.
abbrev pub is_blocked : PolicyEngine → PolicyContext → Bool
is_blocked e c = (c.network || c.remote) && not e.allow_network && not (trusted_remote_worker e c)

-- Data that is not public would leave through a remote model.
abbrev pub leaks : PolicyContext → Bool
leaks c = c.remote && not c.worker_node && not (str_eq c.classification "public")

-- The decision as one formula that no order of rules enters: an operation is denied if it is
-- blocked, leaks or meets a denying rule; otherwise it needs approval if it or a rule asks for one;
-- otherwise it is allowed.
pub evaluate-strongest :
    (e : PolicyEngine) (c : PolicyContext)
    → (evaluate e c).decision
      ≡ strongest
          (is_blocked e c || leaks c || some_rule is_deny e.rules c)
          (c.approval_required || some_rule is_require e.rules c)
unfolding evaluate trusted_remote_worker
evaluate-strongest e c =
    ground (
      arith,
      apply_rules-strongest e.rules c require_approval,
      apply_rules-strongest e.rules c allow,
    )
