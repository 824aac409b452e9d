-- ===== src/Pipeline/Search/Reachable.antt =====
-- src/pipeline/parser.cpp, `reach`: it takes one call more than there are nodes at most, and the
-- comparison of the two sizes tells whether every node is reachable.
use laso.Base.{
  ℕ, zero, suc, ◌≤◌, ◌<◌, String, ◌≡◌, refl, subst, inl, inr, ◌↔◌, true, false, not, Option, none,
  some, List, [], ◌∷◌, arith, ◌==◌, eq_iff, Bool-cases, Option-cases, In, here, there, In-nil,
  In-cons, length, if◌then◌else◌,
}
use laso.Core.Data.{EdgeDefinition}
use laso.Pipeline.Validate.{outgoing, member}
use laso.Pipeline.Search.{targets, reach_all, reach, check_reached}
use laso.Pipeline.Search.Distinct.{Distinct, Within, length-Within, Within-full}
use laso.Pipeline.Search.Reach.{
  Hop, Leads, stay, onward, Hop-In, Hop-of-In, reach-seen, reach-new, reach_all-some, Reached,
  reach-Post,
}
use laso.Core.Errors.{ErrorCode, ok, throw_if-eq-ok}

-- The nodes that the search has not seen.
unseen : List String → List String → ℕ
unseen [] seen = 0
unseen (x ∷ xs) seen = if member x seen then unseen xs seen else suc (unseen xs seen)

unseen-le : (xs seen : List String) → unseen xs seen ≤ length xs
unfolding unseen
unseen-le [] seen = omega arith
unseen-le (x ∷ xs) seen = ground (arith, unseen-le xs seen)

unseen-cons :
    (xs : List String) (k : String) (seen : List String) → unseen xs (k ∷ seen) ≤ unseen xs seen
unfolding unseen
unseen-cons [] k seen = omega arith
unseen-cons (x ∷ xs) k seen = ground (arith, unseen-cons xs k seen)

unseen-new :
    (xs : List String) (k : String) (seen : List String)
    → In k xs
    → member k seen ≡ false
    → unseen xs (k ∷ seen) < unseen xs seen
unfolding unseen
unseen-new [] k seen i h = absurd (In-nil i)
unseen-new (x ∷ xs) k seen i h = elim (In-cons i) [
  | inl e ↦ ground (arith, unseen-cons xs k seen, eq_iff k x, e)
  | inr j ↦ ground (arith, unseen-new xs k seen j h)
]

abbrev Finishes : List String → List String → Option (List String) → Type 0
Finishes nodes seen none = ⊥
Finishes nodes seen (some seen') = unseen nodes seen' ≤ unseen nodes seen

Finishes-weaken :
    (nodes seen wide : List String) (o : Option (List String))
    → unseen nodes seen ≤ unseen nodes wide
    → Finishes nodes seen o
    → Finishes nodes wide o
Finishes-weaken nodes seen wide none l h = h
Finishes-weaken nodes seen wide (some seen') l h = omega arith

-- The target of every edge is a node.
abbrev pub Enclosed : List EdgeDefinition → List String → Type 0
Enclosed edges nodes = (a b : String) → Hop edges a b → In b nodes

module _ (edges : List EdgeDefinition) (nodes : List String) (closed : Enclosed edges nodes) where
  abbrev Enough : ℕ → (String → List String → Option (List String)) → Type 0
  Enough fuel go =
      (id : String) (seen : List String)
      → In id nodes
      → unseen nodes seen < fuel
      → Finishes nodes seen (go id seen)

  reach_all-Finishes :
      (fuel : ℕ) (go : String → List String → Option (List String))
      → Enough fuel go
      → (ts seen : List String) → Within ts nodes
      → unseen nodes seen < fuel
      → Finishes nodes seen (reach_all go ts seen)
  unfolding reach_all
  reach_all-Finishes fuel go enough [] seen inside w = omega arith
  reach_all-Finishes fuel go enough (t ∷ ts) seen inside w = elim (Option-cases (go t seen)) [
    | inl e ↦ absurd (rw e at (enough t seen (inside t (here refl)) w))
    | inr (mid, e) ↦
        let l : unseen nodes mid ≤ unseen nodes seen =
          rw e at (enough t seen (inside t (here refl)) w) in
        rw (reach_all-some go t ts seen mid e) (
          Finishes-weaken nodes mid seen (reach_all go ts mid) l
            (reach_all-Finishes fuel go enough ts mid (λ x i. inside x (there i)) (omega arith)))
  ]

  reach-Finishes : (fuel : ℕ) → Enough fuel (reach edges fuel)
  reach-Finishes zero id seen i w = elim w [ ]
  reach-Finishes (suc fuel) id seen i w = elim (Bool-cases (member id seen)) [
    | inl old ↦ rw (reach-seen edges fuel id seen old) (omega arith)
    | inr fresh ↦ rw (reach-new edges fuel id seen fresh) (
        let fewer : unseen nodes (id ∷ seen) < unseen nodes seen =
          unseen-new nodes id seen i fresh in
        Finishes-weaken nodes (id ∷ seen) seen
          (reach_all (reach edges fuel) (targets (outgoing edges id)) (id ∷ seen)) (omega arith)
          (reach_all-Finishes fuel (reach edges fuel) (reach-Finishes fuel)
            (targets (outgoing edges id)) (id ∷ seen) (λ x j. closed id x (Hop-of-In edges id x j))
            (omega arith)))
  ]

-- The nodes that a node of a closed graph leads to.
Leads-In :
    (edges : List EdgeDefinition) (nodes : List String)
    → Enclosed edges nodes
    → (a b : String) → In a nodes
    → Leads edges a b
    → In b nodes
Leads-In edges nodes closed a b i stay = i
Leads-In edges nodes closed a b i (onward {b = m} l h) = closed m b h

-- The search from `start` returns the nodes that `start` leads to, each once.
pub record Collected (edges : List EdgeDefinition) (start : String) (seen : List String)
    : Type 0 where
  once : Distinct seen
  led_to : (x : String) → In x seen → Leads edges start x
  complete : (x : String) → Leads edges start x → In x seen

collected :
    (edges : List EdgeDefinition) (start : String) (seen : List String)
    → Reached edges (start ∷ []) [] seen
    → Collected edges start seen
collected edges start seen r = record {
  once = r.distinct tt;
  led_to = λ x i. elim (r.led x i) [
    | inl j ↦ absurd (In-nil j)
    | inr (t, j, l) ↦ elim (In-cons j) [
      | inl e ↦ subst (λ z. Leads edges z x) e l
      | inr k ↦ absurd (In-nil k)
    ]
  ];
  complete = all_of;
}
  where
    all_of : (x : String) → Leads edges start x → In x seen
    all_of x stay = r.entered start (here refl)
    all_of x (onward {b = m} l h) = elim (r.expanded m (all_of m l)) [
      | inl j ↦ absurd (In-nil j)
      | inr e ↦ e x (Hop-In edges m x h)
    ]

pub reach-returns :
    (edges : List EdgeDefinition) (nodes : List String) (fuel : ℕ) (start : String)
    → Enclosed edges nodes
    → In start nodes
    → length nodes < fuel
    → (seen : List String) × (reach edges fuel start [] ≡ some seen) × Collected edges start seen
reach-returns edges nodes fuel start closed i enough =
    elim (Option-cases (reach edges fuel start [])) [
      | inl e ↦ absurd (
          rw e at
            (reach-Finishes edges nodes closed fuel start [] i (omega (arith, unseen-le nodes []))))
      | inr (seen, e) ↦
          (seen, e, collected edges start seen (rw e at (reach-Post edges fuel start [])))
    ]

-- For a graph of distinct nodes whose edges enter nodes only, and more fuel than there are nodes,
-- the comparison of the number of the nodes that the search from `start` collects with the number
-- of all nodes succeeds exactly if every node is reachable from `start`.
pub reached_iff :
    (edges : List EdgeDefinition) (nodes : List String) (fuel : ℕ) (start : String)
    → Enclosed edges nodes
    → Distinct nodes
    → In start nodes
    → length nodes < fuel
    → (check_reached (reach edges fuel start []) (length nodes) ≡ ok tt)
      ↔ ((x : String) → In x nodes → Leads edges start x)
reached_iff edges nodes fuel start closed distinct i enough =
    let (seen, e, c) = reach-returns edges nodes fuel start closed i enough in
    let inside : Within seen nodes = λ x j. Leads-In edges nodes closed start x i (c.led_to x j) in
    (
      λ h x j. c.led_to x (Within-full seen nodes c.once inside (same_size seen (rw e at h)) x j),
      λ h. rw e (
          full seen (length-Within seen nodes c.once inside)
            (length-Within nodes seen distinct (λ x j. c.complete x (h x j)))),
    )
  where
    same_size :
        (seen : List String)
        → check_reached (some seen) (length nodes) ≡ ok tt
        → length nodes ≤ length seen
    same_size seen h = ground (
      arith,
      throw_if-eq-ok (not (length seen == length nodes)) ErrorCode.validation "Unreachable node" h,
    )

    full :
        (seen : List String)
        → length seen ≤ length nodes
        → length nodes ≤ length seen
        → check_reached (some seen) (length nodes) ≡ ok tt
    full seen l m =
        let same : (length seen == length nodes) ≡ true = ground (arith, l, m) in rw same refl
