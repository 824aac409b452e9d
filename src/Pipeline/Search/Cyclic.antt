-- ===== src/Pipeline/Search/Cyclic.antt =====
-- src/pipeline/parser.cpp, `visit`: the cycle that it has found when it throws.
use laso.Base.{
  ℕ, zero, suc, ◌<◌, String, ◌≡◌, refl, sym, subst, ◌⊎◌, inl, inr, ◌↔◌, List, [], ◌∷◌, arith, ◌==◌,
  ==_iff, str_eq, eq_iff, Bool-cases, In, here, there, In-nil, In-cons, length,
}
use laso.Core.Data.{EdgeDefinition}
use laso.Maps.{insert, lookup}
use laso.Pipeline.Validate.{outgoing}
use laso.Pipeline.Search.{
  Colors, color, unbounded_targets, Visit, out, cycle, colored, and_then, visit_all, visit,
}
use laso.Pipeline.Search.Colors.{color-insert, visit_grey, visit_black, visit_white}
use laso.Pipeline.Search.Acyclic.{
  Free, Way, last, step, concat, Free-In, Ends-acyclic, visit_all-Ends,
}
use laso.Pipeline.Search.Fuel.{Closed, visit_all-ne-out}

widen :
    (e : EdgeDefinition) (es : List EdgeDefinition) (a b : String) → Free es a b → Free (e ∷ es) a b
widen e es a b f = record {
  edge = f.edge;
  is_edge = there f.is_edge;
  leaves = f.leaves;
  enters = f.enters;
  unbounded = f.unbounded;
}

-- Each of the targets is entered by an unbounded edge.
pub Free-of-In :
    (edges : List EdgeDefinition) (a b : String)
    → In b (unbounded_targets (outgoing edges a))
    → Free edges a b
unfolding unbounded_targets outgoing
Free-of-In [] a b i = absurd (In-nil i)
Free-of-In (e ∷ es) a b i = elim (Bool-cases (str_eq e.from a)) [
  | inl from_here ↦ elim (Bool-cases (e.max_iterations == 0)) [
    | inl free ↦ elim (In-cons (rw (from_here, free) at i)) [
      | inl same ↦ record {
        edge = e;
        is_edge = here refl;
        leaves = (eq_iff e.from a).0 from_here;
        enters = sym same;
        unbounded = (==_iff e.max_iterations 0).0 free;
      }
      | inr j ↦ widen e es a b (Free-of-In es a b j)
    ]
    | inr bounded ↦ widen e es a b (Free-of-In es a b (rw (from_here, bounded) at i))
  ]
  | inr other ↦ widen e es a b (Free-of-In es a b (rw other at i))
]

module _ (edges : List EdgeDefinition) where
  -- A cycle of unbounded edges.
  abbrev pub Cycle : Type 0
  Cycle = (a : String) × Way edges a a

  -- What a call leaves behind: a cycle where it throws, and no new grey node where it returns.
  abbrev Leaves : Colors → Visit → Type 0
  Leaves c out = Unit
  Leaves c cycle = Cycle
  Leaves c (colored c') = (x : String) → color x c' ≡ 1 → color x c ≡ 1

  abbrev GreyLeads : String → Colors → Type 0
  GreyLeads id c = (x : String) → color x c ≡ 1 → Way edges x id

  Leaves-and_then :
      (c d : Colors) (v : Visit) (f : Colors → Visit)
      → Leaves c v
      → ((c' : Colors) → ((x : String) → color x c' ≡ 1 → color x c ≡ 1) → Leaves d (f c'))
      → Leaves d (and_then v f)
  Leaves-and_then c d out f h k = tt
  Leaves-and_then c d cycle f h k = h
  Leaves-and_then c d (colored c') f h k = k c' h

  Leaves-weaken :
      (c d : Colors) (v : Visit)
      → ((x : String) → color x c ≡ 1 → color x d ≡ 1)
      → Leaves c v
      → Leaves d v
  Leaves-weaken c d out l h = tt
  Leaves-weaken c d cycle l h = h
  Leaves-weaken c d (colored c') l h = λ x g. l x (h x g)

  abbrev Tracks : (String → Colors → Visit) → Type 0
  Tracks go = (id : String) (c : Colors) → GreyLeads id c → Leaves c (go id c)

  visit_all-Tracks :
      (go : String → Colors → Visit)
      → Tracks go
      → (ts : List String) (c : Colors) → ((t : String) → In t ts → GreyLeads t c)
      → Leaves c (visit_all go ts c)
  unfolding visit_all
  visit_all-Tracks go tracks [] c leads = λ x g. g
  visit_all-Tracks go tracks (t ∷ ts) c leads =
      Leaves-and_then c c (go t c) (visit_all go ts) (tracks t c (leads t (here refl))) λ c' l.
        Leaves-weaken c' c (visit_all go ts c') l
          (visit_all-Tracks go tracks ts c' λ u i x g. leads u (there i) x (l x g))

  grey_leads :
      (id t : String) (c : Colors) → GreyLeads id c → Free edges id t → GreyLeads t (insert id 1 c)
  grey_leads id t c leads f x g = elim (Bool-cases (str_eq id x)) [
    | inl same ↦ subst (λ y. Way edges y t) ((eq_iff id x).0 same) (last f)
    | inr other ↦ concat edges x id t (leads x (ground (arith, color-insert id x 1 c))) f
  ]

  visit-Tracks : (fuel : ℕ) → Tracks (visit edges fuel)
  unfolding visit
  visit-Tracks zero id c leads = tt
  visit-Tracks (suc fuel) id c leads = elim (Bool-cases (color id c == 1)) [
    | inl grey ↦
        rw (visit_grey edges fuel id c grey) (id, leads id ((==_iff (color id c) 1).0 grey))
    | inr other ↦ elim (Bool-cases (color id c == 2)) [
      | inl black ↦ rw (visit_black edges fuel id c other black) (λ x g. g)
      | inr white ↦ rw (visit_white edges fuel id c other white) (
          Leaves-and_then (insert id 1 c) c
            (visit_all (visit edges fuel) (unbounded_targets (outgoing edges id)) (insert id 1 c))
            (λ c'. colored (insert id 2 c'))
            (visit_all-Tracks (visit edges fuel) (visit-Tracks fuel)
              (unbounded_targets (outgoing edges id)) (insert id 1 c)
              (λ t i. grey_leads id t c leads (Free-of-In edges id t i)))
            (λ c' l x g. ground (arith, color-insert id x 2 c', color-insert id x 1 c, l x)))
    ]
  ]

pub Visit-cases : (v : Visit) → (v ≡ out) ⊎ ((v ≡ cycle) ⊎ ((c : Colors) × (v ≡ colored c)))
Visit-cases out = inl refl
Visit-cases cycle = inr (inl refl)
Visit-cases (colored c) = inr (inr (c, refl))

Way-end :
    (edges : List EdgeDefinition) (a b : String) → Way edges a b → (m : String) × Free edges m b
Way-end edges a b (last f) = (a, f)
Way-end edges a b (step {b = m} f w) = Way-end edges m b w

-- Where the targets of the unbounded edges are among the nodes, the search over the nodes with more
-- fuel than there are nodes throws for a cycle exactly if there is a cycle of unbounded edges.
pub cycle_iff :
    (edges : List EdgeDefinition) (nodes : List String) (fuel : ℕ)
    → Closed edges nodes
    → length nodes < fuel
    → (visit_all (visit edges fuel) nodes [] ≡ cycle) ↔ Cycle edges
cycle_iff edges nodes fuel closed enough = (
  λ h. rw h at (
      visit_all-Tracks edges (visit edges fuel) (visit-Tracks edges fuel) nodes []
        λ t i x g. absurd (unfold color lookup in (omega arith))),
  λ (a, w). elim (Visit-cases (visit_all (visit edges fuel) nodes [])) [
    | inl e ↦ absurd (visit_all-ne-out edges nodes closed fuel enough e)
    | inr (inl e) ↦ e
    | inr (inr (c, e)) ↦
        let (m, f) = Way-end edges a a w in
        absurd (
          Ends-acyclic edges a
            (visit_all-Ends edges fuel nodes e a (closed m a (Free-In edges m a f))) w)
  ],
)
