-- ===== src/Pipeline/Validate/Shape.antt =====
-- src/pipeline/parser.cpp, `validate_pipeline`: what the tests on the edges leave of a graph.
use laso.Base.{
  ℕ, suc, String, ◌≡◌, refl, ◌∙◌, ap, inl, inr, Bool, true, false, not, ◌||◌, List, [], ◌∷◌, arith,
  ◌==◌, str_eq, eq_iff, any, length, is_some, Bool-cases, In, In-nil, In-cons, if◌then◌else◌,
}
use laso.Core.Errors.{ErrorCode, Result, ok, then-eq-ok, throw_if-eq-ok, guard-eq-ok}
use laso.Core.Data.{NodeDefinition, EdgeDefinition}
use laso.Maps.{lookup}
use laso.Runtime.Advance.{matching_edges}
use laso.Pipeline.Validate.{
  outgoing, member, for_each, check_edges, check_outgoing, check_exits, names, same_set,
  is_conditional, expected_names, plain_edge, is_identifier, same_path,
}

-- A loop that returns has passed every element.
pub for_each-eq-ok {ℓ} :
    {A : Type ℓ} (f : A → Result (Unit {0})) (xs : List A) (x : A)
    → for_each f xs ≡ ok tt
    → In x xs
    → f x ≡ ok tt
unfolding for_each
for_each-eq-ok f [] x h i = absurd (In-nil i)
for_each-eq-ok f (y ∷ ys) x h i =
    let (first, rest) = then-eq-ok (f y) (for_each f ys) h in
    elim (In-cons i) [ inl e ↦ ap f e ∙ first | inr j ↦ for_each-eq-ok f ys x rest j ]

module _ {Json : Type 0} (nodes : List (String × NodeDefinition Json)) where
  abbrev bad_ends : EdgeDefinition → Bool
  bad_ends e =
      not (is_identifier e.from)
      || not (is_identifier e.to)
      || not (is_some (lookup e.from nodes))
      || not (is_some (lookup e.to nodes))
      || str_eq e.to "input"
      || str_eq e.from "output"

  abbrev bad_condition : EdgeDefinition → Bool
  bad_condition e = not (member e.condition ("" ∷ "accepted" ∷ "rejected" ∷ "repeat" ∷ "done" ∷ []))

  good_target : (e : EdgeDefinition) → bad_ends e ≡ false → is_some (lookup e.to nodes) ≡ true
  good_target e h = ground arith

  -- The target of every edge that has passed is a key of the map of nodes.
  pub check_edges-target :
      (paths : List (String × String)) (es : List EdgeDefinition) (e : EdgeDefinition)
      → check_edges nodes paths es ≡ ok tt
      → In e es
      → is_some (lookup e.to nodes) ≡ true
  unfolding check_edges
  check_edges-target paths [] e h i = absurd (In-nil i)
  check_edges-target paths (d ∷ ds) e h i =
      let (ends, h') = guard-eq-ok (bad_ends d) ErrorCode.validation _ _ h in
      let (_, h'') = guard-eq-ok (bad_condition d) ErrorCode.validation _ _ h' in
      let (_, rest) = guard-eq-ok (any (same_path d) paths) ErrorCode.validation _ _ h'' in
      elim (In-cons i) [
        | inl same ↦ ap (λ x. is_some (lookup x.to nodes)) same ∙ good_target d ends
        | inr j ↦ check_edges-target ((d.from, d.to) ∷ paths) ds e rest j
      ]

-- The edges that the condition `c` takes.
taken : String → List EdgeDefinition → ℕ
taken c [] = 0
taken c (e ∷ es) =
    if str_eq e.condition "" || str_eq e.condition c then suc (taken c es) else taken c es

taken-matching :
    (id c : String) (es : List EdgeDefinition)
    → length (matching_edges id c es) ≡ taken c (outgoing es id)
unfolding taken matching_edges outgoing
taken-matching id c [] = refl
taken-matching id c (e ∷ es) = ground (arith, taken-matching id c es)

plain_taken : (c : String) (es : List EdgeDefinition) → plain_edge es ≡ true → taken c es ≡ 1
unfolding taken
plain_taken c [] h = cc
plain_taken c (e ∷ []) h = ground arith
plain_taken c (e ∷ f ∷ es) h = cc

-- Two edges whose conditions are the two names are told apart by each of them.
pair_taken :
    (x y c : String) (d e : EdgeDefinition)
    → str_eq x y ≡ false
    → str_eq x "" ≡ false
    → str_eq y "" ≡ false
    → same_set (names (d ∷ e ∷ [])) (x ∷ y ∷ []) ≡ true
    → member c (x ∷ y ∷ []) ≡ true
    → taken c (d ∷ e ∷ []) ≡ 1
unfolding taken
pair_taken x y c d e apart nx ny same is = ground (
  arith,
  eq_iff x y,
  eq_iff x "",
  eq_iff y "",
  eq_iff x c,
  eq_iff y c,
  eq_iff d.condition x,
  eq_iff d.condition y,
  eq_iff e.condition x,
  eq_iff e.condition y,
  eq_iff d.condition c,
  eq_iff e.condition c,
  eq_iff x d.condition,
  eq_iff y d.condition,
  eq_iff x e.condition,
  eq_iff y e.condition,
  eq_iff d.condition "",
  eq_iff e.condition "",
)

two_edges : (es : List EdgeDefinition) → length es ≡ 2 → (d e : EdgeDefinition) × (es ≡ d ∷ e ∷ [])
two_edges [] h = absurd (omega arith)
two_edges (d ∷ []) h = absurd (omega arith)
two_edges (d ∷ e ∷ []) h = (d, e, refl)
two_edges (d ∷ e ∷ f ∷ es) h = absurd (omega arith)

expected_taken :
    (t c : String) (es : List EdgeDefinition)
    → same_set (names es) (expected_names t) ≡ true
    → length es ≡ 2
    → member c (expected_names t) ≡ true
    → taken c es ≡ 1
expected_taken t c es same two is =
    let (d, e, pair) = two_edges es two in
    elim (Bool-cases (str_eq t "loop")) [
      | inl loop ↦ rw pair (
          pair_taken "repeat" "done" c d e refl refl refl (rw (pair, loop) at same) (rw loop at is))
      | inr other ↦ rw pair (
          pair_taken "accepted" "rejected" c d e refl refl refl (rw (pair, other) at same)
            (rw other at is))
    ]

-- The results that a node of the type `t` may route by.
abbrev pub Routes : String → String → Type 0
Routes t c = is_conditional t ≡ true → member c (expected_names t) ≡ true

check_outgoing-taken :
    (t c : String) (es : List EdgeDefinition)
    → check_outgoing t es ≡ ok tt
    → str_eq t "parallel" ≡ false
    → Routes t c
    → taken c es ≡ 1
unfolding check_outgoing
check_outgoing-taken t c [] h single routes = cc
check_outgoing-taken t c (e ∷ es) h single routes = elim (Bool-cases (is_conditional t)) [
  | inl conditional ↦
      let passed =
        throw_if-eq-ok
          (not (same_set (names (e ∷ es)) (expected_names t)) || not (length (e ∷ es) == 2))
          ErrorCode.validation _ (rw (single, conditional) at h) in
      let (same, two) =
        both (same_set (names (e ∷ es)) (expected_names t)) (length (e ∷ es)) passed in
      expected_taken t c (e ∷ es) same two (routes conditional)
  | inr other ↦ plain_taken c (e ∷ es) (
      plain (plain_edge (e ∷ es)) (
        throw_if-eq-ok (not (plain_edge (e ∷ es))) ErrorCode.validation _
          (rw (single, other) at h)))
]
  where
    both : (b : Bool) (n : ℕ) → (not b || not (n == 2)) ≡ false → (b ≡ true) × (n ≡ 2)
    both b n h = ground arith

    plain : (b : Bool) → not b ≡ false → b ≡ true
    plain b h = ground arith

-- Where the tests on the edges that leave a node pass, the node is neither the output nor parallel,
-- and its result is one that a node of its type may route by, exactly one edge matches the result.
pub one_match :
    {Json : Type 0} (id c : String) (n : NodeDefinition Json) (es : List EdgeDefinition)
    → check_exits es (id, n) ≡ ok tt
    → str_eq id "output" ≡ false
    → str_eq n.type "parallel" ≡ false
    → Routes n.type c
    → length (matching_edges id c es) ≡ 1
unfolding check_exits
one_match id c n es h not_output single routes =
    taken-matching id c es
    ∙ check_outgoing-taken n.type c (outgoing es id) (rw not_output at h) single routes
