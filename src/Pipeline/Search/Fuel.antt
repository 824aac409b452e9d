-- ===== src/Pipeline/Search/Fuel.antt =====
-- src/pipeline/parser.cpp, `visit`: the search takes one call more than there are nodes at most.
use laso.Base.{
  ℕ, zero, suc, ◌≤◌, ◌<◌, String, ◌≡◌, refl, ◌⊎◌, inl, inr, Bool, true, not, ◌&&◌, List, [], ◌∷◌,
  arith, ◌==◌, eq_iff, Bool-cases, In, here, there, In-nil, In-cons, length, if◌then◌else◌,
}
use laso.Core.Data.{EdgeDefinition}
use laso.Maps.{insert}
use laso.Pipeline.Validate.{outgoing}
use laso.Pipeline.Search.{
  Colors, color, unbounded_targets, Visit, out, cycle, colored, and_then, visit_all, visit,
}
use laso.Pipeline.Search.Colors.{color-insert, visit_grey, visit_black, visit_white}

-- A node that `visit` would enter.
abbrev pub is_white : Colors → String → Bool
is_white c x = not (color x c == 1) && not (color x c == 2)

pub whites : List String → Colors → ℕ
whites [] c = 0
whites (x ∷ xs) c = if is_white c x then suc (whites xs c) else whites xs c

whites-le : (xs : List String) (c : Colors) → whites xs c ≤ length xs
unfolding whites
whites-le [] c = omega arith
whites-le (x ∷ xs) c = ground (arith, whites-le xs c)

whites-insert :
    (xs : List String) (k : String) (v : ℕ) (c : Colors)
    → (v ≡ 1) ⊎ (v ≡ 2)
    → whites xs (insert k v c) ≤ whites xs c
unfolding whites
whites-insert [] k v c h = omega arith
whites-insert (x ∷ xs) k v c h = ground (arith, whites-insert xs k v c h, color-insert k x v c)

whites-grey :
    (xs : List String) (k : String) (c : Colors)
    → In k xs
    → is_white c k ≡ true
    → whites xs (insert k 1 c) < whites xs c
unfolding whites
whites-grey [] k c i w = absurd (In-nil i)
whites-grey (x ∷ xs) k c i w = elim (In-cons i) [
  | inl e ↦ ground (arith, whites-insert xs k 1 c (inl refl), color-insert k x 1 c, eq_iff k x, e)
  | inr j ↦ ground (arith, whites-grey xs k c j w, color-insert k x 1 c, eq_iff k x)
]

-- The call did not run out of fuel, and no node has become white.
abbrev Finishes : List String → Colors → Visit → Type 0
Finishes nodes c out = ⊥
Finishes nodes c cycle = Unit
Finishes nodes c (colored c') = whites nodes c' ≤ whites nodes c

Finishes-and_then :
    (nodes : List String) (c d : Colors) (v : Visit) (f : Colors → Visit)
    → Finishes nodes c v
    → ((c' : Colors) → whites nodes c' ≤ whites nodes c → Finishes nodes d (f c'))
    → Finishes nodes d (and_then v f)
Finishes-and_then nodes c d out f h k = absurd h
Finishes-and_then nodes c d cycle f h k = tt
Finishes-and_then nodes c d (colored c') f h k = k c' h

Finishes-weaken :
    (nodes : List String) (c d : Colors) (v : Visit)
    → whites nodes c ≤ whites nodes d
    → Finishes nodes c v
    → Finishes nodes d v
Finishes-weaken nodes c d out l h = h
Finishes-weaken nodes c d cycle l h = tt
Finishes-weaken nodes c d (colored c') l h = omega arith

-- Every target of an unbounded edge is a node.
abbrev pub Closed : List EdgeDefinition → List String → Type 0
Closed edges nodes = (a b : String) → In b (unbounded_targets (outgoing edges a)) → In b nodes

module _ (edges : List EdgeDefinition) (nodes : List String) (closed : Closed edges nodes) where
  abbrev Enough : ℕ → (String → Colors → Visit) → Type 0
  Enough fuel go =
      (id : String) (c : Colors) → In id nodes → whites nodes c < fuel → Finishes nodes c (go id c)

  visit_all-Finishes :
      (fuel : ℕ) (go : String → Colors → Visit)
      → Enough fuel go
      → (ts : List String) (c : Colors) → ((t : String) → In t ts → In t nodes)
      → whites nodes c < fuel
      → Finishes nodes c (visit_all go ts c)
  unfolding visit_all
  visit_all-Finishes fuel go enough [] c inside w = omega arith
  visit_all-Finishes fuel go enough (t ∷ ts) c inside w =
      Finishes-and_then nodes c c (go t c) (visit_all go ts) (enough t c (inside t (here refl)) w)
        λ c' l.
          Finishes-weaken nodes c' c (visit_all go ts c') l
            (visit_all-Finishes fuel go enough ts c' (λ x i. inside x (there i)) (omega arith))

  pub visit-Finishes : (fuel : ℕ) → Enough fuel (visit edges fuel)
  visit-Finishes zero id c i w = elim w [ ]
  visit-Finishes (suc fuel) id c i w = elim (Bool-cases (color id c == 1)) [
    | inl grey ↦ rw (visit_grey edges fuel id c grey) tt
    | inr other ↦ elim (Bool-cases (color id c == 2)) [
      | inl black ↦ rw (visit_black edges fuel id c other black) (omega arith)
      | inr white ↦ rw (visit_white edges fuel id c other white) (
          let fewer : whites nodes (insert id 1 c) < whites nodes c =
            whites-grey nodes id c i (ground (arith, other, white)) in
          Finishes-and_then nodes (insert id 1 c) c
            (visit_all (visit edges fuel) (unbounded_targets (outgoing edges id)) (insert id 1 c))
            (λ c'. colored (insert id 2 c'))
            (visit_all-Finishes fuel (visit edges fuel) (visit-Finishes fuel)
              (unbounded_targets (outgoing edges id)) (insert id 1 c) (closed id) (omega arith))
            (λ c' l. omega (arith, whites-insert nodes id 2 c' (inr refl))))
    ]
  ]

  -- With more fuel than nodes the search over the nodes ends: it finds a cycle, or it returns.
  pub visit_all-ne-out :
      (fuel : ℕ) → length nodes < fuel → (visit_all (visit edges fuel) nodes [] ≡ out → ⊥)
  visit_all-ne-out fuel h e = rw e at (
      visit_all-Finishes fuel (visit edges fuel) (visit-Finishes fuel) nodes [] (λ t i. i)
        (omega (arith, whites-le nodes [])))
