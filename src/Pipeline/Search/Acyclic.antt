-- ===== src/Pipeline/Search/Acyclic.antt =====
-- src/pipeline/parser.cpp, `visit`: what it has shown when it returns.
use laso.Base.{
  ℕ, zero, suc, String, ◌≡◌, ap, subst, inl, inr, Bool, true, false, List, [], ◌∷◌, arith, ◌==◌,
  ==_iff, str_eq, eq_iff, Bool-cases, In, here, there, In-nil, In-cons, if◌then◌else◌,
}
use laso.Core.Data.{EdgeDefinition}
use laso.Maps.{insert, lookup}
use laso.Pipeline.Validate.{outgoing}
use laso.Pipeline.Search.{
  Colors, color, unbounded_targets, Visit, out, cycle, colored, and_then, visit_all, visit,
}
use laso.Pipeline.Search.Colors.{color-insert, insert-black, visit_grey, visit_black, visit_white}

-- Every way of unbounded edges that starts at the node ends.
pub data Ends (edges : List EdgeDefinition) : String → Type 0 where
  ends :
      (a : String)
      → ((b : String) → In b (unbounded_targets (outgoing edges a)) → Ends edges b)
      → Ends edges a

abbrev OnColored : (Colors → Type 0) → Visit → Type 0
OnColored P out = Unit
OnColored P cycle = Unit
OnColored P (colored c) = P c

OnColored-and_then :
    (P Q : Colors → Type 0) (v : Visit) (f : Colors → Visit)
    → OnColored P v
    → ((c : Colors) → P c → OnColored Q (f c))
    → OnColored Q (and_then v f)
OnColored-and_then P Q out f h k = tt
OnColored-and_then P Q cycle f h k = tt
OnColored-and_then P Q (colored c) f h k = k c h

-- From a black node every way ends.
abbrev BlackEnds : List EdgeDefinition → Colors → Type 0
BlackEnds edges c = (x : String) → color x c ≡ 2 → Ends edges x

abbrev Grows : Colors → Colors → Type 0
Grows c c' = (x : String) → color x c ≡ 2 → color x c' ≡ 2

abbrev Black : List String → Colors → Type 0
Black ts c = (t : String) → In t ts → color t c ≡ 2

abbrev Visited : List EdgeDefinition → List String → Colors → Colors → Type 0
Visited edges ts c c' = BlackEnds edges c' × Grows c c' × Black ts c'

-- What a call of `visit` has to do for one node, whatever its fuel.
abbrev Sound : List EdgeDefinition → (String → Colors → Visit) → Type 0
Sound edges go =
    (id : String) (c : Colors) → BlackEnds edges c → OnColored (Visited edges (id ∷ []) c) (go id c)

module _ (edges : List EdgeDefinition) where
  Visited-cons :
      (t : String) (ts : List String) (c c' c'' : Colors)
      → Visited edges (t ∷ []) c c'
      → Visited edges ts c' c''
      → Visited edges (t ∷ ts) c c''
  Visited-cons t ts c c' c'' (b', g, here_black) (b'', g', rest_black) = (
    b'',
    λ x h. g' x (g x h),
    λ x i. elim (In-cons i) [ inl e ↦ g' x (here_black x (here e)) | inr j ↦ rest_black x j ],
  )

  OnColored-map :
      (P Q : Colors → Type 0) (v : Visit)
      → ((c : Colors) → P c → Q c)
      → OnColored P v
      → OnColored Q v
  OnColored-map P Q out f h = tt
  OnColored-map P Q cycle f h = tt
  OnColored-map P Q (colored c) f h = f c h

  visit_all-Sound :
      (go : String → Colors → Visit)
      → Sound edges go
      → (ts : List String) (c : Colors) → BlackEnds edges c
      → OnColored (Visited edges ts c) (visit_all go ts c)
  unfolding visit_all
  visit_all-Sound go sound [] c b = (b, λ x h. h, λ t i. absurd (In-nil i))
  visit_all-Sound go sound (t ∷ ts) c b =
      OnColored-and_then (Visited edges (t ∷ []) c) (Visited edges (t ∷ ts) c) (go t c)
        (visit_all go ts) (sound t c b)
        λ c' v.
          OnColored-map (Visited edges ts c') (Visited edges (t ∷ ts) c) (visit_all go ts c')
            (λ c'' w. Visited-cons t ts c c' c'' v w) (visit_all-Sound go sound ts c' v.0)

  -- Painting the node grey, visiting its targets and painting it black.
  black_node :
      (id : String) (c c' : Colors)
      → (color id c == 2) ≡ false
      → BlackEnds edges c
      → Visited edges (unbounded_targets (outgoing edges id)) (insert id 1 c) c'
      → Visited edges (id ∷ []) c (insert id 2 c')
  black_node id c c' white b (b', g, targets_black) = (
    λ x h. elim (Bool-cases (str_eq id x)) [
      | inl same ↦
          subst (Ends edges) ((eq_iff id x).0 same) (ends id (λ t i. b' t (targets_black t i)))
      | inr other ↦ b' x (ground (arith, color-insert id x 2 c'))
    ],
    λ x h. ground (arith, color-insert id x 2 c', g x (insert-black id x 1 c white h)),
    λ x i. elim (In-cons i) [
      | inl e ↦ ground (arith, color-insert id x 2 c', eq_iff id x, e)
      | inr j ↦ absurd (In-nil j)
    ],
  )

  grey_BlackEnds : (id : String) (c : Colors) → BlackEnds edges c → BlackEnds edges (insert id 1 c)
  grey_BlackEnds id c b x h = b x (ground (arith, color-insert id x 1 c, h))

  pub visit-Sound : (fuel : ℕ) → Sound edges (visit edges fuel)
  unfolding visit
  visit-Sound zero id c b = tt
  visit-Sound (suc fuel) id c b = elim (Bool-cases (color id c == 1)) [
    | inl grey ↦ rw (visit_grey edges fuel id c grey) tt
    | inr other ↦ elim (Bool-cases (color id c == 2)) [
      | inl black ↦
          rw (visit_black edges fuel id c other black) (b, λ x h. h, λ x i. only_here x black i)
      | inr white ↦ rw (visit_white edges fuel id c other white) (
          OnColored-and_then (Visited edges (unbounded_targets (outgoing edges id)) (insert id 1 c))
            (Visited edges (id ∷ []) c)
            (visit_all (visit edges fuel) (unbounded_targets (outgoing edges id)) (insert id 1 c))
            (λ c'. colored (insert id 2 c'))
            (visit_all-Sound (visit edges fuel) (visit-Sound fuel)
              (unbounded_targets (outgoing edges id)) (insert id 1 c) (grey_BlackEnds id c b))
            (λ c' v. black_node id c c' white b v))
    ]
  ]
    where
      only_here : (x : String) → (color id c == 2) ≡ true → In x (id ∷ []) → color x c ≡ 2
      only_here x black i = elim (In-cons i) [
        | inl e ↦ rw e ((==_iff (color id c) 2).0 black)
        | inr j ↦ absurd (In-nil j)
      ]

-- An edge with no bound, and a way along such edges.
pub record Free (edges : List EdgeDefinition) (a b : String) : Type 0 where
  pub edge : EdgeDefinition
  pub is_edge : In edge edges
  pub leaves : edge.from ≡ a
  pub enters : edge.to ≡ b
  pub unbounded : edge.max_iterations ≡ 0

pub data Way (edges : List EdgeDefinition) : String → String → Type 0 where
  last : {a b : String} → Free edges a b → Way edges a b
  step : {a b c : String} → Free edges a b → Way edges b c → Way edges a c

In-unbounded_targets :
    (edges : List EdgeDefinition) (e : EdgeDefinition) (a : String)
    → In e edges
    → e.from ≡ a
    → e.max_iterations ≡ 0
    → In e.to (unbounded_targets (outgoing edges a))
unfolding unbounded_targets outgoing
In-unbounded_targets [] e a i f h = absurd (In-nil i)
In-unbounded_targets (d ∷ ds) e a i f h = elim (In-cons i) [
  | inl same ↦
      let from_here : str_eq d.from a ≡ true = (eq_iff d.from a).1 (cc) in
      let free : (d.max_iterations == 0) ≡ true = ground arith in
      rw (from_here, free) (here (ap (λ x. x.to) same))
  | inr later ↦
      skip (str_eq d.from a) (d.max_iterations == 0) (In-unbounded_targets ds e a later f h)
]
  where
    keep :
        (y : String) (ts : List String) (free : Bool)
        → In e.to ts
        → In e.to (if free then y ∷ ts else ts)
    keep y ts true j = there j
    keep y ts false j = j

    skip :
        (from_here free : Bool)
        → In e.to (unbounded_targets (outgoing ds a))
        → In e.to (unbounded_targets (if from_here then d ∷ outgoing ds a else outgoing ds a))
    skip true free j = keep d.to _ (d.max_iterations == 0) j
    skip false free j = j

pub concat :
    (edges : List EdgeDefinition) (a b c : String) → Way edges a b → Free edges b c → Way edges a c
concat edges a b c (last f) g = step f (last g)
concat edges a b c (step {b = m} f w) g = step f (concat edges m b c w g)

pub Free-In :
    (edges : List EdgeDefinition) (a b : String)
    → Free edges a b
    → In b (unbounded_targets (outgoing edges a))
Free-In edges a b f =
    subst (λ x. In x (unbounded_targets (outgoing edges a))) f.enters
      (In-unbounded_targets edges f.edge a f.is_edge f.leaves f.unbounded)

-- A node from which every way ends lies on no way back to itself.
pub Ends-acyclic : (edges : List EdgeDefinition) (a : String) → Ends edges a → Way edges a a → ⊥
Ends-acyclic edges a (ends _ next) (last f) =
    Ends-acyclic edges a (next a (Free-In edges a a f)) (last f)
Ends-acyclic edges a (ends _ next) (step {b = m} f w) =
    Ends-acyclic edges m (next m (Free-In edges a m f)) (concat edges m a m w f)

-- Where the search over the nodes returns, every way from each of them ends.
pub visit_all-Ends :
    (edges : List EdgeDefinition) (fuel : ℕ) (nodes : List String) {c : Colors}
    → visit_all (visit edges fuel) nodes [] ≡ colored c
    → (a : String) → In a nodes
    → Ends edges a
visit_all-Ends edges fuel nodes {c} h a i =
    let visited : Visited edges nodes [] c =
      rw h at
        (visit_all-Sound edges (visit edges fuel) (visit-Sound edges fuel) nodes [] none_black) in
    visited.0 a (visited.2 a i)
  where
    none_black : BlackEnds edges []
    none_black x e = absurd (unfold color lookup in (omega arith))
