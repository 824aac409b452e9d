-- ===== src/Pipeline/Search/Reach.antt =====
-- src/pipeline/parser.cpp, `reach`: it collects the nodes that the input leads to, and no other.
use laso.Base.{
  ℕ, zero, suc, String, ◌≡◌, refl, sym, ap, subst, ◌⊎◌, inl, inr, true, false, Option, none, some,
  List, [], ◌∷◌, str_eq, eq_iff, Bool-cases, Option-cases, In, here, there, In-nil, In-cons,
}
use laso.Core.Data.{EdgeDefinition}
use laso.Pipeline.Validate.{outgoing, member}
use laso.Pipeline.Search.{targets, reach_all, reach}
use laso.Pipeline.Search.Distinct.{In-member, Distinct, Within}

-- An edge between two nodes, bounded or not, and the nodes that a node leads to.
pub record Hop (edges : List EdgeDefinition) (a b : String) : Type 0 where
  pub edge : EdgeDefinition
  pub is_edge : In edge edges
  pub leaves : edge.from ≡ a
  pub enters : edge.to ≡ b

pub data Leads (edges : List EdgeDefinition) (a : String) : String → Type 0 where
  stay : Leads edges a a
  onward : {b c : String} → Leads edges a b → Hop edges b c → Leads edges a c

widen :
    (e : EdgeDefinition) (es : List EdgeDefinition) (a b : String) → Hop es a b → Hop (e ∷ es) a b
widen e es a b f = record {
  edge = f.edge;
  is_edge = there f.is_edge;
  leaves = f.leaves;
  enters = f.enters;
}

pub Hop-of-In :
    (edges : List EdgeDefinition) (a b : String) → In b (targets (outgoing edges a)) → Hop edges a b
unfolding targets outgoing
Hop-of-In [] a b i = absurd (In-nil i)
Hop-of-In (e ∷ es) a b i = elim (Bool-cases (str_eq e.from a)) [
  | inl from_here ↦ elim (In-cons (rw from_here at i)) [
    | inl same ↦ record {
      edge = e;
      is_edge = here refl;
      leaves = (eq_iff e.from a).0 from_here;
      enters = sym same;
    }
    | inr j ↦ widen e es a b (Hop-of-In es a b j)
  ]
  | inr other ↦ widen e es a b (Hop-of-In es a b (rw other at i))
]

In-targets :
    (edges : List EdgeDefinition) (e : EdgeDefinition) (a : String)
    → In e edges
    → e.from ≡ a
    → In e.to (targets (outgoing edges a))
unfolding targets outgoing
In-targets [] e a i f = absurd (In-nil i)
In-targets (d ∷ ds) e a i f = elim (In-cons i) [
  | inl same ↦
      let from_here : str_eq d.from a ≡ true = (eq_iff d.from a).1 (cc) in
      rw from_here (here (ap (λ x. x.to) same))
  | inr later ↦ elim (Bool-cases (str_eq d.from a)) [
    | inl from_here ↦ rw from_here (there (In-targets ds e a later f))
    | inr other ↦ rw other (In-targets ds e a later f)
  ]
]

pub Hop-In :
    (edges : List EdgeDefinition) (a b : String) → Hop edges a b → In b (targets (outgoing edges a))
Hop-In edges a b f =
    subst (λ x. In x (targets (outgoing edges a))) f.enters
      (In-targets edges f.edge a f.is_edge f.leaves)

Leads-from :
    (edges : List EdgeDefinition) (a b c : String)
    → Hop edges a b
    → Leads edges b c
    → Leads edges a c
Leads-from edges a b c h stay = onward stay h
Leads-from edges a b c h (onward {b = m} l g) = onward (Leads-from edges a b m h l) g

-- The two ways of a call of `reach`.
pub reach-seen :
    (edges : List EdgeDefinition) (fuel : ℕ) (id : String) (seen : List String)
    → member id seen ≡ true
    → reach edges (suc fuel) id seen ≡ some seen
unfolding reach
reach-seen edges fuel id seen h = rw (h, reach)

pub reach-new :
    (edges : List EdgeDefinition) (fuel : ℕ) (id : String) (seen : List String)
    → member id seen ≡ false
    → reach edges (suc fuel) id seen
      ≡ reach_all (reach edges fuel) (targets (outgoing edges id)) (id ∷ seen)
unfolding reach
reach-new edges fuel id seen h = rw (h, reach)

pub reach_all-none :
    (go : String → List String → Option (List String)) (t : String) (ts seen : List String)
    → go t seen ≡ none
    → reach_all go (t ∷ ts) seen ≡ none
unfolding reach_all
reach_all-none go t ts seen h = rw (h, reach_all)

pub reach_all-some :
    (go : String → List String → Option (List String)) (t : String) (ts seen mid : List String)
    → go t seen ≡ some mid
    → reach_all go (t ∷ ts) seen ≡ reach_all go ts mid
unfolding reach_all
reach_all-some go t ts seen mid h = rw (h, reach_all)

module _ (edges : List EdgeDefinition) where
  abbrev pub Expanded : String → List String → Type 0
  Expanded x seen = Within (targets (outgoing edges x)) seen

  -- What a search for the nodes `ts` adds to the nodes that were seen.
  pub record Reached (ts seen seen' : List String) : Type 0 where
    pub kept : Within seen seen'
    pub entered : Within ts seen'
    pub expanded : (x : String) → In x seen' → In x seen ⊎ Expanded x seen'
    pub led : (x : String) → In x seen' → In x seen ⊎ ((t : String) × In t ts × Leads edges t x)
    pub distinct : Distinct seen → Distinct seen'

  abbrev pub Post : List String → List String → Option (List String) → Type 0
  Post ts seen none = Unit
  Post ts seen (some seen') = Reached ts seen seen'

  abbrev pub Collects : (String → List String → Option (List String)) → Type 0
  Collects go = (id : String) (seen : List String) → Post (id ∷ []) seen (go id seen)

  Reached-nil : (seen : List String) → Reached [] seen seen
  Reached-nil seen = record {
    kept = λ x i. i;
    entered = λ x i. absurd (In-nil i);
    expanded = λ x i. inl i;
    led = λ x i. inl i;
    distinct = λ d. d;
  }

  Reached-cons :
      (t : String) (ts seen mid seen' : List String)
      → Reached (t ∷ []) seen mid
      → Reached ts mid seen'
      → Reached (t ∷ ts) seen seen'
  Reached-cons t ts seen mid seen' r s = record {
    kept = λ x i. s.kept x (r.kept x i);
    entered =
        λ x i. elim (In-cons i) [ inl e ↦ s.kept x (r.entered x (here e)) | inr j ↦ s.entered x j ];
    expanded = λ x i. elim (s.expanded x i) [
      | inl j ↦ elim (r.expanded x j) [ inl k ↦ inl k | inr k ↦ inr (λ y l. s.kept y (k y l)) ]
      | inr j ↦ inr j
    ];
    led = λ x i. elim (s.led x i) [
      | inl j ↦ elim (r.led x j) [
        | inl k ↦ inl k
        | inr (u, k, l) ↦
            inr (u, elim (In-cons k) [ inl e ↦ here e | inr n ↦ absurd (In-nil n) ], l)
      ]
      | inr (u, k, l) ↦ inr (u, there k, l)
    ];
    distinct = λ d. s.distinct (r.distinct d);
  }

  -- The node itself, its targets being collected.
  Reached-node :
      (id : String) (seen seen' : List String)
      → member id seen ≡ false
      → Reached (targets (outgoing edges id)) (id ∷ seen) seen'
      → Reached (id ∷ []) seen seen'
  Reached-node id seen seen' fresh r = record {
    kept = λ x i. r.kept x (there i);
    entered = λ x i. elim (In-cons i) [ inl e ↦ r.kept x (here e) | inr j ↦ absurd (In-nil j) ];
    expanded = λ x i. elim (r.expanded x i) [
      | inl j ↦ elim (In-cons j) [
        | inl e ↦ inr (λ y k. r.entered y (subst (λ z. In y (targets (outgoing edges z))) e k))
        | inr k ↦ inl k
      ]
      | inr j ↦ inr j
    ];
    led = λ x i. elim (r.led x i) [
      | inl j ↦ elim (In-cons j) [
        | inl e ↦ inr (id, here refl, subst (λ z. Leads edges id z) (sym e) stay)
        | inr k ↦ inl k
      ]
      | inr (t, k, l) ↦ inr (id, here refl, Leads-from edges id t x (Hop-of-In edges id t k) l)
    ];
    distinct = λ d. r.distinct (fresh, d);
  }

  Post-cons :
      (t : String) (ts seen mid : List String) (o : Option (List String))
      → Reached (t ∷ []) seen mid
      → Post ts mid o
      → Post (t ∷ ts) seen o
  Post-cons t ts seen mid none r s = tt
  Post-cons t ts seen mid (some seen') r s = Reached-cons t ts seen mid seen' r s

  reach_all-Post :
      (go : String → List String → Option (List String))
      → Collects go
      → (ts seen : List String) → Post ts seen (reach_all go ts seen)
  unfolding reach_all
  reach_all-Post go collects [] seen = Reached-nil seen
  reach_all-Post go collects (t ∷ ts) seen = elim (Option-cases (go t seen)) [
    | inl e ↦ rw (reach_all-none go t ts seen e) tt
    | inr (mid, e) ↦ rw (reach_all-some go t ts seen mid e) (
        Post-cons t ts seen mid (reach_all go ts mid) (rw e at (collects t seen))
          (reach_all-Post go collects ts mid))
  ]

  pub reach-Post : (fuel : ℕ) → Collects (reach edges fuel)
  unfolding reach
  reach-Post zero id seen = tt
  reach-Post (suc fuel) id seen = elim (Bool-cases (member id seen)) [
    | inl old ↦ rw (reach-seen edges fuel id seen old) record {
      kept = λ x i. i;
      entered = λ x i. elim (In-cons i) [
        | inl e ↦ subst (λ z. In z seen) (sym e) (In-member id seen old)
        | inr j ↦ absurd (In-nil j)
      ];
      expanded = λ x i. inl i;
      led = λ x i. inl i;
      distinct = λ d. d;
    }
    | inr fresh ↦ rw (reach-new edges fuel id seen fresh) (
        wrap (reach_all (reach edges fuel) (targets (outgoing edges id)) (id ∷ seen)) fresh (
          reach_all-Post (reach edges fuel) (reach-Post fuel) (targets (outgoing edges id))
            (id ∷ seen)))
  ]
    where
      wrap :
          (o : Option (List String))
          → member id seen ≡ false
          → Post (targets (outgoing edges id)) (id ∷ seen) o
          → Post (id ∷ []) seen o
      wrap none fresh p = tt
      wrap (some seen') fresh p = Reached-node id seen seen' fresh p
