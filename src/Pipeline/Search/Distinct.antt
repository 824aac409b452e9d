-- ===== src/Pipeline/Search/Distinct.antt =====
-- Lists of texts without repetition, which stand for std::set<std::string> in the search `reach`.
use laso.Base.{
  suc, ◌≤◌, String, ◌≡◌, refl, sym, ap, subst, ◌⊎◌, inl, inr, true, false, List, [], ◌∷◌, arith,
  str_eq, eq_iff, Bool-cases, In, here, there, In-nil, In-cons, length,
}
use laso.Pipeline.Validate.{member}

pub In-member : (x : String) (xs : List String) → member x xs ≡ true → In x xs
In-member x [] h = absurd (ground arith)
In-member x (y ∷ ys) h = elim (Bool-cases (str_eq y x)) [
  | inl same ↦ here (sym ((eq_iff y x).0 same))
  | inr other ↦ there (In-member x ys (rw other at h))
]

pub member-In : (x : String) (xs : List String) → In x xs → member x xs ≡ true
member-In x [] i = absurd (In-nil i)
member-In x (y ∷ ys) i = elim (In-cons i) [
  | inl e ↦ ground (arith, eq_iff y x, e)
  | inr j ↦ ground (arith, member-In x ys j)
]

pub not-In : (x : String) (xs : List String) → member x xs ≡ false → (In x xs → ⊥)
not-In x xs h i = ground (arith, h, member-In x xs i)

abbrev pub Distinct : List String → Type 0
Distinct [] = Unit
Distinct (x ∷ xs) = (member x xs ≡ false) × Distinct xs

abbrev pub Within : List String → List String → Type 0
Within xs ys = (x : String) → In x xs → In x ys

-- A list less one place of a value.
record Rest (x : String) (ys : List String) : Type 0 where
  rest : List String
  shorter : length ys ≡ suc (length rest)
  splits : (y : String) → In y ys → (y ≡ x) ⊎ In y rest

take_out : (x : String) (ys : List String) → In x ys → Rest x ys
take_out x [] i = absurd (In-nil i)
take_out x (y ∷ ys) i = elim (In-cons i) [
  | inl e ↦ record {
    rest = ys;
    shorter = refl;
    splits = λ z j. elim (In-cons j) [ inl f ↦ inl (cc) | inr k ↦ inr k ];
  }
  | inr j ↦
      let r = take_out x ys j in
      record {
        rest = y ∷ r.rest;
        shorter = ap suc r.shorter;
        splits = λ z k. elim (In-cons k) [
          | inl f ↦ inr (here f)
          | inr l ↦ elim (r.splits z l) [ inl f ↦ inl f | inr m ↦ inr (there m) ]
        ];
      }
]

inside_rest :
    (x : String) (xs ys : List String) (r : Rest x ys)
    → member x xs ≡ false
    → ((z : String) → In z xs → In z ys)
    → Within xs r.rest
inside_rest x xs ys r fresh within z i = elim (r.splits z (within z i)) [
  | inl e ↦ absurd (not-In x xs fresh (subst (λ w. In w xs) e i))
  | inr j ↦ j
]

pub length-Within : (xs ys : List String) → Distinct xs → Within xs ys → length xs ≤ length ys
length-Within [] ys d within = omega arith
length-Within (x ∷ xs) ys (fresh, d) within =
    let r = take_out x ys (within x (here refl)) in
    omega (
      arith,
      r.shorter,
      length-Within xs r.rest d (inside_rest x xs ys r fresh (λ z i. within z (there i))),
    )

-- A list without repetition that fills a list holds all of it.
pub Within-full :
    (xs ys : List String) → Distinct xs → Within xs ys → length ys ≤ length xs → Within ys xs
Within-full [] [] d within l y i = i
Within-full [] (z ∷ ys) d within l y i = absurd (omega (arith, l))
Within-full (x ∷ xs) ys (fresh, d) within l y i =
    let r = take_out x ys (within x (here refl)) in
    elim (r.splits y i) [
      | inl e ↦ here e
      | inr j ↦ there (
          Within-full xs r.rest d (inside_rest x xs ys r fresh (λ z k. within z (there k)))
            (omega (arith, r.shorter)) y j)
    ]
