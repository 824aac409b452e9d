-- ===== src/Maps.antt =====
-- Maps: the std::map values that src/runtime/graph.cpp and src/pipeline/parser.cpp read and write.
use Prim.Native.Nat.{compare, Ordering}
use laso.Base.{
  true, false, ℕ, suc, ◌+◌, ◌≤◌, ◌<◌, String, ◌≡◌, refl, ◌≢◌, ◌↔◌, Option, none, some, List, [],
  ◌∷◌, map, arith, ◌==◌, str_eq, eq_iff, OnSome, map_option, get_elem?, length, if◌then◌else◌,
}

module _ {ℓ} {V : Type ℓ} where
  -- A map with texts as keys; no code iterates over one, so the order of its entries is free.
  unfoldable pub lookup : String → List (String × V) → Option V
  lookup k [] = none
  lookup k ((j, v) ∷ m) = if str_eq j k then some v else lookup k m

  -- `m[key] = new`
  unfoldable pub insert : (key : String) (new : V) → List (String × V) → List (String × V)
  insert key new [] = (key, new) ∷ []
  insert key new ((j, old) ∷ rest) = elim (str_eq j key) [
    | true ↦ (key, new) ∷ rest
    | false ↦ (j, old) ∷ insert key new rest
  ]

  -- `m.erase(k)`
  unfoldable pub erase : String → List (String × V) → List (String × V)
  erase k [] = []
  erase k ((j, v) ∷ m) = if str_eq j k then erase k m else (j, v) ∷ erase k m

  -- A std::map<unsigned, V>, in the ascending order of iteration. `emplace` fails on a key that is
  -- there already.
  unfoldable pub emplace : ℕ → V → List (ℕ × V) → Option (List (ℕ × V))
  emplace k v [] = some ((k, v) ∷ [])
  emplace k v ((j, w) ∷ m) = elim (compare k j) [
    | Ordering.lt ↦ some ((k, v) ∷ (j, w) ∷ m)
    | Ordering.eq ↦ none
    | Ordering.gt ↦ elim (emplace k v m) [ none ↦ none | some m' ↦ some ((j, w) ∷ m') ]
  ]

  unfoldable pub find_key : ℕ → List (ℕ × V) → Option V
  find_key k [] = none
  find_key k ((j, w) ∷ m) = if j == k then some w else find_key k m

module _ {ℓ} {V : Type ℓ} where
  pub lookup-insert :
      (key j : String) (new : V) (m : List (String × V))
      → lookup j (insert key new m) ≡ (if str_eq key j then some new else lookup j m)
  unfolding insert lookup
  lookup-insert key j new [] = refl
  lookup-insert key j new ((other, old) ∷ rest) =
      ground (arith, lookup-insert key j new rest, eq_iff other key, eq_iff other j, eq_iff key j)

  pub lookup-erase :
      (k j : String) (m : List (String × V))
      → lookup j (erase k m) ≡ (if str_eq k j then none else lookup j m)
  unfolding lookup erase
  lookup-erase k j [] = ground arith
  lookup-erase k j ((i, w) ∷ m) =
      ground (arith, eq_iff k j, eq_iff i k, eq_iff i j, lookup-erase k j m)

  -- The keys ascend, from `lo` on and below `hi`.
  abbrev pub Ascending : ℕ → ℕ → List (ℕ × V) → Type 0
  Ascending lo hi [] = Unit
  Ascending lo hi ((k, v) ∷ m) = (lo ≤ k) × (k < hi) × Ascending (suc k) hi m

  Ascending-mono :
      (lo lo' hi : ℕ) (m : List (ℕ × V)) → lo' ≤ lo → Ascending lo hi m → Ascending lo' hi m
  Ascending-mono lo lo' hi [] h a = tt
  Ascending-mono lo lo' hi ((k, v) ∷ m) h a = (omega arith, a.1, a.2)

  Ascending-emplace' :
      (lo hi k : ℕ) (v : V) (m : List (ℕ × V))
      → Ascending lo hi m
      → lo ≤ k
      → k < hi
      → OnSome (Ascending lo hi) (emplace k v m)
  unfolding emplace
  Ascending-emplace' lo hi k v [] a l h = ground arith
  Ascending-emplace' lo hi k v ((j, w) ∷ m) a l h =
      ground (arith, Ascending-emplace' (suc j) hi k v m a.2)

  -- A successful `emplace` keeps the ascending order and the bounds.
  pub Ascending-emplace :
      (lo hi k : ℕ) (v : V) (m m' : List (ℕ × V))
      → Ascending lo hi m
      → lo ≤ k
      → k < hi
      → emplace k v m ≡ some m'
      → Ascending lo hi m'
  Ascending-emplace lo hi k v m m' a l h e = rw e at (Ascending-emplace' lo hi k v m a l h)

  find_key-emplace' :
      (k i : ℕ) (v : V) (m : List (ℕ × V))
      → OnSome (λ m'. find_key i m' ≡ (if k == i then some v else find_key i m)) (emplace k v m)
  unfolding emplace find_key
  find_key-emplace' k i v [] = ground arith
  find_key-emplace' k i v ((j, w) ∷ m) = ground (arith, find_key-emplace' k i v m)

  pub find_key-emplace :
      (k i : ℕ) (v : V) (m m' : List (ℕ × V))
      → emplace k v m ≡ some m'
      → find_key i m' ≡ (if k == i then some v else find_key i m)
  find_key-emplace k i v m m' e = rw e at (find_key-emplace' k i v m)

  length-emplace' :
      (k : ℕ) (v : V) (m : List (ℕ × V)) → OnSome (λ m'. length m' ≡ suc (length m)) (emplace k v m)
  unfolding emplace
  length-emplace' k v [] = refl
  length-emplace' k v ((j, w) ∷ m) = ground (arith, length-emplace' k v m)

  pub length-emplace :
      (k : ℕ) (v : V) (m m' : List (ℕ × V)) → emplace k v m ≡ some m' → length m' ≡ suc (length m)
  length-emplace k v m m' e = rw e at (length-emplace' k v m)

  find_key_below :
      (lo hi i : ℕ) (m : List (ℕ × V)) → Ascending lo hi m → i < lo → find_key i m ≡ none
  unfolding find_key
  find_key_below lo hi i [] a h = refl
  find_key_below lo hi i ((k, v) ∷ m) a h = ground (arith, find_key_below (suc k) hi i m a.2)

  -- `emplace` fails exactly on a key that is there.
  pub emplace-none :
      (lo hi k : ℕ) (v : V) (m : List (ℕ × V))
      → Ascending lo hi m
      → (emplace k v m ≡ none) ↔ (find_key k m ≢ none)
  unfolding emplace find_key
  emplace-none lo hi k v [] a = ground arith
  emplace-none lo hi k v ((j, w) ∷ m) a =
      ground (arith, emplace-none (suc j) hi k v m a.2, find_key_below (suc j) hi k m a.2)

  pub length-Ascending :
      (lo hi : ℕ) (m : List (ℕ × V)) → lo ≤ hi → Ascending lo hi m → length m + lo ≤ hi
  length-Ascending lo hi [] l a = omega arith
  length-Ascending lo hi ((k, v) ∷ m) l a = omega (arith, length-Ascending (suc k) hi m a.1 a.2)

  -- As many keys as there are places: the entry at place `i` is that of key `lo + i`.
  pub get_elem?-full {κ} :
      {W : Type κ} (g : V → W) (lo hi i : ℕ) (m : List (ℕ × V))
      → lo ≤ hi
      → Ascending lo hi m
      → length m + lo ≡ hi
      → get_elem? (map (λ (e : ℕ × V). g e.1) m) i ≡ map_option g (find_key (lo + i) m)
  unfolding find_key
  get_elem?-full g lo hi i [] l a e = refl
  get_elem?-full g lo hi ℕ.zero ((k, v) ∷ m) l a e =
      ground (arith, length-Ascending (suc k) hi m a.1 a.2)
  get_elem?-full g lo hi (suc i) ((k, v) ∷ m) l a e =
      ground (arith, length-Ascending (suc k) hi m a.1 a.2, get_elem?-full g (suc k) hi i m a.1 a.2)
