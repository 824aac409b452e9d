-- ===== src/Pipeline/Search/Colors.antt =====
-- src/pipeline/parser.cpp, `visit`: the colors of the nodes.
use laso.Base.{ℕ, suc, String, List, ◌≡◌, true, false, arith, ◌==◌, str_eq, eq_iff, if◌then◌else◌}
use laso.Core.Data.{EdgeDefinition}
use laso.Pipeline.Validate.{outgoing}
use laso.Maps.{insert, lookup-insert}
use laso.Pipeline.Search.{
  Colors, color, unbounded_targets, cycle, colored, and_then, visit_all, visit,
}

pub color-insert :
    (k x : String) (v : ℕ) (c : Colors)
    → color x (insert k v c) ≡ (if str_eq k x then v else color x c)
unfolding color
color-insert k x v c = ground (arith, lookup-insert k x v c)

-- Painting a node that is not black keeps every black node black.
pub insert-black :
    (k x : String) (v : ℕ) (c : Colors)
    → (color k c == 2) ≡ false
    → color x c ≡ 2
    → color x (insert k v c) ≡ 2
insert-black k x v c h b = ground (arith, color-insert k x v c, eq_iff k x)

-- The three ways of a call of `visit`.
pub visit_grey :
    (edges : List EdgeDefinition) (fuel : ℕ) (id : String) (c : Colors)
    → (color id c == 1) ≡ true
    → visit edges (suc fuel) id c ≡ cycle
unfolding visit
visit_grey edges fuel id c h = rw (h, visit)

pub visit_black :
    (edges : List EdgeDefinition) (fuel : ℕ) (id : String) (c : Colors)
    → (color id c == 1) ≡ false
    → (color id c == 2) ≡ true
    → visit edges (suc fuel) id c ≡ colored c
unfolding visit
visit_black edges fuel id c g h = ground arith

pub visit_white :
    (edges : List EdgeDefinition) (fuel : ℕ) (id : String) (c : Colors)
    → (color id c == 1) ≡ false
    → (color id c == 2) ≡ false
    → visit edges (suc fuel) id c
      ≡ and_then
          (visit_all (visit edges fuel) (unbounded_targets (outgoing edges id)) (insert id 1 c))
          (λ c'. colored (insert id 2 c'))
unfolding visit
visit_white edges fuel id c g h = ground arith
