-- ===== src/Runtime/Join/Order.antt =====
-- src/runtime/graph.cpp, `prepare_join`: what the branches of a parallel group find at their join.
use Prim.Native.Nat.add
use laso.Base.{
  ℕ, ◌+◌, ◌<◌, String, ◌≡◌, ap, ◌∙◌, ◌≢◌, inl, inr, true, false, none, some, List, [], ◌∷◌, map,
  arith, ◌==◌, str_eq, eq_refl, length, length-map, get_elem?, Option-cases, map_option,
  if◌then◌else◌,
}
use laso.Core.Errors.{ErrorCode, Result, ok, throw, ◌>>=◌}
use laso.Core.Data.{Message, NodeDefinition, BranchFrame, ExecutionToken, Run}
use laso.Maps.{
  lookup, emplace, insert, find_key, lookup-insert, lookup-erase, Ascending, Ascending-emplace,
  find_key-emplace, length-emplace, emplace-none, get_elem?-full,
}
use laso.Runtime.Ready.{is_empty, or_else, back, pop_back}
use laso.Runtime.Join.{prepare_join}

-- The messages of the frame's group that have arrived so far.
abbrev pub stored : {M : Type 0} → Run M → BranchFrame → List (ℕ × M)
stored r frame = or_else [] (lookup frame.group r.joins)

-- The node and the tokens that are left when the first ready token is taken.
-- Where a run stands: its node, message and frames, the tokens that wait, and the join it has prepared.
abbrev pub Place : Type 0 → Type 0
Place M = String × M × List BranchFrame × List (ExecutionToken M) × String

abbrev pub place : {M : Type 0} → Run M → Place M
place r = (r.active_node, r.message, r.frames, r.ready, r.prepared_join)

-- The place of the first token that waits; without one the run stays where it is.
abbrev pub next_place : {M : Type 0} → Run M → Place M
next_place r = elim r.ready [
  | [] ↦ (r.active_node, r.message, r.frames, [], r.prepared_join)
  | token ∷ rest ↦ (token.node_id, token.message, token.frames, rest, "")
]

-- A run that comes to the join `n` in the branch of `frame`.
pub record IsAtJoin {Json M : Type 0} (r : Run M) (n : NodeDefinition Json) (frame : BranchFrame)
    : Type 0 where
  pub kind : str_eq n.type "join" ≡ true
  pub fresh : str_eq r.prepared_join n.id ≡ false
  pub innermost : back r.frames ≡ some frame
  pub matching : str_eq frame.join n.id ≡ true
  pub ordered : Ascending 0 frame.width (stored r frame)
  pub within : frame.index < frame.width

module _ {Json Confidence : Type 0} (array : List Json → Json)
    (checkpoint : Run (Message Json Confidence) → Result (Unit {0}))
    (r : Run (Message Json Confidence)) (n : NodeDefinition Json) (frame : BranchFrame)
    (at_join : IsAtJoin r n frame) where
  -- What the arrival leaves, for the map with the branch's message in it.
  arrival :
      (arrived : List (ℕ × Message Json Confidence))
      → emplace frame.index r.message (stored r frame) ≡ some arrived
      → length arrived ≡ frame.width
      → let (r', result) = prepare_join array checkpoint r n in
        (result ≡ ok true)
        × (r'.prepared_join ≡ n.id)
        × (r'.frames ≡ pop_back r.frames)
        × (lookup frame.group r'.joins ≡ none)
        × (r'.message.payload
            ≡ array (map (λ (e : ℕ × Message Json Confidence). e.1.payload) arrived))
  unfolding prepare_join
  arrival arrived e l = ground (
    arith,
    at_join,
    lookup-erase frame.group frame.group (insert frame.group arrived r.joins),
    eq_refl frame.group,
  )

  abbrev payload_of : Message Json Confidence → Json
  payload_of m = m.payload

  emplaced :
      find_key frame.index (stored r frame) ≡ none
      → (arrived : List (ℕ × Message Json Confidence)) × (emplace frame.index r.message
            (stored r frame)
          ≡ some arrived)
  emplaced first = elim (Option-cases (emplace frame.index r.message (stored r frame))) [
    | inl e ↦ absurd (
        (emplace-none 0 frame.width frame.index r.message (stored r frame) at_join.ordered).0 e
          first)
    | inr found ↦ found
  ]

  -- A run comes to a join in a branch of that join, with an index below the width of its group, and
  -- the group's earlier messages stand in ascending order of indices below the width. If the index
  -- is new and completes the width, the join is complete: the group is forgotten, the innermost
  -- frame is left, and the payload becomes the array of the branches' payloads in the order of the
  -- branches' indices, whatever the order in which they arrived.
  pub join_completes :
      find_key frame.index (stored r frame) ≡ none
      → length (stored r frame) + 1 ≡ frame.width
      → let (r', result) = prepare_join array checkpoint r n in
        (result ≡ ok true)
        × (r'.prepared_join ≡ n.id)
        × (r'.frames ≡ pop_back r.frames)
        × (lookup frame.group r'.joins ≡ none)
        × ((payloads : List Json) × (r'.message.payload ≡ array payloads)
            × (length payloads ≡ frame.width)
            × ((i : ℕ)
                → get_elem? payloads i
                  ≡ map_option payload_of
                      (if frame.index == i then some r.message else find_key i (stored r frame))))
  join_completes first last =
      let (arrived, e) = emplaced first in
      let size = length-emplace frame.index r.message (stored r frame) arrived e in
      let full : length arrived ≡ frame.width = omega (arith, size) in
      let (done, prepared, left, gone, payload) = arrival arrived e full in
      (
        done,
        prepared,
        left,
        gone,
        (
          map (λ (e : ℕ × Message Json Confidence). e.1.payload) arrived,
          payload,
          length-map _ arrived ∙ full,
          λ i.
              get_elem?-full payload_of 0 frame.width i arrived (omega arith)
                (Ascending-emplace 0 frame.width frame.index r.message (stored r frame) arrived
                  at_join.ordered (omega arith) at_join.within e)
                (omega (arith, full))
              ∙ rw (add.zero i) (
                  ap (map_option payload_of)
                    (find_key-emplace frame.index i r.message (stored r frame) arrived e)),
        ),
      )

  waiting :
      (arrived : List (ℕ × Message Json Confidence))
      → emplace frame.index r.message (stored r frame) ≡ some arrived
      → length arrived ≢ frame.width
      → let r' = (prepare_join array checkpoint r n).0 in
        ((prepare_join array checkpoint r n).1 ≡ (
          if is_empty r.ready
          then throw ErrorCode.execution "Join has missing branches"
          else (checkpoint r' >>= λ _. ok false)))
        × (place r' ≡ next_place r)
        × (r'.joins ≡ insert frame.group arrived r.joins)
  unfolding prepare_join
  waiting arrived e l = ground (arith, at_join)

  -- A run comes to a join in a branch of that join, with an index below the width of its group, and
  -- the group's earlier messages stand in ascending order of indices below the width. If the index
  -- is new and does not complete the width, the message stays with the group, in the order of the
  -- indices, no other group is touched, and the first ready token is taken: the run goes to its node with
  -- its message and its frames, the other tokens wait on, and no join is prepared; if there is none,
  -- that is an error, and the run stays where it is.
  pub join_waits :
      (group : String)
      → find_key frame.index (stored r frame) ≡ none
      → length (stored r frame) + 1 ≢ frame.width
      → let r' = (prepare_join array checkpoint r n).0 in
        ((prepare_join array checkpoint r n).1 ≡ (
          if is_empty r.ready
          then throw ErrorCode.execution "Join has missing branches"
          else (checkpoint r' >>= λ _. ok false)))
        × (place r' ≡ next_place r)
        × Ascending 0 frame.width (stored r' frame)
        × ((i : ℕ)
            → find_key i (stored r' frame)
              ≡ (if frame.index == i then some r.message else find_key i (stored r frame)))
        × (str_eq frame.group group ≡ false → lookup group r'.joins ≡ lookup group r.joins)
  join_waits group first more =
      let (arrived, e) = emplaced first in
      let size = length-emplace frame.index r.message (stored r frame) arrived e in
      let (answer, next, joined) = waiting arrived e (λ full. more (omega (arith, size))) in
      let here : stored (prepare_join array checkpoint r n).0 frame ≡ arrived = ground (
        arith,
        joined,
        lookup-insert frame.group frame.group arrived r.joins,
        eq_refl frame.group,
      ) in
      (
        answer,
        next,
        rw here (
            Ascending-emplace 0 frame.width frame.index r.message (stored r frame) arrived
              at_join.ordered (omega arith) at_join.within e),
        λ i. rw here (find_key-emplace frame.index i r.message (stored r frame) arrived e),
        λ other. ground (arith, joined, lookup-insert frame.group group arrived r.joins, other),
      )

  -- A run comes to a join in a branch of that join, with an index below the width of its group, and
  -- the group's earlier messages stand in ascending order of indices below the width. If a message
  -- with the index is there already, the arrival is refused, and the run is left as it was.
  pub join_twice :
      find_key frame.index (stored r frame) ≢ none
      → prepare_join array checkpoint r n
        ≡ (r, throw ErrorCode.execution "Parallel branch arrived twice")
  unfolding prepare_join
  join_twice again = ground (
    arith,
    at_join,
    emplace-none 0 frame.width frame.index r.message (stored r frame) at_join.ordered,
  )
