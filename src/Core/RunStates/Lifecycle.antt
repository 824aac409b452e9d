-- ===== src/Core/RunStates/Lifecycle.antt =====
-- src/core/types.cpp, `valid_transition`: what it allows over a whole life of a run, a list of the
-- states that `Runtime::transition` enters one after the other.
use laso.Base.{
  ◌≤◌, ◌≡◌, refl, ◌↔◌, Bool, true, false, ◌&&◌, List, [], ◌∷◌, ◌++◌, arith, length, In, here, there,
  inl, inr, ◌≢◌, sym, ap, Bool-cases,
}
use laso.Core.RunStates.{
  RunState, queued, starting, running, waiting_approval, paused, completed, failed, cancelled,
  timed_out, terminal, valid_transition,
}

-- Every step of the life is a valid transition.
unfoldable pub follows : RunState → List RunState → Bool
follows s [] = true
follows s (t ∷ ts) = valid_transition s t && follows t ts

unfoldable pub final_state : RunState → List RunState → RunState
final_state s [] = s
final_state s (t ∷ ts) = final_state t ts

follows-terminal :
    (s t : RunState) (ts : List RunState) → terminal s ≡ true → follows s (t ∷ ts) ≡ false
unfolding follows valid_transition
follows-terminal s t ts h = ground arith

follows_after :
    (s : RunState) (xs : List RunState) (t : RunState) (ys : List RunState)
    → follows s (xs ++ t ∷ ys) ≡ true
    → follows t ys ≡ true
unfolding follows
follows_after s [] t ys h = ground arith
follows_after s (x ∷ xs) t ys h = follows_after x xs t ys (ground arith)

-- A terminal state can only be the last one of a life: nothing follows it.
terminal_is_last :
    (s : RunState) (xs : List RunState) (t : RunState) (ys : List RunState)
    → follows s (xs ++ t ∷ ys) ≡ true
    → terminal t ≡ true
    → ys ≡ []
terminal_is_last s xs t [] h d = refl
terminal_is_last s xs t (y ∷ ys) h d =
    let later = follows_after s xs t (y ∷ ys) h in cc (follows-terminal t y ys d, later)

-- Where a life enters a class of states only through one of them, it passes that one.
passes :
    (class : RunState → Bool) (gate : RunState)
    → ((s t : RunState) → valid_transition s t ≡ true → class s ≡ false → class t ≡ true → t ≡ gate)
    → (s : RunState) (ts : List RunState) → follows s ts ≡ true
    → class s ≡ false
    → class (final_state s ts) ≡ true
    → In gate ts
unfolding follows final_state
passes class gate enters s [] h a b = cc
passes class gate enters s (t ∷ ts) h a b = elim (Bool-cases (class t)) [
  | inl e ↦ here (sym (enters s t (ground arith) a e))
  | inr e ↦ there (passes class gate enters t ts (ground arith) e b)
]

abbrev has_started : RunState → Bool
has_started queued = false
has_started failed = false
has_started cancelled = false
has_started timed_out = false
has_started _ = true

abbrev has_run : RunState → Bool
has_run starting = false
has_run s = has_started s

enters_starting :
    (s t : RunState)
    → valid_transition s t ≡ true
    → has_started s ≡ false
    → has_started t ≡ true
    → t ≡ starting
unfolding valid_transition
enters_starting s t h a b = ground arith

enters_running :
    (s t : RunState)
    → valid_transition s t ≡ true
    → has_run s ≡ false
    → has_run t ≡ true
    → t ≡ running
unfolding valid_transition
enters_running s t h a b = ground arith

-- A queued run that ends completed was started and ran: it passed `Starting` and `Running`.
pub completed_has_run :
    (ts : List RunState)
    → follows queued ts ≡ true
    → final_state queued ts ≡ completed
    → In starting ts × In running ts
completed_has_run ts h e = (
  passes has_started starting enters_starting queued ts h refl (ap has_started e),
  passes has_run running enters_running queued ts h refl (ap has_run e),
)

-- A way from each state to `Completed`.
abbrev way : RunState → List RunState
way queued = starting ∷ running ∷ completed ∷ []
way starting = running ∷ completed ∷ []
way running = completed ∷ []
way waiting_approval = queued ∷ starting ∷ running ∷ completed ∷ []
way paused = queued ∷ starting ∷ running ∷ completed ∷ []
way _ = running ∷ completed ∷ []

way_lem :
    (s : RunState)
    → terminal s ≡ false
    → (follows s (way s) ≡ true)
      × (final_state s (way s) ≡ completed)
      × (length (way s) ≤ 4)
      × (way s ≢ [])
unfolding follows final_state terminal valid_transition
way_lem s h = ground arith

moves_on : (s : RunState) (ts : List RunState) → follows s ts ≡ true → ts ≢ [] → terminal s ≡ false
moves_on s [] h e = absurd (e refl)
moves_on s (t ∷ ts) h e = elim (Bool-cases (terminal s)) [
  | inl d ↦ cc (follows-terminal s t ts d)
  | inr d ↦ d
]

no_transition_after : (s t : RunState) → (terminal s && valid_transition s t) ≡ false
unfolding terminal valid_transition
no_transition_after s t = ground arith

-- A state that is not terminal can still complete, in at most four transitions, and conversely; and from
-- a terminal state there is no transition to any state.
pub can_complete :
    (s t : RunState)
    → ((terminal s ≡ false) ↔ (
        (ts : List RunState) × (follows s ts ≡ true)
        × (final_state s ts ≡ completed)
        × (length ts ≤ 4)
        × (ts ≢ [])))
      × ((terminal s && valid_transition s t) ≡ false)
can_complete s t = (
  (λ h. let w = way_lem s h in (way s, w.0, w.1, w.2, w.3), λ w. moves_on s w.0 w.1 w.4),
  no_transition_after s t,
)
