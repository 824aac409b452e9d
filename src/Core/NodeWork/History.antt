-- ===== src/Core/NodeWork/History.antt =====
-- src/storage/postgres.cpp, `write_records`: what a history of writes can do to a row of `node_work`.
use laso.Base.{
  ◌≡◌, refl, sym, Bool, true, false, some, List, [], ◌∷◌, map, arith, Bool-cases, inl, inr, In,
  here, there,
}
use laso.Core.Errors.{Result, ok, err}
use laso.Core.Data.{ExecutionToken}
use laso.Core.NodeWork.{
  NodeWork, NodeWorkState, running, completed, failed, terminal, valid_node_work_transition,
  write_node_work,
}

-- A write that throws leaves the row as it was.
abbrev pub kept : {M : Type 0} → NodeWork M → Result (NodeWork M) → NodeWork M
kept old (ok new) = new
kept old (err e) = old

module _ {M : Type 0} (same_message : M → M → Bool)
    (same_token : ExecutionToken M → ExecutionToken M → Bool) where
  unfoldable pub after : NodeWork M → NodeWork M → NodeWork M
  after old new = kept old (write_node_work same_message same_token (some old) new)

  unfoldable pub row : NodeWork M → List (NodeWork M) → NodeWork M
  row old [] = old
  row old (new ∷ ws) = row (after old new) ws

  after-terminal : (old new : NodeWork M) → terminal old.state ≡ true → after old new ≡ old
  unfolding after write_node_work
  after-terminal old new h = ground arith

  -- If the state of a stored work is terminal, its row is the same after any list of writes, whether
  -- they are accepted or refused: the result that was stored first stays.
  pub terminal-row_fixed :
      (old : NodeWork M) (ws : List (NodeWork M)) → terminal old.state ≡ true → row old ws ≡ old
  unfolding row
  terminal-row_fixed old [] h = refl
  terminal-row_fixed old (new ∷ ws) h = rw (after-terminal old new h) (terminal-row_fixed old ws h)

  abbrev is_claimed : NodeWorkState → Bool
  is_claimed running = true
  is_claimed completed = true
  is_claimed failed = true
  is_claimed _ = false

  enters_running :
      (old new : NodeWork M)
      → is_claimed old.state ≡ false
      → is_claimed (after old new).state ≡ true
      → new.state ≡ running
  unfolding after write_node_work terminal valid_node_work_transition
  enters_running old new h e = ground arith

  -- Work that is queued or cancelled and, after some writes, is running, completed or failed has
  -- been claimed by an instance: one of the writes has the state `Running`.
  pub finished_was_claimed :
      (old : NodeWork M) (ws : List (NodeWork M))
      → is_claimed old.state ≡ false
      → is_claimed (row old ws).state ≡ true
      → In running (map (λ w. w.state) ws)
  unfolding row
  finished_was_claimed old [] h e = cc
  finished_was_claimed old (new ∷ ws) h e = elim (Bool-cases (is_claimed (after old new).state)) [
    | inl c ↦ here (sym (enters_running old new h c))
    | inr c ↦ there (finished_was_claimed (after old new) ws c e)
  ]
