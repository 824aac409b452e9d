-- ===== src/Context/Budget.antt =====
-- src/context/reducer.cpp: which turns a reduction keeps.
use laso.Base.{
  ℕ, suc, ◌≤◌, ◌<◌, ◌≡◌, ◌≢◌, refl, sym, ◌∙◌, ap, subst, inl, inr, true, false, Option, none, some,
  List, [], ◌∷◌, ◌++◌, arith, leb, ◌==◌, Bool-cases,
}
use mathlib.Core.List.{append_assoc, append-nil}
use laso.Core.Errors.{ErrorCode, Result, ok, throw, bind-eq-ok, then-eq-ok, guard-eq-ok}
use laso.Context.{
  ContextReductionRequest, ContextReductionResult, append_turns, previous_turns, eligible,
  result_of, fit, reduce, check_turn, back_turn,
}

module _ {Json : Type 0} (array turns_of : Json → Option (List Json)) (sequence : Json → Option ℕ)
    (at_sequence : Json → Result ℕ) (payload : List Json → Json) (dump_size : Json → ℕ)
    (check : ℕ → Result (Unit {0})) where
  abbrev pub fitting :
      ContextReductionRequest Json → List Json → Result (ContextReductionResult Json)
  fitting = fit array turns_of sequence at_sequence payload dump_size check

  abbrev pub appended : ℕ → List Json → List Json → Result (List Json)
  appended = append_turns array turns_of sequence at_sequence payload dump_size check

  abbrev pub back : List Json → Option Json
  back = back_turn array turns_of sequence at_sequence payload dump_size check

  abbrev pub built : ContextReductionRequest Json → List Json → ContextReductionResult Json
  built = result_of array turns_of sequence at_sequence payload dump_size check

  abbrev pub size : List Json → ℕ
  size ts = dump_size (payload ts)

  -- The longest suffix that fits: the turns that were dropped, and those that are kept.
  pub record Suffix (request : ContextReductionRequest Json) (turns : List Json)
      (result : ContextReductionResult Json) : Type 0 where
    pub dropped : List Json
    pub kept : List Json
    pub parts : turns ≡ dropped ++ kept
    pub some_turn : kept ≢ []
    pub fits : size kept ≤ request.target_payload_bytes
    pub longer :
        (a b : List Json)
        → dropped ≡ a ++ b
        → b ≢ []
        → request.target_payload_bytes < size (b ++ kept)
    pub outcome : result ≡ built request kept

  fit_here :
      (request : ContextReductionRequest Json) (t : Json) (ts : List Json)
      → leb (size (t ∷ ts)) request.target_payload_bytes ≡ true
      → fitting request (t ∷ ts) ≡ ok (built request (t ∷ ts))
  unfolding fit
  fit_here request t ts h = rw h refl

  fit_later :
      (request : ContextReductionRequest Json) (t : Json) (ts : List Json)
      → leb (size (t ∷ ts)) request.target_payload_bytes ≡ false
      → fitting request (t ∷ ts) ≡ fitting request ts
  unfolding fit
  fit_later request t ts h = rw h refl

  ++-nil : (a b : List Json) → [] ≡ a ++ b → b ≡ []
  ++-nil [] b h = sym h
  ++-nil (x ∷ a) b h = cc h

  longer_cons :
      (request : ContextReductionRequest Json) (t : Json) (ts dropped kept : List Json)
      → ts ≡ dropped ++ kept
      → leb (size (t ∷ ts)) request.target_payload_bytes ≡ false
      → ((a b : List Json)
          → dropped ≡ a ++ b
          → b ≢ []
          → request.target_payload_bytes < size (b ++ kept))
      → (a b : List Json) → t ∷ dropped ≡ a ++ b
      → b ≢ []
      → request.target_payload_bytes < size (b ++ kept)
  longer_cons request t ts dropped kept parts more longer [] b e n =
      let whole : t ∷ ts ≡ b ++ kept = ap (λ x. t ∷ x) parts ∙ ap (λ x. x ++ kept) e in
      subst (λ x. request.target_payload_bytes < size x) whole (ground (arith, more))
  longer_cons request t ts dropped kept parts more longer (x ∷ a) b e n = longer a b (cc e) n

  pub fit-longest :
      (request : ContextReductionRequest Json) (turns : List Json)
      (result : ContextReductionResult Json)
      → fitting request turns ≡ ok result
      → Suffix request turns result
  unfolding fit
  fit-longest request [] result h = cc h
  fit-longest request (t ∷ ts) result h =
      elim (Bool-cases (leb (size (t ∷ ts)) request.target_payload_bytes)) [
        | inl fits ↦ record {
          dropped = [];
          kept = t ∷ ts;
          parts = refl;
          some_turn = λ e. cc e;
          fits = ground (arith, fits);
          longer = λ a b e n. absurd (n (++-nil a b e));
          outcome = cc (fit_here request t ts fits, h);
        }
        | inr more ↦
            let r = fit-longest request ts result (sym (fit_later request t ts more) ∙ h) in
            record {
              dropped = t ∷ r.dropped;
              kept = r.kept;
              parts = ap (λ x. t ∷ x) r.parts;
              some_turn = r.some_turn;
              fits = r.fits;
              longer = longer_cons request t ts r.dropped r.kept r.parts more r.longer;
              outcome = r.outcome;
            }
      ]

  fit_fails :
      (request : ContextReductionRequest Json) (turns : List Json)
      → ((a b : List Json) → turns ≡ a ++ b → b ≢ [] → request.target_payload_bytes < size b)
      → fitting request turns
        ≡ throw ErrorCode.capacity "A durable turn exceeds the context reduction budget"
  unfolding fit
  fit_fails request [] none_fits = refl
  fit_fails request (t ∷ ts) none_fits =
      fit_later request t ts (ground (arith, none_fits [] (t ∷ ts) refl (λ e. cc e)))
      ∙ fit_fails request ts (λ a b e n. none_fits (t ∷ a) b (ap (λ x. t ∷ x) e) n)

  -- Each turn has a sequence number, larger than that of the turn before it.
  abbrev pub InOrder : Option Json → List Json → Type 0
  InOrder last [] = Unit
  InOrder last (t ∷ ts) =
      ((n : ℕ) × (sequence t ≡ some n)
        × ((l : Json) (m : ℕ) → last ≡ some l → at_sequence l ≡ ok m → m < n))
      × InOrder (some t) ts

  back-snoc : (ts : List Json) (t : Json) → back (ts ++ t ∷ []) ≡ some t
  back-snoc [] t = refl
  back-snoc (u ∷ []) t = refl
  back-snoc (u ∷ v ∷ ts) t = back-snoc (v ∷ ts) t

  abbrev turn_passes : Option ℕ → Option Json → Result (Unit {0})
  turn_passes = check_turn array turns_of sequence at_sequence payload dump_size check

  turn_order :
      (o : Option ℕ) (last : Option Json)
      → turn_passes o last ≡ ok tt
      → (n : ℕ) × (o ≡ some n) × ((l : Json) (m : ℕ) → last ≡ some l → at_sequence l ≡ ok m → m < n)
  turn_order none last h = cc h
  turn_order (some n) none h = (n, refl, λ l m e _. cc e)
  turn_order (some n) (some l) h = (n, refl, λ l' m e is. later m (cc (is, e)))
    where
      later : (m : ℕ) → at_sequence l ≡ ok m → m < n
      later m is = elim (Bool-cases (leb n m)) [
        | inl bad ↦ cc (rw (is, bad) at h)
        | inr good ↦ ground (arith, good)
      ]

  append_turns-order :
      (i : ℕ) (turns ts final : List Json)
      → appended i turns ts ≡ ok final
      → (final ≡ turns ++ ts) × InOrder (back turns) ts
  unfolding append_turns
  append_turns-order i turns [] final h = (sym (cc h) ∙ sym (append-nil turns), tt)
  append_turns-order i turns (t ∷ ts) final h =
      let (_, h1) = then-eq-ok (check i) _ h in
      let (passed, h2) = then-eq-ok (turn_passes (sequence t) (back turns)) _ h1 in
      let (whole, order) = append_turns-order (suc i) (turns ++ t ∷ []) ts final h2 in
      (
        whole ∙ append_assoc turns (t ∷ []) ts,
        (
          turn_order (sequence t) (back turns) passed,
          subst (λ o. InOrder o ts) (back-snoc turns t) order,
        ),
      )

  -- A reduction that returns was given turns in order: each eligible turn has a sequence number, larger
  -- than that of the turn before it, where the last of the previous generation's turns comes before
  -- the first. It keeps the longest end of the previous and the eligible turns that fits the budget: at
  -- least one turn, whose text fits, while no longer end fits.
  pub reduce_keeps_longest :
      (request : ContextReductionRequest Json) (result : ContextReductionResult Json)
      → reduce array turns_of sequence at_sequence payload dump_size check request ≡ ok result
      → (old : List Json) × (new : List Json) × (previous_turns array turns_of sequence at_sequence
            payload dump_size check request.previous_generation
          ≡ ok old)
        × (array request.eligible_turns ≡ some new)
        × InOrder (back old) new
        × Suffix request (old ++ new) result
  unfolding reduce
  reduce_keeps_longest request result h =
      let (_, h1) = then-eq-ok (check 0) _ h in
      let (new, is_new, h2) =
        bind-eq-ok
          (eligible array turns_of sequence at_sequence payload dump_size check
            (array request.eligible_turns) request.target_payload_bytes)
          _ h1 in
      let (old, is_old, h3) =
        bind-eq-ok
          (previous_turns array turns_of sequence at_sequence payload dump_size check
            request.previous_generation)
          _ h2 in
      let (turns, is_turns, h4) = bind-eq-ok (appended 1 old new) _ h3 in
      let (whole, order) = append_turns-order 1 old new turns is_turns in
      (
        old,
        new,
        is_old,
        given (array request.eligible_turns) new is_new,
        order,
        fit-longest request (old ++ new) result (ap (fitting request) (sym whole) ∙ h4),
      )
    where
      given :
          (o : Option (List Json)) (new : List Json)
          → eligible array turns_of sequence at_sequence payload dump_size check o
              request.target_payload_bytes
            ≡ ok new
          → o ≡ some new
      given none new e = cc e
      given (some ts) new e =
          ap some
            (cc (guard-eq-ok (request.target_payload_bytes == 0) ErrorCode.validation _ _ e).1)
