-- ===== src/Workers/Interactions/Final.antt =====
-- src/workers/manager.cpp, `handle_interaction` and `resolve_interaction`: a decision is final.
use laso.Base.{
  ◌≡◌, refl, sym, ap, subst, ◌∙◌, ◌⊎◌, inl, inr, ltb, ◌*◌, Bool, true, false, not, ◌&&◌, ◌||◌,
  Option, none, some, [], arith, Bool-cases, if-elim, if◌then◌else◌,
}
use laso.Core.Errors.{Result, ok, err}
use laso.Pipeline.Reference.{Bytes, is_nil}
use laso.Policy.{PolicyContext, PolicyDecision, PolicyResult}
use laso.Security.{bytes_eq}
use laso.Security.Gateway.{bytes_eq_iff}
use laso.Tables.{get_row, put_row, get_row-put_row, get_row-put_self}
use laso.Workers.Interactions.{
  WorkerInteractionState, WorkerInteractionType, WorkerInteractionRequest, WorkerInteraction,
  InteractionOps, Interactions, Handled, is_pending, interaction_terminal, human, is_question,
  is_answered, approves_or_denies, same_type, longer, new_interaction, policy_result, decide_by,
  decided, expire, is_past, await_decision, open_with, admit_row, handle_interaction, bad_request,
  expire_row, end_wait, resolve_row, resolve_interaction,
}

-- A question is not approved or denied, and nothing else is answered.
abbrev pub fits : WorkerInteractionType → WorkerInteractionState → Bool
fits type state =
    if is_question type then not (approves_or_denies state) else not (is_answered state)

module _ {Json : Type 0} (json : InteractionOps Json) where
  -- The rows stand under their ids, with states that fit their types.
  abbrev pub Sound : Interactions Json → Type 0
  Sound store =
      (id : Bytes) (i : WorkerInteraction Json)
      → get_row id store ≡ some i
      → (i.id ≡ id) × (fits i.type i.state ≡ true)

  -- What has been decided stays.
  abbrev pub Keeps : Interactions Json → Interactions Json → Type 0
  Keeps store after =
      (id : Bytes) (i : WorkerInteraction Json)
      → get_row id store ≡ some i
      → interaction_terminal i.state ≡ true
      → get_row id after ≡ some i

  abbrev pub Good : Interactions Json → Interactions Json → Type 0
  Good store after = Sound store → Sound after × Keeps store after

  same-Good : (store : Interactions Json) → Good store store
  same-Good store sound = (sound, λ id i h t. h)

  then-Good : (s t u : Interactions Json) → Good s t → Good t u → Good s u
  then-Good s t u first second sound =
      let (sound1, keeps1) = first sound in
      let (sound2, keeps2) = second sound1 in (sound2, λ id i h t. keeps2 id i (keeps1 id i h t) t)

  put-Good :
      (new : WorkerInteraction Json) (store : Interactions Json)
      → fits new.type new.state ≡ true
      → ((old : WorkerInteraction Json)
          → get_row new.id store ≡ some old
          → interaction_terminal old.state ≡ false)
      → Good store (put_row new.id new store)
  put-Good new store fine undecided sound = (
    λ id i h. elim (Bool-cases (bytes_eq new.id id)) [
      | inl here ↦
          let e : new ≡ i = cc (rw (get_row-put_row new.id id new store, here) at h) in
          subst (λ x. (x.id ≡ id) × (fits x.type x.state ≡ true)) e
            ((bytes_eq_iff new.id id).0 here, fine)
      | inr other ↦ sound id i (rw (get_row-put_row new.id id new store, other) at h)
    ],
    λ id i h t. elim (Bool-cases (bytes_eq new.id id)) [
      | inl here ↦
          let e : new.id ≡ id = (bytes_eq_iff new.id id).0 here in cc (undecided i (rw e h), t)
      | inr other ↦ rw (get_row-put_row new.id id new store, other) h
    ],
  )

  expired-fits : (type : WorkerInteractionType) → fits type WorkerInteractionState.expired ≡ true
  expired-fits WorkerInteractionType.approval = refl
  expired-fits WorkerInteractionType.permission = refl
  expired-fits WorkerInteractionType.question = refl

  resolved-fits :
      (type : WorkerInteractionType) (state : WorkerInteractionState)
      → (not (is_question type) && is_answered state) ≡ false
      → (is_question type && approves_or_denies state) ≡ false
      → fits type state ≡ true
  resolved-fits WorkerInteractionType.approval state h1 h2 = ground (arith, h1)
  resolved-fits WorkerInteractionType.permission state h1 h2 = ground (arith, h1)
  resolved-fits WorkerInteractionType.question state h1 h2 = ground (arith, h2)

  -- A row in the store that is still pending may be decided.
  row-Good :
      (old new : WorkerInteraction Json) (store : Interactions Json)
      → get_row new.id store ≡ some old
      → interaction_terminal old.state ≡ false
      → fits new.type new.state ≡ true
      → Good store (put_row new.id new store)
  row-Good old new store row waits fine = put-Good new store fine (λ other h.
      let e : old ≡ other = cc (row, h) in
      subst (λ x. interaction_terminal x.state ≡ false) e waits)

  await_decision-Good :
      (now : Bytes) (store : Interactions Json) (i : WorkerInteraction Json)
      → get_row i.id store ≡ some i
      → Good store (await_decision json now store i).0
  unfolding await_decision
  await_decision-Good now store i row =
      if-elim (λ (x : Handled json). Good store x.0) (interaction_terminal i.state) _ _
        (λ _. same-Good store)
        (λ waits.
          if-elim (λ (x : Handled json). Good store x.0) (is_past json now i.deadline) _ _
            (λ _. row-Good i (expire json now i) store row waits (expired-fits i.type))
            (λ _. same-Good store))

  decide_by-id :
      (now : Bytes) (p : PolicyResult) (i : WorkerInteraction Json)
      → (decide_by json now p i).id ≡ i.id
  unfolding decide_by
  decide_by-id now p i = ground arith

  -- A new interaction that the policy has decided upon; a question is left to people.
  decide_by-fits :
      (now : Bytes) (p : PolicyResult) (i : WorkerInteraction Json)
      → i.state ≡ WorkerInteractionState.pending
      → (is_question i.type ≡ true → p.decision ≡ PolicyDecision.require_approval)
      → fits (decide_by json now p i).type (decide_by json now p i).state ≡ true
  unfolding decide_by
  decide_by-fits now p i new asks = elim (Bool-cases (is_question i.type)) [
    | inl q ↦ rw (asks q, q, new) refl
    | inr q ↦ by_decision p.decision refl q
  ]
    where
      by_decision :
          (d : PolicyDecision)
          → p.decision ≡ d
          → is_question i.type ≡ false
          → fits (decide_by json now p i).type (decide_by json now p i).state ≡ true
      by_decision PolicyDecision.allow h q = rw (h, q) refl
      by_decision PolicyDecision.deny h q = rw (h, q) refl
      by_decision PolicyDecision.require_approval h q = rw (h, q, new) refl

  human_decides :
      (policy : Option (PolicyContext → PolicyResult)) (r : WorkerInteractionRequest Json)
      (p : PolicyResult)
      → policy_result json policy r ≡ ok p
      → is_question r.type ≡ true
      → p.decision ≡ PolicyDecision.require_approval
  unfolding policy_result
  human_decides policy r p h asks =
      let e : human json "Human answer required" ≡ p = cc (rw asks at h) in rw (sym e) refl

  open_with-Good :
      (now run_id : Bytes) (policy : Option (PolicyContext → PolicyResult))
      (r : WorkerInteractionRequest Json) (store : Interactions Json)
      → get_row r.request_id store ≡ none
      → (result : Result PolicyResult) → policy_result json policy r ≡ result
      → Good store (open_with json now run_id r store result).0
  open_with-Good now run_id policy r store no_row (err e) h = same-Good store
  open_with-Good now run_id policy r store no_row (ok p) h =
      let start = new_interaction json now run_id r in
      let i = decide_by json now p start in
      then-Good store (put_row i.id i store) (await_decision json now (put_row i.id i store) i).0
        (put-Good i store (decide_by-fits now p start refl (human_decides policy r p h))
          (λ old row. cc (rw (decide_by-id now p start) at row, no_row)))
        (await_decision-Good now (put_row i.id i store) i (get_row-put_self i.id i store))

  admit_row-Good :
      (now : Bytes) (policy : Option (PolicyContext → PolicyResult)) (run_id : Bytes)
      (r : WorkerInteractionRequest Json) (store : Interactions Json)
      (o : Option (WorkerInteraction Json))
      → get_row r.request_id store ≡ o
      → Good store (admit_row json now policy run_id r store o).0
  admit_row-Good now policy run_id r store none row =
      open_with-Good now run_id policy r store row (policy_result json policy r) refl
  admit_row-Good now policy run_id r store (some i) row =
      if-elim (λ (x : Handled json). Good store x.0)
        (not (bytes_eq i.worker_job_id r.worker_job_id) || not (same_type i.type r.type)) _ _
        (λ _. same-Good store)
        (λ _ sound.
          let at_id : get_row i.id store ≡ some i =
            ap (λ k. get_row k store) (sound r.request_id i row).0 ∙ row in
          await_decision-Good now store i at_id sound)

  expire_row-Good :
      (now : Bytes) (store : Interactions Json) (id : Bytes) (o : Option (WorkerInteraction Json))
      → get_row id store ≡ o
      → Good store (expire_row json now store o).0
  expire_row-Good now store id none row = same-Good store
  expire_row-Good now store id (some i) row =
      if-elim (λ (x : Handled json). Good store x.0) (interaction_terminal i.state) _ _
        (λ _. same-Good store)
        (λ waits sound.
          row-Good i (expire json now i) store (ap (λ k. get_row k store) (sound id i row).0 ∙ row)
            waits (expired-fits i.type) sound)

  resolve_row-Good :
      (now : Bytes) (state : WorkerInteractionState) (payload : Json) (actor reason : Bytes)
      (store : Interactions Json) (id : Bytes) (o : Option (WorkerInteraction Json))
      → get_row id store ≡ o
      → Good store (resolve_row json now state payload actor reason store o).0
  resolve_row-Good now state payload actor reason store id none row = same-Good store
  resolve_row-Good now state payload actor reason store id (some i) row =
      if-elim Keeping (interaction_terminal i.state) _ _ (λ _. same-Good store)
        (λ waits.
          if-elim Keeping (not (is_question i.type) && is_answered state) _ _ (λ _. same-Good store)
            (λ no_answer.
              if-elim Keeping (is_question i.type && approves_or_denies state) _ _
                (λ _. same-Good store)
                (λ no_verdict sound.
                  row-Good i
                    (record (decided json now state reason (some payload) i) { actor = actor })
                    store (ap (λ k. get_row k store) (sound id i row).0 ∙ row) waits
                    (resolved-fits i.type state no_answer no_verdict) sound)))
    where
      Keeping : Interactions Json × Result (Unit {0}) → Type 0
      Keeping x = Good store x.0

  -- What the handling of requests, the ends of waits and the decisions make of a store, in any order and
  -- with any arguments.
  pub data Leads (store : Interactions Json) : Interactions Json → Type 0 where
    stays : Leads store store
    handled :
        {t : Interactions Json} (stopped : Bool) (now : Bytes)
        (policy : Option (PolicyContext → PolicyResult)) (run_id : Bytes)
        (r : WorkerInteractionRequest Json)
        → Leads store t
        → Leads store (handle_interaction json stopped now policy run_id r t).0
    waited :
        {t : Interactions Json} (now id : Bytes)
        → Leads store t
        → Leads store (end_wait json now id t).0
    resolved :
        {t : Interactions Json} (now id : Bytes) (state : WorkerInteractionState) (payload : Json)
        (actor reason : Bytes)
        → Leads store t
        → Leads store (resolve_interaction json now id state payload actor reason t).0

  handle_interaction-Good :
      (stopped : Bool) (now : Bytes) (policy : Option (PolicyContext → PolicyResult))
      (run_id : Bytes) (r : WorkerInteractionRequest Json) (t : Interactions Json)
      → Good t (handle_interaction json stopped now policy run_id r t).0
  unfolding handle_interaction
  handle_interaction-Good stopped now policy run_id r t =
      if-elim (λ (x : Handled json). Good t x.0) stopped _ _ (λ _. same-Good t)
        (λ _.
          if-elim (λ (x : Handled json). Good t x.0) (bad_request json r) _ _ (λ _. same-Good t)
            (λ _. admit_row-Good now policy run_id r t (get_row r.request_id t) refl))

  Leads-Good : {store t : Interactions Json} → Leads store t → Good store t
  unfolding end_wait resolve_interaction
  Leads-Good {store} stays = same-Good store
  Leads-Good {store} (handled {t} stopped now policy run_id r before) =
      then-Good store t _ (Leads-Good before)
        (handle_interaction-Good stopped now policy run_id r t)
  Leads-Good {store} (waited {t} now id before) =
      then-Good store t _ (Leads-Good before) (expire_row-Good now t id (get_row id t) refl)
  Leads-Good {store} (resolved {t} now id state payload actor reason before) =
      then-Good store t _ (Leads-Good before) (
        if-elim (λ (x : Interactions Json × Result (Unit {0})). Good t x.0)
          (is_nil id
            || longer 128 actor
            || longer 2048 reason
            || not (json.is_object payload)
            || ltb (64 * 1024) (json.dump_size payload)
            || is_pending state)
          _ _ (λ _. same-Good t)
          (λ _. resolve_row-Good now state payload actor reason t id (get_row id t) refl))

  -- From an empty store, by requests, ends of waits and decisions in any order: an interaction is approved
  -- or denied only if it is no question, and answered only if it is one; and once it is decided, whatever
  -- comes later leaves its row as it is.
  pub decision_is_final :
      {store after : Interactions Json} (id : Bytes) (i : WorkerInteraction Json)
      → Leads [] store
      → Leads store after
      → get_row id store ≡ some i
      → (fits i.type i.state ≡ true) × (is_pending i.state ≡ true ⊎ (get_row id after ≡ some i))
  unfolding get_row
  decision_is_final {store} {after} id i reached later row =
      let (sound, _) = Leads-Good reached (λ k j h. cc h) in
      let (_, fine) = sound id i row in
      (
        fine,
        elim (Bool-cases (is_pending i.state)) [
          | inl waits ↦ inl waits
          | inr done ↦ inr ((Leads-Good later sound).1 id i row (rw done refl))
        ],
      )
