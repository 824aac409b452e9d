-- ===== src/Scheduler/Deliver/Settles.antt =====
-- src/scheduler/scheduler.cpp, `process_trigger`: when an event launches a run, and how often.
use laso.Base.{
  ℕ, ◌<◌, ◌≡◌, refl, ◌∙◌, ◌⊎◌, inl, inr, Bool, true, false, not, Option, none, some, List, [], ◌∷◌,
  ◌++◌, arith, leb, if-elim,
}
use laso.Core.Errors.{Error, Result, ok, err, Result-cases}
use laso.Pipeline.Reference.{Bytes}
use laso.Tables.{get_row, get_row-put_self}
use laso.Scheduler.Clock.{UtcTime, format_utc_timestamp}
use laso.Scheduler.Store.{OccurrenceStatus, claimed, pending, queued, started, skipped, failed}
use laso.Scheduler.Launch.{Answers, occurrence_of, is_capacity}
use laso.Scheduler.Triggers.{
  TriggerDefinition, SourceEvent, Delivery, Deliveries, answers_to, delivery_failed, launch_trigger,
  trigger_launch,
}
use laso.Scheduler.Deliver.{
  Answered, new_delivery, claim_delivery, existing_delivery, deliver, read_delivery,
  process_trigger,
}

module _ {Json : Type 0} (items : Json → Option (List (Bytes × Json)))
    (json_eq : Json → Json → Bool) (is_scalar : Json → Bool) (dump_size : Json → ℕ)
    (gmtime : ℕ → Option (UtcTime × ℕ)) (max_depth : ℕ) (trigger : TriggerDefinition Json)
    (source : SourceEvent Json) where
  -- The row of the delivery is settled for good.
  abbrev IsSettled : Deliveries → Type 0
  IsSettled x =
      (d : Delivery) × (get_row (occurrence_of trigger.id source.id) x.rows ≡ some d)
      × ((d.status ≡ started) ⊎ (d.status ≡ failed))

  abbrev Launched : Deliveries → Deliveries → Type 0
  Launched store x =
      x.launches
      ≡ store.launches ++ (trigger_launch items json_eq is_scalar dump_size trigger source ∷ [])

  -- Nothing was launched, or one run and the delivery is settled.
  abbrev Outcome : Deliveries → Answered → Type 0
  Outcome store x = (x.0.launches ≡ store.launches) ⊎ (Launched store x.0 × IsSettled x.0)

  abbrev id : Bytes
  id = occurrence_of trigger.id source.id

  refused-launches :
      (now : ℕ) (a : Answers) (d : Delivery) (e : Error) (x : Deliveries) (text : Result Bytes)
      (answer : Result (Unit {0}))
      → (delivery_failed items json_eq is_scalar dump_size a id
          (format_utc_timestamp gmtime now)
          d
          e
          x
          text
          answer).0.launches
        ≡ x.launches
  refused-launches now a d e x (err thrown) answer = refl
  refused-launches now a d e x (ok text) (err thrown) = refl
  refused-launches now a d e x (ok text) (ok _) = refl

  module _ (now : ℕ) (a : Answers) (text : Bytes)
      (clock : format_utc_timestamp gmtime now ≡ ok text)
      (writes : (e : Error)
        → a.commit ≡ err e
        → (is_capacity e.code ≡ false) × (a.recommit ≡ ok tt))
      (store : Deliveries) where
    launch-Outcome :
        (d : Delivery) (x : Deliveries)
        → x.launches ≡ store.launches
        → Outcome store (
            launch_trigger items json_eq is_scalar dump_size a id
              (format_utc_timestamp gmtime now)
              trigger
              source
              d
              x
              a.launch)
    unfolding launch_trigger
    launch-Outcome d x same = elim (Result-cases a.launch) [
      | inl (e, h) ↦ rw h (inl (refused-launches now a d e x _ a.recommit ∙ same))
      | inr (run_id, h) ↦ elim (Result-cases a.commit) [
        | inl (e, lost) ↦
            let (other, kept) = writes e lost in
            rw (h, clock, lost, kept, other, same)
              (inr (refl, (_, get_row-put_self id _ x.rows, inr refl)))
        | inr (_, written) ↦
            rw (h, clock, written, same) (inr (refl, (_, get_row-put_self id _ x.rows, inl refl)))
      ]
    ]

    existing-Outcome :
        (d : Delivery) (status : OccurrenceStatus)
        → Outcome store (
            existing_delivery items json_eq is_scalar dump_size gmtime now a trigger source store d
              status)
    existing-Outcome d started = inl refl
    existing-Outcome d skipped = inl refl
    existing-Outcome d failed = inl refl
    existing-Outcome d pending = launch-Outcome d store refl
    existing-Outcome d claimed = launch-Outcome d store refl
    existing-Outcome d queued = rw clock (inl refl)

    claim-Outcome :
        (r : Result Bytes)
        → Outcome store
            (claim_delivery items json_eq is_scalar dump_size gmtime now a trigger source store r)
    claim-Outcome (err e) = inl refl
    claim-Outcome (ok now_text) = launch-Outcome (new_delivery trigger.id source.id now_text) _ refl

    deliver-Outcome :
        (row : Option Delivery)
        → Outcome store
            (deliver items json_eq is_scalar dump_size gmtime now a trigger source store row)
    unfolding deliver
    deliver-Outcome none = claim-Outcome (format_utc_timestamp gmtime now)
    deliver-Outcome (some d) = existing-Outcome d d.status

    read-Outcome :
        (reads : Result (Unit {0}))
        → Outcome store (
            read_delivery items json_eq is_scalar dump_size gmtime now a trigger source store reads)
    read-Outcome (err e) = inl refl
    read-Outcome (ok _) = deliver-Outcome (get_row id store.rows)

  -- A settled delivery is never launched again.
  deliver-settled :
      (now : ℕ) (a : Answers) (x : Deliveries) (d : Delivery)
      → (d.status ≡ started) ⊎ (d.status ≡ failed)
      → (deliver items json_eq is_scalar dump_size gmtime now a trigger source x (some d)).0 ≡ x
  unfolding deliver
  deliver-settled now a x d (inl e) = rw e refl
  deliver-settled now a x d (inr e) = rw e refl

  read-settled :
      (now : ℕ) (a : Answers) (x : Deliveries) (reads : Result (Unit {0}))
      → IsSettled x
      → (read_delivery items json_eq is_scalar dump_size gmtime now a trigger source x reads).0 ≡ x
  read-settled now a x (err e) s = refl
  read-settled now a x (ok _) (d, row, status) = rw row (deliver-settled now a x d status)

  process_trigger-settled :
      (now : ℕ) (a : Answers) (x : Deliveries)
      → IsSettled x
      → (process_trigger items json_eq is_scalar dump_size gmtime now a trigger source x
          max_depth).0
        ≡ x
  unfolding process_trigger
  process_trigger-settled now a x s =
      if-elim (λ (y : Answered). y.0 ≡ x)
        (not (answers_to items json_eq is_scalar dump_size trigger source)) _ _ (λ _. refl)
        (λ _.
          if-elim (λ (y : Answered). y.0 ≡ x) (leb max_depth source.trigger_depth) _ _ (λ _. refl)
            (λ _. read-settled now a x a.reads s))

  not-not : (b : Bool) → not b ≡ false → b ≡ true
  not-not true h = refl
  not-not false h = cc h

  -- Nothing was launched, or one run, which was allowed and is the only one.
  abbrev pub OneLaunch : Deliveries → Answered → Type 0
  OneLaunch store y =
      (y.0.launches ≡ store.launches)
      ⊎ ((y.0.launches
            ≡ store.launches
              ++ (trigger_launch items json_eq is_scalar dump_size trigger source ∷ []))
          × (answers_to items json_eq is_scalar dump_size trigger source ≡ true)
          × (source.trigger_depth < max_depth)
          × ((later : ℕ) (b : Answers)
              → (process_trigger items json_eq is_scalar dump_size gmtime later b trigger source y.0
                  max_depth).0
                ≡ y.0))

  settled-OneLaunch :
      (store : Deliveries) (y : Answered)
      → not (answers_to items json_eq is_scalar dump_size trigger source) ≡ false
      → leb max_depth source.trigger_depth ≡ false
      → Outcome store y
      → OneLaunch store y
  settled-OneLaunch store y answers shallow (inl none_launched) = inl none_launched
  settled-OneLaunch store y answers shallow (inr (launched, settled)) = inr (
    launched,
    not-not _ answers,
    ground (arith, shallow),
    λ later b. process_trigger-settled later b y.0 settled,
  )

  -- Where the clock can be printed, and the writes after a launch are not lost nor refused with `Capacity`:
  -- an event launches nothing through a trigger, or it launches one run for it. Then the trigger answers to
  -- the event, the chain of triggers before it is shorter than the limit, and whenever the event is
  -- processed again, nothing more happens.
  pub event_launches_once :
      (now : ℕ) (a : Answers) (text : Bytes) (store : Deliveries)
      → format_utc_timestamp gmtime now ≡ ok text
      → ((e : Error) → a.commit ≡ err e → (is_capacity e.code ≡ false) × (a.recommit ≡ ok tt))
      → OneLaunch store (
          process_trigger items json_eq is_scalar dump_size gmtime now a trigger source store
            max_depth)
  unfolding process_trigger
  event_launches_once now a text store clock writes =
      if-elim (OneLaunch store) (not (answers_to items json_eq is_scalar dump_size trigger source))
        _ _ (λ _. inl refl)
        (λ answers.
          if-elim (OneLaunch store) (leb max_depth source.trigger_depth) _ _ (λ _. inl refl)
            (λ shallow.
              settled-OneLaunch store
                (read_delivery items json_eq is_scalar dump_size gmtime now a trigger source store
                  a.reads)
                answers shallow (read-Outcome now a text clock writes store a.reads)))
