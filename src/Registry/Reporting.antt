-- ===== src/Registry/Reporting.antt =====
-- src/core/registry/removal: who wins a claim, and what the end of a removal reports.
use mathlib.Core.List.{append-nil}
use taskvisor.Prelude.{
  ℕ, Bool, true, false, Option, none, some, List, [], ◌∷◌, ◌++◌, ◌==◌, ◌≡◌, refl, ◌∙◌, ◌⊎◌, inl,
  inr, if◌then◌else◌, lookup, lookup-insert_self, ◌≤◌, Bool-cases, tally, tally-snoc, tally-append,
  arith,
}
use taskvisor.Slot.{TaskId}
use taskvisor.Controller.State.{Name, OutcomeTx}
use taskvisor.Actor
use taskvisor.Registry.Reaper.{Latch}
use taskvisor.Registry.State
use taskvisor.Registry.State.{
  Handle, EntryState, registered, removing, Entry, Claim, TaskOutcome, Registry, sent, undelivered,
}
use taskvisor.Registry.Removal.{claim_registered, cancel_action, cancel_task, remove_task}
use taskvisor.Registry.Terminal.{
  JoinResult, returned, join_panicked, join_aborted, Report, commit_state, commit_entry, commit,
  outcome_of, classify, finish_removal,
}

-- The first cancel of a registered task wins the claim and decides with the task's own latch; the
-- second one decides with the same latch and does not win, adds no owner, and a remove that comes
-- then replies false.
pub cancel_task_joins :
    (id : TaskId) (name : Name) (handle : Handle) (st : Registry)
    → lookup id st.tasks ≡ some (record { name = name; state = registered handle })
    → ((cancel_task id st).0
        ≡ some (record { id = id; claimed = true; completion = handle.completion }))
      × ((cancel_task id (cancel_task id st).1).0
          ≡ some (record { id = id; claimed = false; completion = handle.completion }))
      × ((cancel_task id (cancel_task id st).1).1.joins ≡ (cancel_task id st).1.joins)
      × ((remove_task id (cancel_task id st).1).0 ≡ false)
unfolding cancel_task cancel_action claim_registered remove_task
cancel_task_joins id name handle st here =
    simp
      (
        here,
        lookup-insert_self id (record { name = name; state = removing handle.completion }) st.tasks,
      )
      (refl, refl, refl, refl)

-- What a removal ends as, and whether it poisons the cleanup bundle, by whether its actor was
-- aborted and by what joining it gave.
pub data EndsAs : Bool → JoinResult → TaskOutcome → Bool → Type 0 where
  by_force : (result : JoinResult) → EndsAs true result State.force_aborted false
  by_completion : EndsAs false (returned Actor.completed) State.completed false
  by_stop : EndsAs false (returned Actor.stopped) State.canceled false
  by_panic :
      (cleanup_poisoned : Bool)
      → EndsAs false (returned (Actor.panicked cleanup_poisoned)) State.panicked cleanup_poisoned
  by_exhaustion :
      (limit : Option ℕ) (reason : ℕ) (exit_code : Option ℕ)
      → EndsAs false
          (returned (Actor.exhausted limit reason exit_code))
          (State.failed reason exit_code)
          false
  by_fatal :
      (reason : ℕ) (exit_code : Option ℕ)
      → EndsAs false (returned (Actor.died reason exit_code)) (State.fatal reason exit_code) false
  by_join_panic :
      (cleanup_poisoned : Bool)
      → EndsAs false (join_panicked cleanup_poisoned) State.panicked cleanup_poisoned
  by_join_abort : EndsAs false join_aborted State.force_aborted false

outcome_of-EndsAs :
    (result : JoinResult) → EndsAs false result (outcome_of result).0 (outcome_of result).1
unfolding outcome_of
outcome_of-EndsAs (returned Actor.completed) = by_completion
outcome_of-EndsAs (returned Actor.stopped) = by_stop
outcome_of-EndsAs (returned (Actor.panicked cleanup_poisoned)) = by_panic cleanup_poisoned
outcome_of-EndsAs (returned (Actor.exhausted limit reason exit_code)) =
    by_exhaustion limit reason exit_code
outcome_of-EndsAs (returned (Actor.died reason exit_code)) = by_fatal reason exit_code
outcome_of-EndsAs (join_panicked cleanup_poisoned) = by_join_panic cleanup_poisoned
outcome_of-EndsAs join_aborted = by_join_abort

classify-EndsAs :
    (aborted : Bool) (c : Claim) (result : JoinResult)
    → c.aborted ≡ aborted
    → EndsAs aborted result (classify c result).0 (classify c result).1
classify-EndsAs true c result e = rw e (by_force result)
classify-EndsAs false c result e = rw e (outcome_of-EndsAs result)

-- An outcome is handed over: to the receiver, when there is one that takes it, and else to the
-- cleanup bundle.
abbrev pub IsUnreached : (OutcomeTx → Bool) → Option OutcomeTx → Type 0
IsUnreached delivers none = Unit {0}
IsUnreached delivers (some tx) = delivers tx ≡ false

abbrev pub IsHanded :
    (OutcomeTx → Bool) → Option OutcomeTx → ℕ → TaskOutcome → Registry → Registry → Type 0
IsHanded delivers done bundle outcome st s =
    ((tx : OutcomeTx) × (done ≡ some tx)
      × (delivers tx ≡ true)
      × (s.outcomes ≡ st.outcomes ++ (tx, outcome) ∷ [])
      × (s.attached ≡ st.attached))
    ⊎ (IsUnreached delivers done
        × (s.outcomes ≡ st.outcomes)
        × (s.attached ≡ st.attached ++ (bundle, outcome) ∷ []))

IsHanded-of_sent :
    (delivers : OutcomeTx → Bool) (done : Option OutcomeTx) (bundle : ℕ) (outcome : TaskOutcome)
    (st s : Registry)
    → s.outcomes ≡ st.outcomes ++ sent delivers done outcome
    → s.attached ≡ st.attached ++ undelivered delivers done bundle outcome
    → IsHanded delivers done bundle outcome st s
IsHanded-of_sent delivers none bundle outcome st s o a = inr (tt, o ∙ append-nil st.outcomes, a)
IsHanded-of_sent delivers (some tx) bundle outcome st s o a = elim (Bool-cases (delivers tx)) [
  | inl takes ↦ inl (tx, refl, takes, o ∙ simp (takes) refl, a ∙ simp (takes, append-nil) refl)
  | inr gone ↦ inr (gone, o ∙ simp (gone, append-nil) refl, a ∙ simp (gone) refl)
]

-- What a report adds to a registry.
abbrev IsReported : (OutcomeTx → Bool) → Report → Registry → Registry → Type 0
IsReported delivers p st s =
    (s.outcomes ≡ st.outcomes ++ sent delivers p.done p.outcome)
    × (s.attached ≡ st.attached ++ undelivered delivers p.done p.bundle p.outcome)
    × (s.poisoned ≡ st.poisoned)
    × (1 ≤ tally (λ l. l == p.completion) s.logical)

module _ (delivers : OutcomeTx → Bool) (p : Report) (st : Registry) where
  completed_last :
      (before : List Latch) → 1 ≤ tally (λ l. l == p.completion) (before ++ p.completion ∷ [])
  completed_last before = ground (arith, tally-snoc (λ l. l == p.completion) before p.completion)

  completed_after :
      (state_completion : Latch) (before : List Latch)
      → 1 ≤ tally (λ l. l == p.completion) (before ++ state_completion ∷ p.completion ∷ [])
  unfolding tally
  completed_after state_completion before =
      ground
        (arith, tally-append (λ l. l == p.completion) before (state_completion ∷ p.completion ∷ []))

  commit_state-Reported :
      (e : Entry) (state : EntryState)
      → IsReported delivers p st (commit_state delivers p st e state)
  commit_state-Reported e (registered handle) = (refl, refl, refl, completed_last st.logical)
  commit_state-Reported e (removing latch) = (refl, refl, refl, completed_after latch st.logical)

  commit_entry-Reported :
      (found : Option Entry) → IsReported delivers p st (commit_entry delivers p st found)
  commit_entry-Reported none = (refl, refl, refl, completed_last st.logical)
  commit_entry-Reported (some e) = commit_state-Reported e e.state

-- A removal that was finished: what it ended as, the hand-over of that outcome, the bundles that
-- are poisoned, and the logical latch of its handle.
pub record Finished (delivers : OutcomeTx → Bool) (c : Claim) (result : JoinResult)
    (st s : Registry) : Type 0 where
  pub outcome : TaskOutcome
  pub poisons : Bool
  pub ends : EndsAs c.aborted result outcome poisons
  pub handed : IsHanded delivers c.handle.done c.handle.bundle outcome st s
  pub poisoned : s.poisoned ≡ (if poisons then st.poisoned ++ c.handle.bundle ∷ [] else st.poisoned)
  pub completed : 1 ≤ tally (λ l. l == c.handle.completion) s.logical

-- The end of a removal hands its outcome over exactly once, to the receiver when there is one that
-- takes it and else to the cleanup bundle; the outcome is the one of the joined result, or a forced
-- abort when the actor was aborted; the bundle is poisoned when the result says that cleanup
-- panicked and in no other case; and the logical latch of the handle is completed. This holds
-- whether or not the entry is still there to be removed.
pub finish_removal_reports :
    (delivers : OutcomeTx → Bool) (c : Claim) (result : JoinResult) (st : Registry)
    → Finished delivers c result st (finish_removal delivers c result st)
unfolding finish_removal commit
finish_removal_reports delivers c result st =
    let reported =
      commit_entry-Reported delivers
        (record {
          id = c.id;
          outcome = (classify c result).0;
          done = c.handle.done;
          completion = c.handle.completion;
          bundle = c.handle.bundle;
        })
        (record st {
          poisoned =
              if (classify c result).1 then st.poisoned ++ c.handle.bundle ∷ [] else st.poisoned;
        })
        (lookup c.id st.tasks) in
    record {
      outcome = (classify c result).0;
      poisons = (classify c result).1;
      ends = classify-EndsAs c.aborted c result refl;
      handed =
          IsHanded-of_sent delivers c.handle.done c.handle.bundle (classify c result).0 st
            (finish_removal delivers c result st) reported.0 reported.1;
      poisoned = reported.2;
      completed = reported.3;
    }
