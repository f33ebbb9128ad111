-- ===== src/Registry/Keeping.antt =====
-- src/core/registry/scheduler/reaper.rs: the operations of the reaper and its correspondence.
use taskvisor.Prelude.{
  ℕ, ◌≤◌, Bool, true, false, Option, none, some, [], ◌∷◌, ◌++◌, ◌==◌, ◌≡◌, refl, ap, inl, inr,
  if◌then◌else◌, is_some, length-append, tally, tally-snoc, Bool-cases, Option-cases, arith,
}
use taskvisor.Slot.{TaskId}
use taskvisor.Controller.State.{Name}
use taskvisor.Registry.Matching.{
  KeyTest, IsMatched, SameKey, of_activity, of_record, of_record_same, tally-remove_first,
  tally-replace_first, replace-IsMatched, remove-IsMatched,
}
use taskvisor.Registry.Reaper.{
  new_record, Latch, ReaperRecord, TerminalReleases, Reaper, register, first, replace_first,
  is_ready, take_ready_record, submit_ready, belongs, joins, with_output, complete_record,
  complete_physical, shares_latch, attach_record, attach_terminal,
}

-- What an operation keeps: the correspondence, and no record is added.
abbrev pub Kept : Reaper → Reaper → Type 0
Kept r s =
    IsMatched s × ((q : KeyTest) → tally (of_record q) s.records ≤ tally (of_record q) r.records)

ready_parts :
    (y : ReaperRecord)
    → is_ready y ≡ true
    → (bundle : ℕ) × (output : ℕ) × (releases : TerminalReleases) × ((y.terminal ≡ some bundle)
        × (y.physical ≡ some output)
        × (y.terminal_releases ≡ some releases))
ready_parts y h = elim (Option-cases y.terminal) [
  | inl e ↦ ground arith
  | inr (bundle, e) ↦ elim (Option-cases y.physical) [
    | inl f ↦ ground arith
    | inr (output, f) ↦ elim (Option-cases y.terminal_releases) [
      | inl g ↦ ground arith
      | inr (releases, g) ↦ (bundle, output, releases, (e, f, g))
    ]
  ]
]

update_Kept :
    (r : Reaper) (p : ReaperRecord → Bool) (x y : ReaperRecord)
    → IsMatched r
    → first p r.records ≡ some x
    → SameKey y x
    → Kept r (submit_ready (take_ready_record p y r))
unfolding submit_ready take_ready_record
update_Kept r p x y m h k = elim (Bool-cases (is_ready y)) [
  | inl ready ↦
      (let parts = ready_parts y ready in
        simp (parts.3.0, parts.3.1, parts.3.2)
          (
            remove-IsMatched r p x y m h k,
            λ q. omega (arith, tally-remove_first (of_record q) p x r.records h),
          ))
  | inr busy ↦ simp (busy) (
    replace-IsMatched r p x y m h k,
    λ q.
        omega (arith, tally-replace_first (of_record q) p x y r.records h (of_record_same q x y k)),
  )
]

forget-Kept :
    (output : ℕ) (r : Reaper)
    → IsMatched r
    → Kept r (submit_ready (record r { forgotten = r.forgotten ++ output ∷ [] }, none))
unfolding submit_ready
forget-Kept output r m = (m, λ q. omega arith)

complete_record-Kept :
    (id : TaskId) (release : Latch) (output : ℕ) (poisoned : Bool) (r : Reaper)
    (found : Option ReaperRecord)
    → IsMatched r
    → first (joins id release) r.records ≡ found
    → Kept r (submit_ready (complete_record id release output poisoned r found))
complete_record-Kept id release output poisoned r none m e = forget-Kept output r m
complete_record-Kept id release output poisoned r (some x) m e =
    elim (is_some x.physical)
      as (λ b. Kept r (
        submit_ready (
          if b
          then take_ready_record (joins id release) (record x { poisoned = true })
              (record r { forgotten = r.forgotten ++ output ∷ [] })
          else take_ready_record (joins id release) (with_output output poisoned x) r))) [
            | true ↦
                update_Kept (record r { forgotten = r.forgotten ++ output ∷ [] }) (joins id release)
                  x (record x { poisoned = true }) m e (refl, refl, refl)
            | false ↦
                update_Kept r (joins id release) x (with_output output poisoned x) m e
                  (refl, refl, refl)
          ]

pub complete_physical-Kept :
    (id : TaskId) (release : Latch) (output : ℕ) (poisoned : Bool) (r : Reaper)
    → IsMatched r
    → Kept r (complete_physical id release output poisoned r)
unfolding complete_physical
complete_physical-Kept id release output poisoned r m =
    complete_record-Kept id release output poisoned r _ m refl

replace-Kept :
    (r : Reaper) (p : ReaperRecord → Bool) (x y : ReaperRecord)
    → IsMatched r
    → first p r.records ≡ some x
    → SameKey y x
    → Kept r (record r { records = replace_first p y r.records })
replace-Kept r p x y m h k = (
  replace-IsMatched r p x y m h k,
  λ q. omega (arith, tally-replace_first (of_record q) p x y r.records h (of_record_same q x y k)),
)

attach_record-Kept :
    (p : ReaperRecord → Bool) (bundle : ℕ) (releases : TerminalReleases) (r : Reaper)
    (found : Option ReaperRecord)
    → IsMatched r
    → first p r.records ≡ found
    → Kept r (attach_record p bundle releases r found)
attach_record-Kept p bundle releases r none m e = (m, λ q. omega arith)
attach_record-Kept p bundle releases r (some x) m e = elim (Bool-cases (is_some x.terminal)) [
  | inr f ↦ simp (f) (
      update_Kept r p x (record x { terminal = some bundle; terminal_releases = some releases }) m e
        (refl, refl, refl))
  | inl f ↦ elim (Bool-cases (shares_latch releases x.release)) [
    | inl g ↦ simp (f, g) ((m, λ q. omega arith))
    | inr g ↦ elim (Bool-cases (is_some x.duplicate_releases)) [
      | inl d ↦
          simp (f, g, d) (replace-Kept r p x (record x { poisoned = true }) m e (refl, refl, refl))
      | inr d ↦
          simp (f, g, d)
            (replace-Kept r p x (record x { duplicate_releases = some releases }) m e
              (refl, refl, refl))
    ]
  ]
]

pub attach_terminal-Kept :
    (id : TaskId) (bundle : ℕ) (state : Option Latch) (report : Latch) (r : Reaper)
    → IsMatched r
    → Kept r (attach_terminal id bundle state report r)
unfolding attach_terminal
attach_terminal-Kept id bundle state report r m =
    attach_record-Kept _ bundle (record { state = state; report = report }) r _ m refl

-- Registering a task that has no record.
pub register-IsMatched :
    (id : TaskId) (name : Name) (activity : ℕ) (release : Latch) (r : Reaper)
    → IsMatched r
    → tally (belongs id) r.records ≡ 0
    → IsMatched (register id name activity release r)
unfolding register
register-IsMatched id name activity release r m fresh = record {
  keys = λ q. omega (
    arith,
    m.keys q,
    tally-snoc (of_activity q) r.by_name _,
    tally-snoc (of_record q) r.records _,
  );
  once = λ asked.
      let step = tally-snoc (belongs asked) r.records (new_record id name release) in
      elim (Bool-cases (id == asked)) [
        | inl h ↦
            (let e : id ≡ asked = ground arith in
              ground (arith, step, fresh, ap (λ i. tally (belongs i) r.records) e))
        | inr h ↦ ground (arith, m.once asked, step)
      ];
  active_length = omega (arith, m.active_length, length-append r.records (_ ∷ []));
}
