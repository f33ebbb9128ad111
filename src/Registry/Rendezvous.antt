-- ===== src/Registry/Rendezvous.antt =====
-- src/core/registry/scheduler/reaper.rs: the meeting of a physical exit and a terminal bundle.
use mathlib.Core.List.{append-nil}
use taskvisor.Prelude.{
  ℕ, ◌+◌, ◌-◌, Bool, true, ◌&&◌, Option, none, some, List, [], ◌∷◌, ◌++◌, ◌==◌, ◌≡◌, refl, ap, ◌∙◌,
  inl, inr, if◌then◌else◌, tally, Bool-cases, arith, tally_mono,
}
use taskvisor.Slot.{TaskId}
use taskvisor.Controller.State.{Name}
use taskvisor.Registry.Reaper.{
  Latch, ReaperActivity, ReaperRecord, TerminalReleases, Reaper, latches, new_record, register,
  first, replace_first, remove_first, is_owned_by, retain, take_ready_record, submit_ready, joins,
  with_output, complete_physical, matches, lacks_terminal, belongs, choose, attach_record,
  attach_terminal,
}
use taskvisor.Registry.Matching.{of_record, IsMatched}

first_fresh :
    (p : ReaperRecord → Bool) (id : TaskId) (xs : List ReaperRecord)
    → ((x : ReaperRecord) → p x ≡ true → belongs id x ≡ true)
    → tally (belongs id) xs ≡ 0
    → first p xs ≡ none
unfolding first tally
first_fresh p id [] h e = refl
first_fresh p id (x ∷ xs) h e = ground (arith, h x, first_fresh p id xs h)

-- A new record at the end is the one that an operation on its task finds.
module _ (p : ReaperRecord → Bool) (x : ReaperRecord) where
  first_last :
      (xs : List ReaperRecord)
      → first p xs ≡ none
      → first p (xs ++ x ∷ []) ≡ (if p x then some x else none)
  unfolding first
  first_last [] h = refl
  first_last (y ∷ xs) h = ground (arith, first_last xs)

  replace_last :
      (y : ReaperRecord) (xs : List ReaperRecord)
      → first p xs ≡ none
      → p x ≡ true
      → replace_first p y (xs ++ x ∷ []) ≡ xs ++ y ∷ []
  unfolding first replace_first
  replace_last y [] h t = ground arith
  replace_last y (z ∷ xs) h t = ground (arith, replace_last y xs)

  remove_last :
      (xs : List ReaperRecord) → first p xs ≡ none → p x ≡ true → remove_first p (xs ++ x ∷ []) ≡ xs
  unfolding first remove_first
  remove_last [] h t = ground arith
  remove_last (z ∷ xs) h t = ground (arith, remove_last xs)

retain_last :
    (x : ReaperRecord) (a : ReaperActivity) (list : List ReaperActivity)
    → tally (is_owned_by x) list ≡ 0
    → is_owned_by x a ≡ true
    → retain x (list ++ a ∷ []) ≡ list
unfolding tally retain
retain_last x a [] h t = ground arith
retain_last x a (b ∷ list) h t = ground (arith, retain_last x a list)

module _ (id : TaskId) (releases : TerminalReleases) (y : ReaperRecord) (xs : List ReaperRecord)
    (fresh : tally (belongs id) xs ≡ 0) where
  choose_last :
      belongs id y ≡ true
      → y.terminal ≡ none
      → (first (choose id releases (xs ++ y ∷ [])) xs ≡ none)
        × (choose id releases (xs ++ y ∷ []) y ≡ true)
  unfolding choose
  choose_last own vacant =
      let m = first_fresh (matches id releases) id xs (λ z h. ground arith) fresh in
      let l = first_fresh (lacks_terminal id) id xs (λ z h. ground arith) fresh in
      elim (Bool-cases (matches id releases y)) [
        | inl h ↦ simp (first_last (matches id releases) y xs m, h) (m, refl)
        | inr h ↦
            (let t : lacks_terminal id y ≡ true = ground arith in
              simp
                (
                  first_last (matches id releases) y xs m,
                  h,
                  first_last (lacks_terminal id) y xs l,
                  t,
                )
                (l, refl))
      ]

-- An operation on the last record: it is replaced while it is not ready.
attach_last :
    (p : ReaperRecord → Bool) (bundle : ℕ) (releases : TerminalReleases) (y : ReaperRecord)
    (xs : List ReaperRecord) (r : Reaper)
    → r.records ≡ xs ++ y ∷ []
    → (first p xs ≡ none) × (p y ≡ true)
    → y.terminal ≡ none
    → attach_record p bundle releases r (first p r.records)
      ≡ submit_ready (
          take_ready_record p
            (record y { terminal = some bundle; terminal_releases = some releases })
            r)
attach_last p bundle releases y xs r e h t = simp (e, first_last p y xs h.0, h.1, t) refl

-- What the two arrivals leave: one hand-over, and the maps as they were.
abbrev pub met : ℕ → ℕ → Bool → TerminalReleases → Latch → Reaper → Reaper
met bundle output poisoned releases release r = record r {
  submitted =
      r.submitted ++ record { bundle = bundle; physical = some output; poisoned = poisoned } ∷ [];
  released = r.released ++ (release ∷ []) ++ latches releases;
}

module _ (id : TaskId) (name : Name) (activity : ℕ) (release : Latch) (output : ℕ) (poisoned : Bool)
    (bundle : ℕ) (state : Option Latch) (report : Latch) (r : Reaper) (m : IsMatched r)
    (fresh : tally (belongs id) r.records ≡ 0) where
  exit_first :
      complete_physical id release output poisoned (register id name activity release r)
      ≡ record (register id name activity release r) {
        records = r.records ++ with_output output poisoned (new_record id name release) ∷ [];
      }
  unfolding complete_physical register submit_ready take_ready_record
  exit_first =
      let x = new_record id name release in
      let f = first_fresh (joins id release) id r.records (λ z h. ground arith) fresh in
      let t : joins id release x ≡ true = ground arith in
      simp
        (
          first_last (joins id release) x r.records f,
          t,
          replace_last (joins id release) x (with_output output poisoned x) r.records f t,
        )
        refl

  full : ReaperRecord
  full = record (new_record id name release) {
    physical = some output;
    terminal = some bundle;
    terminal_releases = some (record { state = state; report = report });
    poisoned = poisoned;
  }

  full_last :
      (p : ReaperRecord → Bool) (x : ReaperRecord)
      → first p r.records ≡ none
      → p x ≡ true
      → submit_ready (
          take_ready_record p full
            (record (register id name activity release r) { records = r.records ++ x ∷ [] }))
        ≡ met bundle output poisoned (record { state = state; report = report }) release r
  unfolding full register submit_ready take_ready_record
  full_last p x f t =
      let mine = m.keys (λ i n l. n == name && (i == id && l == release)) in
      let none_owned : tally (is_owned_by full) r.by_name ≡ 0 =
        let below =
          tally_mono (belongs id) (of_record (λ i n l. n == name && (i == id && l == release)))
            r.records (λ z. ground arith) in
        omega (arith, mine, below, fresh) in
      let same_active : r.active + 1 - 1 ≡ r.active = omega arith in
      simp
        (
          remove_last p x r.records f t,
          retain_last full (record { name = name; id = id; release = release; activity = activity })
              r.by_name none_owned (ground arith),
          same_active,
          append-nil,
        )
        refl

  terminal_second :
      attach_terminal id bundle state report
        (complete_physical id release output poisoned (register id name activity release r))
      ≡ met bundle output poisoned (record { state = state; report = report }) release r
  unfolding attach_terminal full
  terminal_second =
      let releases : TerminalReleases = record { state = state; report = report } in
      let y = with_output output poisoned (new_record id name release) in
      let c = choose_last id releases y r.records fresh (ground arith) refl in
      let p = choose id releases (r.records ++ y ∷ []) in
      ap (attach_terminal id bundle state report) exit_first
      ∙ attach_last p bundle releases y r.records
          (record (register id name activity release r) { records = r.records ++ y ∷ [] }) refl c
          refl
      ∙ full_last p y c.0 c.1

  terminal_first :
      attach_terminal id bundle state report (register id name activity release r)
      ≡ record (register id name activity release r) {
        records =
            r.records
            ++ record (new_record id name release) {
              terminal = some bundle;
              terminal_releases = some (record { state = state; report = report });
            }
              ∷ [];
      }
  unfolding attach_terminal register submit_ready take_ready_record
  terminal_first =
      let releases : TerminalReleases = record { state = state; report = report } in
      let y = new_record id name release in
      let c = choose_last id releases y r.records fresh (ground arith) refl in
      let p = choose id releases (r.records ++ y ∷ []) in
      attach_last p bundle releases y r.records (register id name activity release r) refl c refl
      ∙ simp
          (replace_last p y (record y { terminal = some bundle; terminal_releases = some releases })
            r.records c.0 c.1)
          refl

  exit_second :
      complete_physical id release output poisoned
        (attach_terminal id bundle state report (register id name activity release r))
      ≡ met bundle output poisoned (record { state = state; report = report }) release r
  unfolding complete_physical full
  exit_second =
      let x : ReaperRecord = record (new_record id name release) {
        terminal = some bundle;
        terminal_releases = some (record { state = state; report = report });
      } in
      let f = first_fresh (joins id release) id r.records (λ z h. ground arith) fresh in
      let t : joins id release x ≡ true = ground arith in
      ap (complete_physical id release output poisoned) terminal_first
      ∙ simp (first_last (joins id release) x r.records f, t) refl
      ∙ full_last (joins id release) x f t

-- After an attempt of a task without records is registered in a reaper whose two maps correspond,
-- its physical exit and its terminal bundle may come in either order: both orders end in the reaper
-- from before the registration, with the bundle and the output in one hand-over and the attempt's
-- latch completed before the report's.
pub rendezvous :
    (id : TaskId) (name : Name) (activity : ℕ) (release : Latch) (output : ℕ) (poisoned : Bool)
    (bundle : ℕ) (state : Option Latch) (report : Latch) (r : Reaper)
    → IsMatched r
    → tally (belongs id) r.records ≡ 0
    → (attach_terminal id bundle state report
          (complete_physical id release output poisoned (register id name activity release r))
        ≡ met bundle output poisoned (record { state = state; report = report }) release r)
      × (complete_physical id release output poisoned
            (attach_terminal id bundle state report (register id name activity release r))
          ≡ met bundle output poisoned (record { state = state; report = report }) release r)
rendezvous id name activity release output poisoned bundle state report r m fresh = (
  terminal_second id name activity release output poisoned bundle state report r m fresh,
  exit_second id name activity release output poisoned bundle state report r m fresh,
)
