-- ===== src/Registry/Admitting.antt =====
-- src/core/registry/admission: the insertion of a task and the invariant.
use taskvisor.Prelude.{
  ℕ, ◌+◌, ◌≤◌, true, false, ◌&&◌, Option, none, some, ◌==◌, ◌≡◌, refl, ap, sym, ◌∙◌, inl, inr,
  length, Map, lookup, insert, lookup-insert_self, insert-IsMap, insert_at, Within, Within-mono,
  one, tally, tally-insert_new, tally_no_key, tally_mono, tally-length, Bool-cases, Option-cases,
  arith,
}
use taskvisor.Slot.{TaskId}
use taskvisor.Controller.State.{Name}
use taskvisor.Registry.Reaper.{belongs, reserves_name}
use taskvisor.Registry.State.{
  registered, Entry, Registry, AddItem, exceeds, registered_limit_exceeded, conflicts,
}
use taskvisor.Registry.Admission.{handle_of, register_member}
use taskvisor.Registry.Soundness.{
  Test, of_entry, is_registered, is_removing, orphan, any, of_id, of_name, alive, IsIndexed,
  IsOwned, IsExclusive, IsSound,
}
use taskvisor.Registry.Claiming.{some-injective}
use taskvisor.Registry.Presence.{names_absent, orphans_unreserved, alive_entries}

-- A task that the registry and the reaper do not know.
abbrev pub IsFresh : TaskId → Registry → Type 0
IsFresh id st = (lookup id st.tasks ≡ none) × (tally (belongs id) st.reaper.records ≡ 0)

module _ (item : AddItem) (st : Registry) (m : IsSound st) (fresh : IsFresh item.id st)
    (unknown : lookup item.name st.by_name ≡ none)
    (unreserved : reserves_name item.name st.reaper ≡ false) where
  abbrev entry : Entry
  entry = record { name = item.name; state = registered (handle_of item) }

  abbrev grown : Map Entry
  grown = insert item.id entry st.tasks

  pub alive-insert :
      (q : Test)
      → alive q grown st.joins st.reaper.records
        ≡ alive q st.tasks st.joins st.reaper.records + one (q item.id item.name)
  alive-insert q = omega (arith, tally-insert_new (is_registered q) item.id entry st.tasks fresh.0)

  nobody :
      (q : Test)
      → tally (of_entry q) st.tasks ≡ 0
      → tally (orphan q) st.reaper.records ≡ 0
      → alive q st.tasks st.joins st.reaper.records ≡ 0
  nobody q a b =
      omega (arith, a, b, alive_entries q st.tasks st.joins st.pending.counts st.reaper.records m.1)

  name_alone : alive (of_name item.name) st.tasks st.joins st.reaper.records ≡ 0
  name_alone =
      nobody (of_name item.name) (names_absent item.name st.by_name st.tasks m.0 unknown)
        (orphans_unreserved item.name st.reaper m.4 unreserved)

  id_alone : alive (of_id item.id) st.tasks st.joins st.reaper.records ≡ 0
  id_alone =
      let below =
        tally_mono (λ x. x.0 == item.id && true) (of_entry (of_id item.id)) st.tasks
          (λ x. ground arith) in
      nobody (of_id item.id)
        (omega (arith, below, tally_no_key (λ x. true) item.id st.tasks fresh.0)) fresh.1

  own_name : lookup item.name (insert item.name item.id st.by_name) ≡ some item.id
  own_name = lookup-insert_self item.name item.id st.by_name

  own_entry : lookup item.id grown ≡ some entry
  own_entry = lookup-insert_self item.id entry st.tasks

  inserted-IsIndexed : IsIndexed grown (insert item.name item.id st.by_name)
  inserted-IsIndexed = record {
    unique = insert-IsMap item.id entry st.tasks m.0.unique;
    unique_names = insert-IsMap item.name item.id st.by_name m.0.unique_names;
    named = λ j e h. elim (insert_at item.id j entry st.tasks) [
      | inl (same, new) ↦
          (let e' = some-injective (sym new ∙ h) in
            ap (λ x. lookup x.name (insert item.name item.id st.by_name)) (sym e')
            ∙ own_name
            ∙ ap some same)
      | inr (other, old) ↦
          (let before = m.0.named j e (sym old ∙ h) in
            elim (insert_at item.name e.name item.id st.by_name) [
              | inl (same, new) ↦
                  ground (arith, before, unknown, ap (λ n. lookup n st.by_name) same)
              | inr (apart, kept) ↦ kept ∙ before
            ])
    ];
    known = λ n j h. elim (insert_at item.name n item.id st.by_name) [
      | inl (same, new) ↦
          (let j' = some-injective (sym new ∙ h) in
            (entry, ap (λ k. lookup k grown) (sym j') ∙ own_entry, same))
      | inr (other, old) ↦
          (let (e, here, its_name) = m.0.known n j (sym old ∙ h) in
            elim (insert_at item.id j entry st.tasks) [
              | inl (same, new) ↦ ground (arith, here, fresh.0, ap (λ k. lookup k st.tasks) same)
              | inr (apart, kept) ↦ (e, kept ∙ here, its_name)
            ])
    ];
  }

  inserted-IsOwned : IsOwned grown st.joins st.pending.counts
  inserted-IsOwned = record {
    unique_counts = m.1.unique_counts;
    owners = λ q.
        omega
          (arith, m.1.owners q, tally-insert_new (is_removing q) item.id entry st.tasks fresh.0);
    pending = m.1.pending;
    positive = m.1.positive;
  }

  one_more :
      (asked other : ℕ) (n : ℕ) → n ≤ 1 → (asked ≡ other → n ≡ 0) → n + one (asked == other) ≤ 1
  one_more asked other n h e = elim (Bool-cases (asked == other)) [
    | inl s ↦ ground (arith, s, e)
    | inr s ↦ ground (arith, s)
  ]

  inserted-IsExclusive : IsExclusive grown st.joins st.reaper.records
  inserted-IsExclusive = record {
    one_name = λ n. omega (
      arith,
      alive-insert (of_name n),
      one_more item.name n _ (m.2.one_name n) (λ same.
          ap (λ k. alive (of_name k) st.tasks st.joins st.reaper.records) (sym same) ∙ name_alone),
    );
    one_task = λ id. omega (
      arith,
      alive-insert (of_id id),
      one_more item.id id _ (m.2.one_task id) (λ same.
          ap (λ k. alive (of_id k) st.tasks st.joins st.reaper.records) (sym same) ∙ id_alone),
    );
  }

  -- An insertion, where the limit leaves room for one attempt more.
  pub insert-Sound :
      Within st.max_registered_tasks (alive any st.tasks st.joins st.reaper.records + 1)
      → IsSound (register_member item st)
  insert-Sound room = (
    inserted-IsIndexed,
    inserted-IsOwned,
    inserted-IsExclusive,
    Within-mono st.max_registered_tasks _ _ room (omega (arith, alive-insert any)),
    m.4,
  )

pub alive_total :
    (st : Registry)
    → IsSound st
    → alive any st.tasks st.joins st.reaper.records ≤ length st.tasks + st.reaper.active
alive_total st m = omega (
  arith,
  alive_entries any st.tasks st.joins st.pending.counts st.reaper.records m.1,
  tally-length st.tasks,
  tally-length st.reaper.records,
  m.4.active_length,
)

-- The limit check leaves the room that it asks for.
pub limit_room :
    (st : Registry) (incoming : ℕ)
    → IsSound st
    → registered_limit_exceeded st (length st.tasks) incoming ≡ false
    → Within st.max_registered_tasks (alive any st.tasks st.joins st.reaper.records + incoming)
unfolding registered_limit_exceeded
limit_room st incoming m h =
    exceeds-Within st.max_registered_tasks _ _ h (omega (arith, alive_total st m))
  where
    exceeds-Within :
        (limit : Option ℕ) (total used : ℕ)
        → exceeds limit total ≡ false
        → used ≤ total
        → Within limit used
    exceeds-Within none total used e below = tt
    exceeds-Within (some limit) total used e below = ground arith

pub conflicts_parts :
    (st : Registry) (name : Name)
    → conflicts st name ≡ false
    → (lookup name st.by_name ≡ none) × (reserves_name name st.reaper ≡ false)
unfolding conflicts
conflicts_parts st name h = elim (Option-cases (lookup name st.by_name)) [
  | inl e ↦ (e, simp (sym h, e) refl)
  | inr (id, e) ↦ ground (arith, e)
]
