-- ===== src/Registry/Pending.antt =====
-- src/core/registry/removal/pending.rs: the counts of the barrier after one owner has finished.
use taskvisor.Prelude.{
  ℕ, ◌+◌, ◌-◌, ◌≤◌, Option, none, some, ◌==◌, ◌≡◌, refl, ap, inl, inr, IsMap, lookup, remove_at,
  remove-IsMap, one, Bool-cases, lookup-remove, lookup-insert, insert-IsMap, insert_at, leb, arith,
}
use taskvisor.Slot.{TaskId}
use taskvisor.Registry.State.{PendingJoins, count_of, dec_count, dec}

dec_count-lookup :
    (id j : TaskId) (p : PendingJoins) (found : Option ℕ)
    → IsMap p.counts
    → lookup id p.counts ≡ found
    → 1 ≤ count_of found
    → (count_of (lookup j (dec_count id p found).counts) + one (id == j)
        ≡ count_of (lookup j p.counts))
      × IsMap (dec_count id p found).counts
dec_count-lookup id j p none u e h = ground (arith, h)
dec_count-lookup id j p (some n) u e h = elim (Bool-cases (leb n 1)) [
  | inl last ↦ simp (last) (
    elim (remove_at id j p.counts u) [
      | inl (same, gone) ↦ ground (arith, gone, e, last, h, ap (λ k. lookup k p.counts) same)
      | inr (other, kept) ↦ ground (arith, other, kept)
    ],
    remove-IsMap id p.counts u,
  )
  | inr more ↦ simp (more) (
    elim (insert_at id j (n - 1) p.counts) [
      | inl (same, new) ↦ ground (arith, new, e, more, ap (λ k. lookup k p.counts) same)
      | inr (other, kept) ↦ ground (arith, other, kept)
    ],
    insert-IsMap id (n - 1) p.counts u,
  )
]

pub dec-lookup :
    (id j : TaskId) (p : PendingJoins)
    → IsMap p.counts
    → 1 ≤ count_of (lookup id p.counts)
    → (count_of (lookup j (dec id p).counts) + one (id == j) ≡ count_of (lookup j p.counts))
      × IsMap (dec id p).counts
unfolding dec
dec-lookup id j p u h = dec_count-lookup id j p (lookup id p.counts) u refl h

pub dec-positive :
    (id j : TaskId) (k : ℕ) (p : PendingJoins)
    → IsMap p.counts
    → ((i : TaskId) (n : ℕ) → lookup i p.counts ≡ some n → 1 ≤ n)
    → lookup j (dec id p).counts ≡ some k
    → 1 ≤ k
unfolding dec
dec-positive id j k p u pos h = dec_count-positive (lookup id p.counts) h
  where
    dec_count-positive :
        (found : Option ℕ) → lookup j (dec_count id p found).counts ≡ some k → 1 ≤ k
    dec_count-positive none e = pos j k e
    dec_count-positive (some n) e = elim (Bool-cases (leb n 1)) [
      | inl last ↦ ground (arith, last, e, lookup-remove id j p.counts u, pos j k)
      | inr more ↦ ground (arith, more, e, lookup-insert id j (n - 1) p.counts, pos j k)
    ]
