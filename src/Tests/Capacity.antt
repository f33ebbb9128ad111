-- ===== src/Tests/Capacity.antt =====
-- A broker of two units: a batch takes both, a request waits, a permit is given back, and the
-- request observes its grant.
use taskvisor.Prelude.{◌+◌, ◌≤◌, ◌≡◌, refl, false, [], ◌∷◌, arith, lookup, insert}
use taskvisor.Capacity.{Broker, Status, limited, new, try_acquire, start_acquire_one, release}
use taskvisor.Capacity.Dispatch.{granted_count}
use taskvisor.Capacity.Accounting.{Accounted, release-Accounted}
use taskvisor.Capacity.Reach.{Reach, opened, batch, wait, give_back, Reach-Accounted, Reach_bounded}

abbrev taken : Broker
taken = record {
  limit = 2;
  is_closed = false;
  mode = limited (record { available = 0; effective_capacity = 2; waiters = [] });
  signals = [];
  retirements = [];
}

abbrev queued : Broker
queued = record taken {
  mode = limited (record { available = 0; effective_capacity = 2; waiters = 9 ∷ [] });
  signals = (9, Status.waiting) ∷ [];
}

taken_reach : Reach 2 taken 2
unfolding try_acquire new
taken_reach = batch {b = new 2} 2 opened refl

queued_reach : Reach 2 queued 2
unfolding start_acquire_one lookup insert
queued_reach = wait {b = taken} 9 taken_reach refl refl

released_reach : Reach 2 (release queued 1) 1
released_reach = give_back 1 queued_reach (omega arith)

Reach-Accounted_example : Accounted (release queued 1) 1
Reach-Accounted_example = Reach-Accounted released_reach

Reach_bounded_example : 1 + granted_count (release queued 1).signals ≤ 2
Reach_bounded_example = Reach_bounded (omega arith) released_reach

release-Accounted_example :
    Accounted (release queued 2) 0 × ((release queued 2).is_closed ≡ queued.is_closed)
release-Accounted_example =
    release-Accounted queued 2 2 (omega arith) (Reach-Accounted queued_reach)
