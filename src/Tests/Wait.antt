-- ===== src/Tests/Wait.antt =====
-- The theorem about wait groups at a concrete history.
use ora.Base.{◌≡◌, ◌↔◌, refl, true, false, [], ◌∷◌, arith, any, retain, not, ◌==◌}
use ora.Wait.Group.{new_group, new_id, add_guard, drop_guard, drop_waker, poll, is_done}
use ora.Wait.Wakeups.{
  System, add, drop_first, drop_then, wait, Reachable, start, next, is_awaiting, no_lost_wakeup,
}

-- A guard is added, a task waits, and the guard is dropped.
abbrev at_first : System
at_first = record { group = new_group; held = []; half_dropped = 0 }

abbrev with_guard : System
with_guard = record {
  group = (add_guard "worker" new_group).1;
  held = (add_guard "worker" new_group).0 ∷ [];
  half_dropped = 0;
}

abbrev waited_for : System
waited_for = record with_guard { group = (poll with_guard.group).1 }

abbrev half_way : System
half_way = record {
  group = drop_guard 0 waited_for.group;
  held = retain (λ k. not (k == 0)) with_guard.held;
  half_dropped = 1;
}

abbrev at_last : System
at_last = record half_way { group = drop_waker half_way.group; half_dropped = 0 }

at_last-Reachable : Reachable at_last
unfolding add_guard new_id any
at_last-Reachable =
    next
      (next (next (next start (add "worker" at_first (ground arith))) (wait with_guard))
        (drop_first 0 waited_for refl))
      (drop_then 0 half_way refl)

no_lost_wakeup_example :
    ((is_done at_last.group ≡ true) ↔ (at_last.held ≡ []))
    × (is_done at_last.group ≡ true
        → at_last.half_dropped ≡ 0
        → is_awaiting at_last.group.waker_calls ≡ false)
no_lost_wakeup_example = no_lost_wakeup at_last-Reachable
