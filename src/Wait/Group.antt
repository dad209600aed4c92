-- ===== src/Wait/Group.antt =====
-- The state of a wait group and the operations of its guards, in crates/wgroup/src/lib.rs. The
-- waker is the one of another library: the state lists the calls of it, the latest first.
use ora.Base.{
  ℕ, String, ◌+◌, ◌-◌, ◌^◌, ◌%◌, Bool, true, false, List, [], ◌∷◌, length, map, ◌==◌, if◌then◌else◌,
  Dict, insert, remove,
}

pub data WakerCall : Type 0 where
  register wake : WakerCall

-- `guards` has the name of each guard; `cancelled` is the state of the cancellation token.
pub record WgInner : Type 0 where
  pub next_id : ℕ
  pub guards : Dict String
  pub cancelled : Bool
  pub waker_calls : List WakerCall

abbrev pub new_group : WgInner
new_group = record { next_id = 0; guards = []; cancelled = false; waker_calls = [] }

-- `usize::MAX`, the ID of a guard of no group.
abbrev pub never_id : ℕ
never_id = 2 ^ 64 - 1

-- `fetch_add`, which wraps around: the ID, and the next one.
unfoldable pub new_id : WgInner → ℕ × WgInner
new_id g = (g.next_id, record g { next_id = (g.next_id + 1) % 2 ^ 64 })

-- The new guard's ID, and the group with the guard.
unfoldable pub add_guard : String → WgInner → ℕ × WgInner
unfolding new_id
add_guard name g = let (id, g') = new_id g in (id, record g' { guards = insert id name g'.guards })

-- `WaitGuard::add_with`: a guard of no group adds nothing.
unfoldable pub guard_add : ℕ → String → WgInner → ℕ × WgInner
unfolding add_guard
guard_add id name g = if id == never_id then (never_id, g) else add_guard name g

-- `WaitGuard::is_waiting`.
unfoldable pub guard_is_waiting : ℕ → WgInner → Bool
guard_is_waiting id g = if id == never_id then false else g.cancelled

-- What dropping a guard does first, and what dropping its waker does then.
unfoldable pub drop_guard : ℕ → WgInner → WgInner
drop_guard id g = record g { guards = remove id g.guards }

unfoldable pub drop_waker : WgInner → WgInner
drop_waker g = record g { waker_calls = wake ∷ g.waker_calls }

-- Dropping the group.
unfoldable pub drop_group : (cancel_on_drop : Bool) → WgInner → WgInner
drop_group cancel_on_drop g = if cancel_on_drop then record g { cancelled = true } else g

unfoldable pub count : WgInner → ℕ
count g = length g.guards

unfoldable pub is_done : WgInner → Bool
is_done g = elim g.guards [ [] ↦ true | e ∷ es ↦ false ]

abbrev pub registered : WgInner → WgInner
registered g = record g { waker_calls = register ∷ g.waker_calls }

-- `poll` of the future: whether it is ready.
unfoldable pub poll : WgInner → Bool × WgInner
poll g = if is_done g then (true, g) else (false, registered g)

pub data Item : Type 0 where
  pending finished : Item
  active : (count : ℕ) (names : List String) → Item

-- `poll_next` of the stream: the item, the last count, and the group.
unfoldable pub poll_next : (last_count : ℕ) → WgInner → Item × ℕ × WgInner
unfolding count
poll_next last_count g =
    if is_done g
    then (finished, last_count, g)
    else if last_count == count g
    then (pending, count g, registered g)
    else (active (count g) (map (λ e. e.1) g.guards), count g, registered g)
