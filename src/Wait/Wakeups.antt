-- ===== src/Wait/Wakeups.antt =====
-- Guards of a wait group are added and dropped while a task waits for them: what is tracked, and
-- that no wakeup is lost.
use ora.Base.{
  ℕ, String, suc, ◌+◌, ◌^◌, ◌<◌, ◌≡◌, ◌⊎◌, inl, inr, refl, ◌↔◌, Bool, true, false, not, List, [],
  ◌∷◌, arith, any, retain, ◌==◌, is_some, lookup, lookup-insert, lookup-remove, insert,
  if◌then◌else◌, if_cases, Dict, ◌%◌,
}
use ora.Wait.Group.{
  WakerCall, register, wake, WgInner, new_group, new_id, add_guard, drop_guard, drop_waker,
  drop_group, is_done, poll, poll_next, registered, count, Item,
}

-- The group, the guards that are held, and how many guards are half dropped: removed from the
-- group, but their waker is not dropped yet.
pub record System : Type 0 where
  pub group : WgInner
  pub held : List ℕ
  pub half_dropped : ℕ

abbrev pub is_held : ℕ → List ℕ → Bool
is_held id held = any (λ k. k == id) held

-- The threads' steps in any order. A drop takes two steps, and another thread may come between
-- them. IDs do not run out.
pub data Step : System → System → Type 0 where
  add :
      (name : String) (s : System)
      → s.group.next_id + 1 < 2 ^ 64
      → Step s (record s {
        group = (add_guard name s.group).1;
        held = (add_guard name s.group).0 ∷ s.held;
      })
  drop_first :
      (id : ℕ) (s : System)
      → is_held id s.held ≡ true
      → Step s (record {
        group = drop_guard id s.group;
        held = retain (λ k. not (k == id)) s.held;
        half_dropped = suc s.half_dropped;
      })
  drop_then :
      (n : ℕ) (s : System)
      → s.half_dropped ≡ suc n
      → Step s (record s { group = drop_waker s.group; half_dropped = n })
  cancel :
      (cancel_on_drop : Bool) (s : System)
      → Step s (record s { group = drop_group cancel_on_drop s.group })
  wait : (s : System) → Step s (record s { group = (poll s.group).1 })
  wait_next : (last : ℕ) (s : System) → Step s (record s { group = (poll_next last s.group).2 })

pub data Reachable : System → Type 0 where
  start : Reachable (record { group = new_group; held = []; half_dropped = 0 })
  next : {s t : System} → Reachable s → Step s t → Reachable t

-- Whether the waker was registered and not woken since.
unfoldable pub is_awaiting : List WakerCall → Bool
is_awaiting [] = false
is_awaiting (register ∷ cs) = true
is_awaiting (wake ∷ cs) = false

pub record Inv (s : System) : Type 0 where
  pub tracked : (id : ℕ) → is_some (lookup id s.group.guards) ≡ is_held id s.held
  pub below : (id : ℕ) → is_held id s.held ≡ true → id < s.group.next_id
  pub woken :
      is_awaiting s.group.waker_calls ≡ true → (is_done s.group ≡ false) ⊎ (0 < s.half_dropped)

is_held-retain :
    (id k : ℕ) (held : List ℕ)
    → is_held k (retain (λ j. not (j == id)) held) ≡ (if id == k then false else is_held k held)
unfolding any retain
is_held-retain id k [] = ground arith
is_held-retain id k (j ∷ held) = ground (arith, is_held-retain id k held)

-- With one more guard a group is not done.
is_done-insert :
    (id : ℕ) (name : String) (g : WgInner) (entries : Dict String)
    → is_done (record g { guards = insert id name entries }) ≡ false
unfolding is_done insert
is_done-insert id name g [] = refl
is_done-insert id name g (entry ∷ entries) = ground (arith)

-- A step that leaves the guards, the IDs and the waker alone.
same-Inv :
    (s : System) (c : Bool) → Inv s → Inv (record s { group = record s.group { cancelled = c } })
unfolding is_done
same-Inv s c v = record { tracked = v.tracked; below = v.below; woken = v.woken }

-- A registration while the group is not done.
registered-Inv :
    (s : System) → is_done s.group ≡ false → Inv s → Inv (record s { group = registered s.group })
unfolding is_done
registered-Inv s h v = record { tracked = v.tracked; below = v.below; woken = λ a. inl h }

Step-Inv : {s t : System} → Step s t → Inv s → Inv t
unfolding add_guard new_id drop_guard drop_waker drop_group poll poll_next is_awaiting any
Step-Inv (add name s bound) v = record {
  tracked =
      λ id. ground (arith, lookup-insert s.group.next_id id name s.group.guards, v.tracked id);
  below = λ id h. ground (arith, v.below id);
  woken = λ h. inl (
      is_done-insert s.group.next_id name
        (record s.group { next_id = (s.group.next_id + 1) % 2 ^ 64 }) s.group.guards);
}
Step-Inv (drop_first id s h) v = record {
  tracked = λ k.
      ground (arith, lookup-remove id k s.group.guards, v.tracked k, is_held-retain id k s.held);
  below = λ k h'. ground (arith, v.below k, is_held-retain id k s.held);
  woken = λ h'. inr (omega arith);
}
Step-Inv (drop_then n s h) v = record { tracked = v.tracked; below = v.below; woken = λ h'. cc }
Step-Inv (cancel true s) v = same-Inv s true v
Step-Inv (cancel false s) v = v
Step-Inv (wait s) v =
    if_cases (λ (r : Bool × WgInner). Inv (record s { group = r.1 })) (is_done s.group) _ _ (λ h. v)
      (λ h. registered-Inv s h v)
Step-Inv (wait_next last s) v =
    if_cases (λ (r : Item × ℕ × WgInner). Inv (record s { group = r.2 })) (is_done s.group) _ _
      (λ h. v)
      (λ h.
        if_cases (λ (r : Item × ℕ × WgInner). Inv (record s { group = r.2 }))
          (last == count s.group) _ _ (λ same. registered-Inv s h v)
          (λ other. registered-Inv s h v))

Inv-Reachable : {s : System} → Reachable s → Inv s
unfolding any lookup is_awaiting
Inv-Reachable start = record { tracked = λ id. refl; below = λ id h. cc; woken = λ h. cc }
Inv-Reachable (next r st) = Step-Inv st (Inv-Reachable r)

is_done-is_held :
    (g : WgInner) (entries : Dict String) (held : List ℕ)
    → ((id : ℕ) → is_some (lookup id entries) ≡ is_held id held)
    → (is_done (record g { guards = entries }) ≡ true) ↔ (held ≡ [])
unfolding is_done lookup any
is_done-is_held g [] [] h = (λ d. refl, λ e. refl)
is_done-is_held g [] (k ∷ held) h = absurd (ground (arith, h k))
is_done-is_held g (entry ∷ entries) [] h = absurd (ground (arith, h entry.0))
is_done-is_held g (entry ∷ entries) (k ∷ held) h = (λ d. cc, λ e. cc)

-- In every order of steps in which IDs do not run out, a group is done exactly when no guard is
-- held; and when it is done and no guard is half dropped, a task that registered its waker while
-- guards were held has been woken since.
pub no_lost_wakeup :
    {s : System}
    → Reachable s
    → ((is_done s.group ≡ true) ↔ (s.held ≡ []))
      × (is_done s.group ≡ true → s.half_dropped ≡ 0 → is_awaiting s.group.waker_calls ≡ false)
no_lost_wakeup {s} r =
    let v = Inv-Reachable r in
    (is_done-is_held s.group s.group.guards s.held v.tracked, λ d z. ground (arith, v.woken))
