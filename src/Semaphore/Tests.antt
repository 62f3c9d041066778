-- ===== src/Semaphore/Tests.antt =====
-- Runs of the semaphore, and its theorems at them.
use async_uv.Base.{
  ℕ, ◌+◌, ◌-◌, ◌≤◌, ◌≡◌, refl, inl, true, false, List, [], ◌∷◌, ◌++◌, arith, take, drop, length,
}
use async_uv.Semaphore.{
  Semaphore, acquired, refused, stopped, create, start, request_stop, release, release_locked,
  close, close_locked, enqueue_waiter_locked, remove_waiter_locked, finish_all,
}
use async_uv.Semaphore.Links.{Spells, AllDifferent, enqueue-Spells}
use async_uv.Semaphore.Removal.{erase}
use async_uv.Semaphore.Queue.{remove_waiter-Spells, release_locked-Spells, close_locked-Spells}
use async_uv.Semaphore.Log.{ids, granted}
use async_uv.Semaphore.Steps.{
  World, started_with, released, delivered, starts, releases, delivers, Reach, here, next, initial,
}
use async_uv.Semaphore.Invariant.{Invariant, initial-Invariant}
use async_uv.Semaphore.Safety.{Reach-Invariant, granted-le-supplied}
use async_uv.Semaphore.LostWakeup.{release_lost}

running : Unit {0}
unfolding create start request_stop release close release_locked close_locked enqueue_waiter_locked
    remove_waiter_locked finish_all started_with released delivered initial
running = tt

-- Two waiters behind the holder of the only permit.
abbrev three : Semaphore
three = start 3 false (start 2 false (start 1 false (create 1)))

fifo : (release 2 three).log ≡ (1, acquired) ∷ (2, acquired) ∷ (3, acquired) ∷ []
unfolding running
fifo = refl

stopped_first :
    (release 1 (request_stop 2 three)).log ≡ (1, acquired) ∷ (2, stopped) ∷ (3, acquired) ∷ []
unfolding running
stopped_first = refl

closed_log : (close 9 three).log ≡ (1, acquired) ∷ (2, refused) ∷ (3, refused) ∷ []
unfolding running
closed_log = refl

abbrev two_waiting : Semaphore
two_waiting = enqueue_waiter_locked 8 (enqueue_waiter_locked 7 (create 0))

two_waiting-Spells : Spells two_waiting (7 ∷ 8 ∷ [])
unfolding initial
two_waiting-Spells =
    enqueue-Spells 8 _ (7 ∷ []) (enqueue-Spells 7 _ [] (initial-Invariant 0).spells tt)
      (omega arith)

remove_waiter-Spells_example : Spells (remove_waiter_locked 7 two_waiting) (erase 7 (7 ∷ 8 ∷ []))
remove_waiter-Spells_example =
    remove_waiter-Spells 7 two_waiting (7 ∷ 8 ∷ []) two_waiting-Spells (inl refl)

release_locked-Spells_example :
    let (ready, t) = release_locked 5 two_waiting in
    (ready ≡ take 5 (7 ∷ 8 ∷ []))
    × Spells t (drop 5 (7 ∷ 8 ∷ []))
    × (t.permits ≡ two_waiting.permits + (5 - length {A = ℕ} (7 ∷ 8 ∷ [])))
    × (t.closed ≡ false)
unfolding running
release_locked-Spells_example =
    release_locked-Spells 5 two_waiting (7 ∷ 8 ∷ []) two_waiting-Spells refl

close_locked-Spells_example :
    let (waiting, t) = close_locked 2 two_waiting in
    (waiting ≡ 7 ∷ 8 ∷ []) × Spells t [] × (t.permits ≡ 0) × (t.closed ≡ true)
unfolding running
close_locked-Spells_example =
    close_locked-Spells 2 two_waiting (7 ∷ 8 ∷ []) two_waiting-Spells refl (omega arith)

release_lost_example :
    let (ready, t) = release_locked 1 two_waiting in
    let t' = finish_all true ready (request_stop 7 t) in
    Spells t' (8 ∷ [])
    × (t'.permits ≡ two_waiting.permits)
    × (t'.log ≡ two_waiting.log ++ (7, stopped) ∷ [])
unfolding running
release_lost_example = release_lost two_waiting 7 (8 ∷ []) two_waiting-Spells refl refl

-- One starts with no permit, `release` takes it off the list, and it is told.
abbrev waits : World
waits = started_with 7 false (initial 0)

abbrev told : World
told = delivered [] 7 true (released 1 waits)

waits_then_told : Reach (initial 0) told
unfolding running
waits_then_told =
    next (next (next here (starts 7 false refl)) (releases 1)) (delivers [] [] 7 true refl)

Reach-Invariant_example : (xs : List ℕ) × Invariant told xs
Reach-Invariant_example = Reach-Invariant 0 waits_then_told

granted-le-supplied_example :
    (granted told.sem.log ≤ told.supplied) × AllDifferent (ids told.sem.log)
granted-le-supplied_example = granted-le-supplied 0 waits_then_told
