-- ===== src/Semaphore.antt =====
-- include/flux/async_semaphore.h: AsyncSemaphore with its intrusive list of waiters, and the
-- operations of AcquireSender. A number stands for the address of a WaiterNode and of the Operation
-- that holds it (`owner`); `none` is the null pointer. What the receivers are told is a log.
-- Each function that ends in `_locked` is one critical section; what follows it runs unlocked.
-- `permits_` is a std::ptrdiff_t: that the permits which are free at a time are fewer than 2 ^ 63 is
-- assumed, and that memory is there for the lists of the waiters to wake.
pub mod Links
pub mod Removal
pub mod Queue
pub mod Steps
pub mod Log
pub mod Invariant
pub mod Preservation
pub mod Safety
pub mod LostWakeup
mod Tests
use async_uv.Base.{
  ℕ, suc, ◌+◌, ◌-◌, Bool, true, false, Option, none, some, List, [], ◌∷◌, ◌++◌, ◌==◌, if◌then◌else◌,
  zero,
}

-- `WaiterNode`; its `owner` and `complete` are fixed when the operation is built.
pub record WaiterNode : Type 0 where
  pub prev : Option ℕ
  pub next : Option ℕ
  pub queued : Bool

-- set_value(true), set_value(false), set_stopped()
pub data Outcome : Type 0 where
  acquired refused stopped : Outcome

pub record Semaphore : Type 0 where
  pub permits : ℕ
  pub closed : Bool
  pub head : Option ℕ
  pub tail : Option ℕ
  pub node : ℕ → WaiterNode
  -- `Operation::completed`
  pub completed : ℕ → Bool
  pub log : List (ℕ × Outcome)

abbrev pub update {ℓ} : {A : Type ℓ} → (ℕ → A) → ℕ → A → ℕ → A
update f i v j = if j == i then v else f j

abbrev pub idle_node : WaiterNode
idle_node = record { prev = none; next = none; queued = false }

unfoldable pub create : ℕ → Semaphore
create permits = record {
  permits = permits;
  closed = false;
  head = none;
  tail = none;
  node = λ _. idle_node;
  completed = λ _. false;
  log = [];
}

abbrev set_next : ℕ → Option ℕ → (ℕ → WaiterNode) → ℕ → WaiterNode
set_next i next node = update node i (record (node i) { next = next })

abbrev set_prev : ℕ → Option ℕ → (ℕ → WaiterNode) → ℕ → WaiterNode
set_prev i prev node = update node i (record (node i) { prev = prev })

-- `if (tail_ != nullptr) tail_->next = waiter; else head_ = waiter;`
abbrev link_after : Option ℕ → ℕ → Semaphore → Semaphore
link_after none waiter s = record s { head = some waiter }
link_after (some t) waiter s = record s { node = set_next t (some waiter) s.node }

unfoldable pub enqueue_waiter_locked : ℕ → Semaphore → Semaphore
enqueue_waiter_locked waiter s =
    let written = record s {
      node = update s.node waiter (record { prev = s.tail; next = none; queued = true });
    } in
    let linked = link_after s.tail waiter written in record linked { tail = some waiter }

-- `if (waiter->prev != nullptr) waiter->prev->next = waiter->next; else head_ = waiter->next;`
abbrev bypass_next : Option ℕ → Option ℕ → Semaphore → Semaphore
bypass_next none next s = record s { head = next }
bypass_next (some p) next s = record s { node = set_next p next s.node }

-- `if (waiter->next != nullptr) waiter->next->prev = waiter->prev; else tail_ = waiter->prev;`
abbrev bypass_prev : Option ℕ → Option ℕ → Semaphore → Semaphore
bypass_prev none prev s = record s { tail = prev }
bypass_prev (some q) prev s = record s { node = set_prev q prev s.node }

abbrev unlink : ℕ → Semaphore → Semaphore
unlink waiter s =
    let s' = bypass_next (s.node waiter).prev (s.node waiter).next s in
    let s'' = bypass_prev (s'.node waiter).next (s'.node waiter).prev s' in
    record s'' { node = update s''.node waiter idle_node }

unfoldable pub remove_waiter_locked : ℕ → Semaphore → Semaphore
remove_waiter_locked waiter s = if (s.node waiter).queued then unlink waiter s else s

-- `if (head_ != nullptr) head_->prev = nullptr; else tail_ = nullptr;`
abbrev detach_front : Option ℕ → Semaphore → Semaphore
detach_front none s = record s { tail = none }
detach_front (some h) s = record s { node = set_prev h none s.node }

unfoldable pub pop_from : Option ℕ → Semaphore → Option ℕ × Semaphore
pop_from none s = (none, s)
pop_from (some waiter) s =
    let next = (s.node waiter).next in
    let s' = detach_front next (record s { head = next }) in
    (some waiter, record s' { node = update s'.node waiter idle_node })

unfoldable pub pop_front_waiter_locked : Semaphore → Option ℕ × Semaphore
unfolding pop_from
pop_front_waiter_locked s = pop_from s.head s

-- `mark_completed`, and the completion of the receiver if it succeeds.
unfoldable pub finish_with : Outcome → ℕ → Semaphore → Semaphore
finish_with outcome waiter s = if s.completed waiter then s else record s {
  completed = update s.completed waiter true;
  log = s.log ++ (waiter, outcome) ∷ [];
}

unfoldable pub finish : Bool → ℕ → Semaphore → Semaphore
unfolding finish_with
finish ok waiter s = finish_with (if ok then acquired else refused) waiter s

-- `waiter->complete(waiter->owner, ok)` for each waiter that was taken off the list.
unfoldable pub finish_all : Bool → List ℕ → Semaphore → Semaphore
unfolding finish
finish_all ok [] s = s
finish_all ok (waiter ∷ waiters) s = finish_all ok waiters (finish ok waiter s)

-- The loop of `release`: one permit to the first waiter, or to the counter.
unfoldable pub release_loop : ℕ → Semaphore → List ℕ × Semaphore
unfolding pop_front_waiter_locked
release_loop zero s = ([], s)
release_loop (suc n) s =
    let (popped, s') = pop_front_waiter_locked s in
    elim popped [
      | none ↦ release_loop n (record s { permits = s.permits + 1 })
      | some waiter ↦ let (ready, s'') = release_loop n s' in (waiter ∷ ready, s'')
    ]

-- The critical section of `release`: the waiters to wake, first in line first. A count of 0 stands
-- for every count that is not positive. Before it `ready.reserve` takes memory for as many waiters
-- as the count says, which is assumed to succeed: where it throws, nothing is changed.
unfoldable pub release_locked : ℕ → Semaphore → List ℕ × Semaphore
unfolding release_loop
release_locked n s = if s.closed then ([], s) else release_loop n s

pub release : ℕ → Semaphore → Semaphore
release n s = let (ready, s') = release_locked n s in finish_all true ready s'

-- The loop of `close`: `fuel` bounds the waiters that are taken off the list.
unfoldable pub drain : ℕ → Semaphore → List ℕ × Semaphore
unfolding pop_front_waiter_locked
drain zero s = ([], s)
drain (suc fuel) s =
    let (popped, s') = pop_front_waiter_locked s in
    elim popped [
      | none ↦ ([], s)
      | some waiter ↦ let (waiting, s'') = drain fuel s' in (waiter ∷ waiting, s'')
    ]

-- The critical section of `close`.
unfoldable pub close_locked : ℕ → Semaphore → List ℕ × Semaphore
unfolding drain
close_locked fuel s =
    if s.closed then ([], s) else drain fuel (record s { closed = true; permits = 0 })

pub close : ℕ → Semaphore → Semaphore
close fuel s = let (waiting, s') = close_locked fuel s in finish_all false waiting s'

-- `Operation::start`, with what the stop token says at its beginning.
unfoldable pub start : ℕ → Bool → Semaphore → Semaphore
start waiter true s = finish_with stopped waiter s
start waiter false s =
    if s.closed
    then finish false waiter s
    else if s.permits == 0
    then enqueue_waiter_locked waiter s
    else finish true waiter (record s { permits = s.permits - 1 })

-- `Operation::request_stop`, the stop callback.
unfoldable pub request_stop : ℕ → Semaphore → Semaphore
request_stop waiter s =
    if s.completed waiter then s else finish_with stopped waiter (remove_waiter_locked waiter s)
