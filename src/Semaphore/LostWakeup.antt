-- ===== src/Semaphore/LostWakeup.antt =====
-- A stop that arrives between the critical section of `release` and its calls of `complete`.
use async_uv.Base.{
  ℕ, ◌≡◌, Bool, true, false, List, [], ◌∷◌, ◌++◌, arith, if-true, if-false, ◌∙◌, ap,
}
use async_uv.Semaphore.{
  Semaphore, stopped, finish_with, finish, finish_all, request_stop, release_locked, release_loop,
}
use async_uv.Semaphore.Links.{NotIn, Spells}
use async_uv.Semaphore.Queue.{remove_waiter_NotIn, release_loop-Spells}
use async_uv.Semaphore.Safety.{release_open}
use async_uv.Semaphore.Log.{finish_with-frame}

request_stop_pending :
    (x : ℕ) (t : Semaphore) (xs : List ℕ)
    → Spells t xs
    → NotIn x xs
    → t.completed x ≡ false
    → request_stop x t ≡ finish_with stopped x t
unfolding request_stop
request_stop_pending x t xs h n new =
    if-false (t.completed x) _ _ new ∙ ap (finish_with stopped x) (remove_waiter_NotIn x t xs h n)

finish_with_new :
    (x : ℕ) (t : Semaphore)
    → t.completed x ≡ false
    → let t' = finish_with stopped x t in
      (t'.log ≡ t.log ++ (x, stopped) ∷ []) × (t'.completed x ≡ true)
unfolding finish_with
finish_with_new x t new = ground arith

finish_done : (x : ℕ) (t : Semaphore) → t.completed x ≡ true → finish_all true (x ∷ []) t ≡ t
unfolding finish_all finish finish_with
finish_done x t done = if-true (t.completed x) _ _ done

-- If `release(1)` takes the first waiter off the list of an open semaphore, and that waiter is
-- stopped before `release` calls it, then the permit is lost: the waiter is told `stopped`, the
-- counter stays as it was, and the other waiters stay where they are.
pub release_lost :
    (s : Semaphore) (x : ℕ) (xs : List ℕ)
    → Spells s (x ∷ xs)
    → s.closed ≡ false
    → s.completed x ≡ false
    → let (ready, t) = release_locked 1 s in
      let t' = finish_all true ready (request_stop x t) in
      Spells t' xs × (t'.permits ≡ s.permits) × (t'.log ≡ s.log ++ (x, stopped) ∷ [])
release_lost s x xs h open_ new =
    let (ready, sp, pm, ctl) = release_loop-Spells 1 s (x ∷ xs) h in
    let t = (release_loop 1 s).1 in
    let new' : t.completed x ≡ false = ap (λ (f : ℕ → Bool). f x) ctl.1 ∙ new in
    let (logged, done) = finish_with_new x t new' in
    let (p, c, hd, tl, nd) = finish_with-frame stopped x t in
    rw
      (
        release_open 1 s open_,
        ready,
        request_stop_pending x t xs sp h.distinct.0 new',
        finish_done x (finish_with stopped x t) done,
      )
      (
        record {
          head = hd ∙ sp.head;
          tail = tl ∙ sp.tail;
          chain = rw nd sp.chain;
          distinct = sp.distinct;
          others = rw nd sp.others;
        },
        p ∙ pm ∙ omega arith,
        logged ∙ ap (λ l. l ++ (x, stopped) ∷ []) ctl.2,
      )
