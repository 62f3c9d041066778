-- ===== src/Semaphore/Queue.antt =====
-- The semaphore as a queue of waiters: `remove_waiter_locked` on it, and the two critical sections
-- that take waiters off it.
use async_uv.Base.{
  ℕ, zero, suc, ◌+◌, ◌-◌, ◌≤◌, ◌≡◌, refl, ◌≢◌, inl, inr, Bool, true, false, Option, none, some,
  List, [], ◌∷◌, arith, ◌==◌, Bool-cases, ◌∙◌, sym, ap, subst, ==_iff, length, take, drop,
}
use async_uv.Semaphore.{
  WaiterNode, Semaphore, unlink, remove_waiter_locked, pop_front_waiter_locked, release_loop,
  release_locked, drain, close_locked,
}
use async_uv.Semaphore.Links.{NotIn, Chain, Spells, pop_front-Spells_nil, pop_front-Spells_cons}
use async_uv.Semaphore.Removal.{
  erase, In, or_else, links-ne_self, unlink-Bypasses, Chain-erase, first-erase, last_or-erase,
  AllDifferent-erase, NotIn-erase_inv,
}

queued_of_In :
    (node : ℕ → WaiterNode) (p : Option ℕ) (w : ℕ) (xs : List ℕ)
    → Chain node p xs
    → In w xs
    → (node w).queued ≡ true
queued_of_In node p w [] c m = elim m [ ]
queued_of_In node p w (x ∷ xs) c (inl e) = ground arith
queued_of_In node p w (x ∷ xs) c (inr m) = queued_of_In node (some x) w xs c.3 m

ne_of_test : (v w : ℕ) → (v == w) ≡ false → v ≢ w
ne_of_test v w h = ground arith

queued-unlink : (w : ℕ) (s : Semaphore) → ((unlink w s).node w).queued ≡ false
queued-unlink w s = ground arith

-- A waiter in the queue is taken out, and the others keep their order.
pub remove_waiter-Spells :
    (w : ℕ) (s : Semaphore) (xs : List ℕ)
    → Spells s xs
    → In w xs
    → Spells (remove_waiter_locked w s) (erase w xs)
unfolding remove_waiter_locked
remove_waiter-Spells w s xs h m =
    let (nq, nr) = links-ne_self s.node w none xs h.distinct m h.chain (λ e. cc) in
    let (b, hd, tl) = unlink-Bypasses s w _ _ refl refl nq nr in
    rw (queued_of_In s.node none w xs h.chain m) (record {
      head =
          hd
          ∙ ap (or_else (s.node w).prev (s.node w).next) h.head
          ∙ sym (first-erase s.node w xs h.distinct m h.chain);
      tail =
          tl
          ∙ ap (or_else (s.node w).next (s.node w).prev) h.tail
          ∙ sym (last_or-erase s.node w none xs h.distinct m h.chain);
      chain = Chain-erase s.node _ w b none xs h.distinct m h.chain (λ i k e. cc);
      distinct = AllDifferent-erase w xs h.distinct;
      others = λ v n. elim (Bool-cases (v == w)) [
        | inl same ↦
            subst (λ u. ((unlink w s).node u).queued ≡ false) (sym ((==_iff v w).0 same))
              (queued-unlink w s)
        | inr other ↦
            let ne : v ≢ w = ne_of_test v w other in
            b.queued v ne ∙ h.others v (NotIn-erase_inv v w xs n ne)
      ];
    })

-- One that is not in the queue is left alone.
pub remove_waiter_NotIn :
    (w : ℕ) (s : Semaphore) (xs : List ℕ) → Spells s xs → NotIn w xs → remove_waiter_locked w s ≡ s
unfolding remove_waiter_locked
remove_waiter_NotIn w s xs h n = rw (h.others w n)

-- What the other fields of the semaphore are not touched by.
abbrev pub SameControl : Semaphore → Semaphore → Type 0
SameControl s t = (t.closed ≡ s.closed) × (t.completed ≡ s.completed) × (t.log ≡ s.log)

pop_front-control :
    (s : Semaphore)
    → let t = (pop_front_waiter_locked s).1 in (t.permits ≡ s.permits) × SameControl s t
unfolding pop_front_waiter_locked
pop_front-control s = ground arith

take-nil : (n : ℕ) → take {A = ℕ} n [] ≡ []
take-nil zero = refl
take-nil (suc n) = refl

drop-nil : (n : ℕ) → drop {A = ℕ} n [] ≡ []
drop-nil zero = refl
drop-nil (suc n) = refl

-- The links do not depend on the counter and the flag.
pub Spells-control :
    (s : Semaphore) (xs : List ℕ) (permits : ℕ) (closed : Bool)
    → Spells s xs
    → Spells (record s { permits = permits; closed = closed }) xs
Spells-control s xs permits closed h = record {
  head = h.head;
  tail = h.tail;
  chain = h.chain;
  distinct = h.distinct;
  others = h.others;
}

-- The loop of `release`: the first waiters get a permit each, and the counter what is left.
pub release_loop-Spells :
    (n : ℕ) (s : Semaphore) (xs : List ℕ)
    → Spells s xs
    → let (ready, t) = release_loop n s in
      (ready ≡ take n xs)
      × Spells t (drop n xs)
      × (t.permits ≡ s.permits + (n - length xs))
      × SameControl s t
unfolding release_loop
release_loop-Spells zero s xs h = (refl, h, omega arith, (refl, refl, refl))
release_loop-Spells (suc n) s [] h =
    let (a, b, c, d) =
      release_loop-Spells n (record s { permits = s.permits + 1 }) []
        (Spells-control s [] (s.permits + 1) s.closed h) in
    rw (pop_front-Spells_nil s h, release_loop)
      (a ∙ take-nil n, subst (Spells _) (drop-nil n) b, c ∙ omega arith, d)
release_loop-Spells (suc n) s (x ∷ xs) h =
    let (popped, rest) = pop_front-Spells_cons s x xs h in
    let (p, e) = pop_front-control s in
    let (a, b, c, d) = release_loop-Spells n (pop_front_waiter_locked s).1 xs rest in
    rw (popped, release_loop)
      (ap (◌∷◌ x) a, b, c ∙ omega (arith, p), (d.0 ∙ e.0, d.1 ∙ e.1, d.2 ∙ e.2))

-- The loop of `close` takes the waiters off one by one.
pub drain-Spells :
    (fuel : ℕ) (s : Semaphore) (xs : List ℕ)
    → Spells s xs
    → let (waiting, t) = drain fuel s in
      (waiting ≡ take fuel xs) × Spells t (drop fuel xs) × (t.permits ≡ s.permits) × SameControl s t
unfolding drain
drain-Spells zero s xs h = (refl, h, refl, (refl, refl, refl))
drain-Spells (suc fuel) s [] h =
    rw (pop_front-Spells_nil s h, drain) (refl, h, refl, (refl, refl, refl))
drain-Spells (suc fuel) s (x ∷ xs) h =
    let (popped, rest) = pop_front-Spells_cons s x xs h in
    let (p, e) = pop_front-control s in
    let (a, b, c, d) = drain-Spells fuel (pop_front_waiter_locked s).1 xs rest in
    rw (popped, drain) (ap (◌∷◌ x) a, b, c ∙ p, (d.0 ∙ e.0, d.1 ∙ e.1, d.2 ∙ e.2))

-- With fuel for every waiter the list is emptied, in order.
take-length : (xs : List ℕ) (n : ℕ) → length xs ≤ n → (take n xs ≡ xs) × (drop n xs ≡ [])
take-length [] n h = (take-nil n, drop-nil n)
take-length (x ∷ xs) zero h = absurd (omega arith)
take-length (x ∷ xs) (suc n) h = let (a, b) = take-length xs n (omega arith) in (ap (◌∷◌ x) a, b)

-- `close` on an open semaphore with the waiters `xs`: all of them leave the queue in order, the
-- permits go, and the flag is set. `fuel` bounds the rounds of the loop.
pub close_locked-Spells :
    (fuel : ℕ) (s : Semaphore) (xs : List ℕ)
    → Spells s xs
    → s.closed ≡ false
    → length xs ≤ fuel
    → let (waiting, t) = close_locked fuel s in
      (waiting ≡ xs) × Spells t [] × (t.permits ≡ 0) × (t.closed ≡ true)
unfolding close_locked
close_locked-Spells fuel s xs h open_ le =
    let (a, b, c, d) =
      drain-Spells fuel (record s { closed = true; permits = 0 }) xs
        (Spells-control s xs 0 true h) in
    let (all, none_left) = take-length xs fuel le in
    simp open_ (a ∙ all, subst (Spells _) none_left b, c, d.0)

-- `release` on an open semaphore with the waiters `xs`: the first `n` of them leave the queue, to
-- be told that they hold a permit, and permits that no waiter takes go to the counter.
pub release_locked-Spells :
    (n : ℕ) (s : Semaphore) (xs : List ℕ)
    → Spells s xs
    → s.closed ≡ false
    → let (ready, t) = release_locked n s in
      (ready ≡ take n xs)
      × Spells t (drop n xs)
      × (t.permits ≡ s.permits + (n - length xs))
      × (t.closed ≡ false)
unfolding release_locked
release_locked-Spells n s xs h open_ =
    let (a, b, c, d) = release_loop-Spells n s xs h in simp open_ (a, b, c, d.0 ∙ open_)
