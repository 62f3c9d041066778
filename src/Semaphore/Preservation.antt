-- ===== src/Semaphore/Preservation.antt =====
-- Every step of the threads around a semaphore keeps its invariant.
use async_uv.Base.{
  ℕ, ◌-◌, ◌<◌, ◌≡◌, ◌≢◌, ◌⊎◌, inl, inr, Bool, true, false, List, [], ◌∷◌, ◌++◌, All, All-append,
  All-map, All-zip, All-split, arith, ◌==◌, ==_iff, if◌then◌else◌, Bool-cases, if-true, if-false,
  ◌∙◌, sym, ap, subst,
}
use async_uv.Semaphore.{
  Semaphore, acquired, refused, stopped, update, finish_with, finish, start, request_stop,
  enqueue_waiter_locked, remove_waiter_locked,
}
use async_uv.Semaphore.Links.{NotIn-snoc, NotIn, AllDifferent, enqueue-Spells}
use async_uv.Semaphore.Removal.{erase, In}
use async_uv.Semaphore.Queue.{remove_waiter-Spells, remove_waiter_NotIn, Spells-control}
use async_uv.Semaphore.Steps.{World, started_with, delivered}
use async_uv.Semaphore.Invariant.{
  grants-append, Waits, InFlight, Invariant, NotIn-waiting, finish_with-Invariant,
}

pub delivered-Invariant :
    (u : World) (xs : List ℕ) (before after : List (ℕ × Bool)) (w : ℕ) (ok : Bool)
    → u.pending ≡ before ++ (w, ok) ∷ after
    → Invariant u xs
    → Invariant (delivered (before ++ after) w ok u) xs
unfolding delivered finish
delivered-Invariant u xs before after w ok e h =
    let (rest, it) =
      All-split (InFlight u xs) before (w, ok) after (subst (All (InFlight u xs)) e h.in_flight) in
    finish_with-Invariant u xs h w (if ok then acquired else refused) (before ++ after) it.0 it.1
      rest
      (rw e (ground (arith, grants-append before after, grants-append before ((w, ok) ∷ after))))

In-cases : (w : ℕ) (xs : List ℕ) → In w xs ⊎ NotIn w xs
In-cases w [] = inr tt
In-cases w (x ∷ xs) = elim (Bool-cases (x == w)) [
  | inl e ↦ inl (inl ((==_iff x w).0 e))
  | inr e ↦ elim (In-cases w xs) [ inl m ↦ inl (inr m) | inr n ↦ inr (ground (arith, e), n) ]
]

All-erase {κ} : (P : ℕ → Type κ) (w : ℕ) (xs : List ℕ) → All P xs → All P (erase w xs)
All-erase P w [] h = tt
All-erase P w (x ∷ xs) h = elim (Bool-cases (x == w)) [
  | inl e ↦ rw e h.1
  | inr e ↦ rw e (h.0, All-erase P w xs h.1)
]

NotIn-erase_self : (w : ℕ) (xs : List ℕ) → AllDifferent xs → NotIn w (erase w xs)
NotIn-erase_self w [] d = tt
NotIn-erase_self w (x ∷ xs) d = elim (Bool-cases (x == w)) [
  | inl e ↦ rw e (subst (λ v. NotIn v xs) ((==_iff x w).0 e) d.0)
  | inr e ↦ rw e (ground (arith, e), NotIn-erase_self w xs d.1)
]

remove_waiter-frame :
    (w : ℕ) (s : Semaphore)
    → let t = remove_waiter_locked w s in
      (t.permits ≡ s.permits)
      × (t.closed ≡ s.closed)
      × (t.completed ≡ s.completed)
      × (t.log ≡ s.log)
unfolding remove_waiter_locked
remove_waiter-frame w s = ground arith

remove_waiter-Invariant :
    (u : World) (xs : List ℕ) (w : ℕ)
    → In w xs
    → Invariant u xs
    → Invariant (record u { sem = remove_waiter_locked w u.sem }) (erase w xs)
remove_waiter-Invariant u xs w m h =
    let (p, c, done, log) = remove_waiter-frame w u.sem in
    record {
      spells = remove_waiter-Spells w u.sem xs h.spells m;
      waiting = All-erase _ w xs (rw done h.waiting);
      in_flight = All-map u.pending (λ q (a, b). (a, All-erase _ w xs b)) h.in_flight;
      served = λ k. ap (erase w) (h.served (subst (λ (n : ℕ). 0 < n) p k));
      shut = λ k. let (a, b) = h.shut (sym c ∙ k) in (ap (erase w) a, p ∙ b);
      told = record { once = rw log h.told.once; logged = rw (done, log) h.told.logged };
      ran = rw done h.ran;
      budget = rw (p, log) h.budget;
    }

pub request_stop-Invariant :
    (u : World) (xs : List ℕ) (w : ℕ)
    → u.started w ≡ true
    → Invariant u xs
    → (ys : List ℕ) × Invariant (record u { sem = request_stop w u.sem }) ys
unfolding request_stop
request_stop-Invariant u xs w st h = elim (Bool-cases (u.sem.completed w)) [
  | inl done ↦ (xs, simp done h)
  | inr new ↦ elim (In-cases w xs) [
    | inl m ↦
        let h' = remove_waiter-Invariant u xs w m h in
        (
          erase w xs,
          simp new (
              finish_with-Invariant _ _ h' w stopped u.pending st
                (NotIn-erase_self w xs h.spells.distinct) h'.in_flight (omega arith)),
        )
    | inr n ↦ (
      xs,
      simp (new, remove_waiter_NotIn w u.sem xs h.spells n)
          (finish_with-Invariant u xs h w stopped u.pending st n h.in_flight (omega arith)),
    )
  ]
]

update_self {ℓ} : {A : Type ℓ} (f : ℕ → A) (i : ℕ) (v : A) → update f i v i ≡ v
update_self f i v = ground arith

test_of_ne : (a b : ℕ) → a ≢ b → (a == b) ≡ false
test_of_ne a b h = ground arith

-- Marking an operation as started.
mark-Invariant :
    (u : World) (xs : List ℕ) (w : ℕ)
    → Invariant u xs
    → Invariant (record u { started = update u.started w true }) xs
mark-Invariant u xs w h = record {
  spells = h.spells;
  waiting = All-map xs (λ x (a, b). (ground (arith, a), b)) h.waiting;
  in_flight = All-map u.pending (λ q (a, b). (ground (arith, a), b)) h.in_flight;
  served = h.served;
  shut = h.shut;
  told = h.told;
  ran = λ v f. h.ran v (unmarked v f);
  budget = h.budget;
}
  where
    unmarked : (v : ℕ) → update u.started w true v ≡ false → u.started v ≡ false
    unmarked v f = ground arith

enqueue-frame :
    (w : ℕ) (s : Semaphore)
    → let t = enqueue_waiter_locked w s in
      (t.permits ≡ s.permits)
      × (t.closed ≡ s.closed)
      × (t.completed ≡ s.completed)
      × (t.log ≡ s.log)
unfolding enqueue_waiter_locked
enqueue-frame w s = ground arith

enqueue-Invariant :
    (u : World) (xs : List ℕ) (w : ℕ)
    → u.sem.permits ≡ 0
    → u.sem.closed ≡ false
    → u.started w ≡ true
    → u.sem.completed w ≡ false
    → NotIn w xs
    → All (λ q. q.0 ≢ w) u.pending
    → Invariant u xs
    → Invariant (record u { sem = enqueue_waiter_locked w u.sem }) (xs ++ w ∷ [])
enqueue-Invariant u xs w none_free open_ st new n apart h =
    let (p, c, done, log) = enqueue-frame w u.sem in
    record {
      spells = enqueue-Spells w u.sem xs h.spells n;
      waiting = rw done (All-append (Waits u) xs (w ∷ []) h.waiting ((st, new), tt));
      in_flight =
          All-zip u.pending (λ q (a, b) ne. (a, NotIn-snoc q.0 w xs b (λ e. ne (sym e))))
            h.in_flight apart;
      served = λ k. absurd (omega (arith, p, none_free, k));
      shut = λ k. cc (k, c, open_);
      told = record { once = rw log h.told.once; logged = rw (done, log) h.told.logged };
      ran = rw done h.ran;
      budget = rw (p, log) h.budget;
    }

-- A permit on its way to the operation that starts.
take_permit-Invariant :
    (u : World) (xs : List ℕ) (w : ℕ)
    → u.sem.permits ≢ 0
    → u.started w ≡ true
    → Invariant u xs
    → Invariant
        (record u {
          sem = record (u.sem) { permits = u.sem.permits - 1 };
          pending = (w, true) ∷ u.pending;
        })
        xs
take_permit-Invariant u xs w free st h =
    let empty : xs ≡ [] = h.served (omega arith) in
    record {
      spells = Spells-control u.sem xs (u.sem.permits - 1) u.sem.closed h.spells;
      waiting = h.waiting;
      in_flight = ((st, subst (NotIn w) (sym empty) tt), h.in_flight);
      served = λ k. empty;
      shut = λ k. absurd (free (h.shut k).1);
      told = record { once = h.told.once; logged = h.told.logged };
      ran = h.ran;
      budget = let b = h.budget in omega arith;
    }

-- The branches of `start`.
start_closed : (w : ℕ) (s : Semaphore) → s.closed ≡ true → start w false s ≡ finish_with refused w s
unfolding start finish
start_closed w s shut = if-true s.closed _ _ shut

start_queued :
    (w : ℕ) (s : Semaphore)
    → s.closed ≡ false
    → s.permits ≡ 0
    → start w false s ≡ enqueue_waiter_locked w s
unfolding start finish
start_queued w s open_ empty =
    if-false s.closed _ _ open_ ∙ if-true (s.permits == 0) _ _ ((==_iff s.permits 0).1 empty)

start_granted :
    (w : ℕ) (s : Semaphore)
    → s.closed ≡ false
    → s.permits ≢ 0
    → start w false s ≡ finish_with acquired w (record s { permits = s.permits - 1 })
unfolding start finish
start_granted w s open_ free =
    if-false s.closed _ _ open_ ∙ if-false (s.permits == 0) _ _ (test_of_ne s.permits 0 free)

pub started_with-Invariant :
    (u : World) (xs : List ℕ) (w : ℕ) (stop : Bool)
    → u.started w ≡ false
    → Invariant u xs
    → (ys : List ℕ) × Invariant (started_with w stop u) ys
unfolding started_with
started_with-Invariant u xs w true new h =
    let h' = mark-Invariant u xs w h in
    let n = NotIn-waiting u w xs h.waiting new in
    let st : update u.started w true w ≡ true = update_self u.started w true in
    (
      xs,
      unfold start in
          finish_with-Invariant _ xs h' w stopped u.pending st n h'.in_flight (omega arith),
    )
started_with-Invariant u xs w false new h =
    let h' = mark-Invariant u xs w h in
    let n = NotIn-waiting u w xs h.waiting new in
    let st : update u.started w true w ≡ true = update_self u.started w true in
    elim (Bool-cases u.sem.closed) [
      | inl shut ↦ (
        xs,
        rw (start_closed w u.sem shut)
            (finish_with-Invariant _ xs h' w refused u.pending st n h'.in_flight (omega arith)),
      )
      | inr open_ ↦ elim (Bool-cases (u.sem.permits == 0)) [
        | inl empty ↦
            let none_free = (==_iff u.sem.permits 0).0 empty in
            (
              xs ++ w ∷ [],
              rw (start_queued w u.sem open_ none_free) (
                  enqueue-Invariant _ xs w none_free open_ st (h.ran w new) n
                    (All-map u.pending (λ q (a, b) e. cc (subst (λ v. u.started v ≡ true) e a, new))
                      h.in_flight)
                    h'),
            )
        | inr some_free ↦
            let free : u.sem.permits ≢ 0 = λ e. cc (some_free, (==_iff u.sem.permits 0).1 e) in
            let h'' = take_permit-Invariant _ xs w free st h' in
            (
              xs,
              rw (start_granted w u.sem open_ free) (
                  finish_with-Invariant _ xs h'' w acquired u.pending st n h'.in_flight
                    (omega arith)),
            )
      ]
    ]
