-- ===== src/Semaphore/Safety.antt =====
-- What holds of a semaphore in every interleaving, and the wake-up that a stop can lose.
use Prim.Native.Nat.{min}
use async_uv.Base.{
  ℕ, zero, suc, ◌+◌, ◌-◌, ◌≤◌, ◌≡◌, refl, ◌≢◌, inl, inr, Bool, true, false, none, List, [], ◌∷◌,
  ◌++◌, append-nil, All, All-append, All-map, All-zip, All-take, All-drop, arith, ◌==◌, Bool-cases,
  if-true, if-false, ◌∙◌, sym, ap, length, take, drop,
}
use async_uv.Semaphore.{Semaphore, release_locked, close_locked, release_loop, drain}
use async_uv.Semaphore.Links.{first, NotIn, AllDifferent}
use async_uv.Semaphore.Queue.{release_loop-Spells, drain-Spells, Spells-control}
use async_uv.Semaphore.Log.{ids, granted}
use async_uv.Semaphore.Steps.{
  World, tell, released, closed_by, Step, starts, stops, releases, closes, delivers, Reach, here,
  next, initial,
}
use async_uv.Semaphore.Invariant.{
  grants, grants-append, grants-tell-true, grants-tell-false, Waits, InFlight, Invariant,
  initial-Invariant,
}
use async_uv.Semaphore.Preservation.{
  started_with-Invariant, request_stop-Invariant, delivered-Invariant,
}

NotIn-drop : (w n : ℕ) (xs : List ℕ) → NotIn w xs → NotIn w (drop n xs)
NotIn-drop w n xs h = All-drop (λ x. x ≢ w) n xs h

AllDifferent-drop : (n : ℕ) (xs : List ℕ) → AllDifferent xs → AllDifferent (drop n xs)
AllDifferent-drop zero xs d = d
AllDifferent-drop (suc n) [] d = tt
AllDifferent-drop (suc n) (x ∷ xs) d = AllDifferent-drop n xs d.1

-- Who is taken off the queue is not in what is left of it.
taken_apart : (n : ℕ) (xs : List ℕ) → AllDifferent xs → All (λ w. NotIn w (drop n xs)) (take n xs)
taken_apart zero xs d = tt
taken_apart (suc n) [] d = tt
taken_apart (suc n) (x ∷ xs) d = (NotIn-drop x n xs d.0, taken_apart n xs d.1)

length-take : (n : ℕ) (xs : List ℕ) → length (take n xs) ≡ min n (length xs)
length-take zero xs = omega arith
length-take (suc n) [] = omega arith
length-take (suc n) (x ∷ xs) = omega (arith, length-take n xs)

drop-eq-nil : (n : ℕ) (xs : List ℕ) → length xs ≤ n → drop n xs ≡ []
drop-eq-nil zero [] h = refl
drop-eq-nil zero (x ∷ xs) h = absurd (omega arith)
drop-eq-nil (suc n) [] h = refl
drop-eq-nil (suc n) (x ∷ xs) h = drop-eq-nil n xs (omega arith)

first-none : (xs : List ℕ) → first xs ≡ none → xs ≡ []
first-none [] h = refl
first-none (x ∷ xs) h = cc

-- The waiters taken off are in flight.
tell-InFlight :
    (u : World) (ok : Bool) (ys taken : List ℕ)
    → All (λ w. (u.started w ≡ true) × NotIn w ys) taken
    → All (InFlight u ys) (tell ok taken)
tell-InFlight u ok ys [] h = tt
tell-InFlight u ok ys (w ∷ ws) h = (h.0, tell-InFlight u ok ys ws h.1)

module _ (u : World) (xs : List ℕ) (h : Invariant u xs) (n : ℕ) where
  old-InFlight : All (InFlight u (drop n xs)) u.pending
  old-InFlight = All-map u.pending (λ q (a, b). (a, NotIn-drop q.0 n xs b)) h.in_flight

  taken-InFlight : (ok : Bool) → All (InFlight u (drop n xs)) (tell ok (take n xs))
  taken-InFlight ok = tell-InFlight u ok (drop n xs) (take n xs) (
      All-zip (take n xs) (λ w (a, b) c. (a, c)) (All-take (Waits u) n xs h.waiting)
        (taken_apart n xs h.spells.distinct))

  InFlight-after : (ok : Bool) → All (InFlight u (drop n xs)) (u.pending ++ tell ok (take n xs))
  InFlight-after ok =
      All-append (InFlight u (drop n xs)) u.pending _ old-InFlight (taken-InFlight ok)

release_shut : (n : ℕ) (s : Semaphore) → s.closed ≡ true → release_locked n s ≡ ([], s)
unfolding release_locked
release_shut n s h = if-true s.closed _ _ h

pub release_open :
    (n : ℕ) (s : Semaphore) → s.closed ≡ false → release_locked n s ≡ release_loop n s
unfolding release_locked
release_open n s h = if-false s.closed _ _ h

released_open-Invariant :
    (u : World) (xs : List ℕ) (n : ℕ)
    → u.sem.closed ≡ false
    → Invariant u xs
    → let (ready, t) = release_loop n u.sem in
      Invariant
        (record u { sem = t; pending = u.pending ++ tell true ready; supplied = u.supplied + n })
        (drop n xs)
released_open-Invariant u xs n open_ h =
    let (ready, sp, pm, ctl) = release_loop-Spells n u.sem xs h.spells in
    rw ready (record {
      spells = sp;
      waiting =
          All-map (drop n xs) (λ x (a, b). (a, ap (λ (f : ℕ → Bool). f x) ctl.1 ∙ b))
            (All-drop (Waits u) n xs h.waiting);
      in_flight = InFlight-after u xs h n true;
      served = λ k. elim (Bool-cases (u.sem.permits == 0)) [
        | inl empty ↦ drop-eq-nil n xs (ground (arith, empty, k, pm))
        | inr free ↦ rw (h.served (ground (arith, free))) (drop-eq-nil n [] (omega arith))
      ];
      shut = λ k. cc (k, ctl.0, open_);
      told = record { once = rw ctl.2 h.told.once; logged = rw (ctl.1, ctl.2) h.told.logged };
      ran = rw ctl.1 h.ran;
      budget = rw ctl.2 (budget_after ctl.2 pm);
    })
  where
    budget_after :
        (release_loop n u.sem).1.log ≡ u.sem.log
        → (release_loop n u.sem).1.permits ≡ u.sem.permits + (n - length xs)
        → granted u.sem.log
            + grants (u.pending ++ tell true (take n xs))
            + (release_loop n u.sem).1.permits
          ≤ u.supplied + n
    budget_after _ pm =
        let b = h.budget in
        omega (
          arith,
          pm,
          grants-append u.pending (tell true (take n xs)),
          grants-tell-true (take n xs),
          length-take n xs,
        )

released-Invariant :
    (u : World) (xs : List ℕ) (n : ℕ) → Invariant u xs → (ys : List ℕ) × Invariant (released n u) ys
unfolding released
released-Invariant u xs n h = elim (Bool-cases u.sem.closed) [
  | inl shut ↦ (
    xs,
    rw (release_shut n u.sem shut, append-nil u.pending, if-true u.sem.closed u.supplied _ shut) h,
  )
  | inr open_ ↦ (
    drop n xs,
    rw (release_open n u.sem open_, if-false u.sem.closed u.supplied (u.supplied + n) open_)
        (released_open-Invariant u xs n open_ h),
  )
]

close_shut : (n : ℕ) (s : Semaphore) → s.closed ≡ true → close_locked n s ≡ ([], s)
unfolding close_locked
close_shut n s h = if-true s.closed _ _ h

close_open :
    (n : ℕ) (s : Semaphore)
    → s.closed ≡ false
    → close_locked n s ≡ drain n (record s { closed = true; permits = 0 })
unfolding close_locked
close_open n s h = if-false s.closed _ _ h

closed_open-Invariant :
    (u : World) (xs : List ℕ) (n : ℕ)
    → Invariant u xs
    → let (waiting, t) = drain n (record (u.sem) { closed = true; permits = 0 }) in
      t.head ≡ none
      → Invariant (record u { sem = t; pending = u.pending ++ tell false waiting }) (drop n xs)
closed_open-Invariant u xs n h ended =
    let s : Semaphore = record (u.sem) { closed = true; permits = 0 } in
    let (waiting, sp, pm, ctl) = drain-Spells n s xs (Spells-control u.sem xs 0 true h.spells) in
    let empty : drop n xs ≡ [] = first-none (drop n xs) (sym sp.head ∙ ended) in
    rw waiting (record {
      spells = sp;
      waiting =
          All-map (drop n xs) (λ x (a, b). (a, ap (λ (f : ℕ → Bool). f x) ctl.1 ∙ b))
            (All-drop (Waits u) n xs h.waiting);
      in_flight = InFlight-after u xs h n false;
      served = λ k. absurd (omega (arith, pm, k));
      shut = λ k. (empty, pm);
      told = record { once = rw ctl.2 h.told.once; logged = rw (ctl.1, ctl.2) h.told.logged };
      ran = rw ctl.1 h.ran;
      budget =
          let b = h.budget in
          rw (ctl.2, pm)
            (omega (
              arith,
              grants-append u.pending (tell false (take n xs)),
              grants-tell-false (take n xs),
            ));
    })

closed_by-Invariant :
    (u : World) (xs : List ℕ) (n : ℕ)
    → (closed_by n u).sem.head ≡ none
    → Invariant u xs
    → (ys : List ℕ) × Invariant (closed_by n u) ys
unfolding closed_by
closed_by-Invariant u xs n ended h = elim (Bool-cases u.sem.closed) [
  | inl shut ↦ (xs, rw (close_shut n u.sem shut, append-nil u.pending) h)
  | inr open_ ↦ (
    drop n xs,
    rw (close_open n u.sem open_)
        (closed_open-Invariant u xs n h (rw (close_open n u.sem open_) at ended)),
  )
]

Step-Invariant :
    {u v : World} (xs : List ℕ) → Invariant u xs → Step u v → (ys : List ℕ) × Invariant v ys
Step-Invariant {u} xs h (starts w stop new) = started_with-Invariant u xs w stop new h
Step-Invariant {u} xs h (stops w st) = request_stop-Invariant u xs w st h
Step-Invariant {u} xs h (releases n) = released-Invariant u xs n h
Step-Invariant {u} xs h (closes n ended) = closed_by-Invariant u xs n ended h
Step-Invariant {u} xs h (delivers before after w ok e) =
    (xs, delivered-Invariant u xs before after w ok e h)

-- In every interleaving of starts, stops, releases, closes and deliveries the links of the
-- semaphore spell a queue of waiters without a repetition that neither completed nor are about to,
-- nobody waits while a permit is free, and a closed semaphore has neither waiters nor permits.
pub Reach-Invariant :
    (permits : ℕ) {v : World} → Reach (initial permits) v → (xs : List ℕ) × Invariant v xs
Reach-Invariant permits here = ([], initial-Invariant permits)
Reach-Invariant permits (next r st) =
    let (xs, h) = Reach-Invariant permits r in Step-Invariant xs h st

-- In every interleaving no more receivers are told that they hold a permit than permits were given
-- to the constructor and to `release`, and no receiver is told anything twice.
pub granted-le-supplied :
    (permits : ℕ) {v : World}
    → Reach (initial permits) v
    → (granted v.sem.log ≤ v.supplied) × AllDifferent (ids v.sem.log)
granted-le-supplied permits r =
    let (xs, h) = Reach-Invariant permits r in let b = h.budget in (omega arith, h.told.once)
