-- ===== src/Semaphore/Invariant.antt =====
-- The invariant of a semaphore under threads, and that every step keeps it.
use async_uv.Base.{
  ℕ, ◌+◌, ◌≤◌, ◌<◌, ◌≡◌, refl, ◌⊎◌, inl, inr, Bool, true, false, List, [], ◌∷◌, ◌++◌, All, All-zip,
  arith, ◌==◌, ==_iff, if◌then◌else◌, Bool-cases, ◌∙◌, sym, subst, length,
}
use async_uv.Semaphore.{Outcome, create, finish_with}
use async_uv.Semaphore.Links.{NotIn, Spells}
use async_uv.Semaphore.Log.{
  granted, is_acquired, LogIsValid, finish_with-LogIsValid, granted-finish_with, finish_with-frame,
  completed-finish_with,
}
use async_uv.Semaphore.Steps.{World, tell, initial}

-- Permits on their way to a waiter.
abbrev pub grants : List (ℕ × Bool) → ℕ
grants [] = 0
grants ((w, ok) ∷ pending) = (if ok then 1 else 0) + grants pending

abbrev pub Waits : World → ℕ → Type 0
Waits u w = (u.started w ≡ true) × (u.sem.completed w ≡ false)

abbrev pub InFlight : World → List ℕ → ℕ × Bool → Type 0
InFlight u xs p = (u.started p.0 ≡ true) × NotIn p.0 xs

-- `xs` are the waiters in the queue.
pub record Invariant (u : World) (xs : List ℕ) : Type 0 where
  pub spells : Spells u.sem xs
  pub waiting : All (Waits u) xs
  pub in_flight : All (InFlight u xs) u.pending
  -- Nobody waits while a permit is free.
  pub served : 0 < u.sem.permits → xs ≡ []
  pub shut : u.sem.closed ≡ true → (xs ≡ []) × (u.sem.permits ≡ 0)
  pub told : LogIsValid u.sem
  -- Only what was started completes.
  pub ran : (w : ℕ) → u.started w ≡ false → u.sem.completed w ≡ false
  -- The permits that were handed out, are on their way and are free.
  pub budget : granted u.sem.log + grants u.pending + u.sem.permits ≤ u.supplied

pub initial-Invariant : (permits : ℕ) → Invariant (initial permits) []
unfolding initial create
initial-Invariant permits = record {
  spells = record { head = refl; tail = refl; chain = tt; distinct = tt; others = λ w n. refl };
  waiting = tt;
  in_flight = tt;
  served = λ h. refl;
  shut = λ h. cc;
  told = record { once = tt; logged = λ w h. tt };
  ran = λ w h. refl;
  budget = omega arith;
}

pub grants-append : (a b : List (ℕ × Bool)) → grants (a ++ b) ≡ grants a + grants b
grants-append [] b = omega arith
grants-append ((w, ok) ∷ a) b = omega (arith, grants-append a b)

pub grants-tell-true : (xs : List ℕ) → grants (tell true xs) ≡ length xs
grants-tell-true [] = refl
grants-tell-true (x ∷ xs) = omega (arith, grants-tell-true xs)

pub grants-tell-false : (xs : List ℕ) → grants (tell false xs) ≡ 0
grants-tell-false [] = refl
grants-tell-false (x ∷ xs) = omega (arith, grants-tell-false xs)

-- A waiter that waits is not one that did not start.
pub NotIn-waiting :
    (u : World) (w : ℕ) (xs : List ℕ) → All (Waits u) xs → u.started w ≡ false → NotIn w xs
NotIn-waiting u w [] h n = tt
NotIn-waiting u w (x ∷ xs) h n =
    (λ e. cc (subst (λ v. u.started v ≡ true) e h.0.0, n), NotIn-waiting u w xs h.1 n)

-- Only the log, the flags and the pending list of a world changed: the completion of an operation
-- that is not in the queue.
module _ (u : World) (xs : List ℕ) (h : Invariant u xs) (w : ℕ) (o : Outcome) where
  finish_with-Spells : Spells (finish_with o w u.sem) xs
  finish_with-Spells =
      let (p, c, hd, tl, nd) = finish_with-frame o w u.sem in
      record {
        head = hd ∙ h.spells.head;
        tail = tl ∙ h.spells.tail;
        chain = rw nd h.spells.chain;
        distinct = h.spells.distinct;
        others = rw nd h.spells.others;
      }

  finish_with-Waits :
      NotIn w xs
      → All (λ x. (u.started x ≡ true) × ((finish_with o w u.sem).completed x ≡ false)) xs
  finish_with-Waits n =
      All-zip xs (λ x (a, b) ne. (a, completed-finish_with o w x u.sem ∙ ground (arith, b, ne)))
        h.waiting n

  -- The delivery, with the rest of the pending list.
  pub finish_with-Invariant :
      (pending : List (ℕ × Bool))
      → u.started w ≡ true
      → NotIn w xs
      → All (InFlight u xs) pending
      → is_acquired o + grants pending ≤ grants u.pending
      → Invariant (record u { sem = finish_with o w u.sem; pending = pending }) xs
  finish_with-Invariant pending st n fly le =
      let (p, c, hd, tl, nd) = finish_with-frame o w u.sem in
      record {
        spells = finish_with-Spells;
        waiting = finish_with-Waits n;
        in_flight = fly;
        served = λ k. h.served (subst (λ (m : ℕ). 0 < m) p k);
        shut = λ k. let (a, b) = h.shut (sym c ∙ k) in (a, p ∙ b);
        told = finish_with-LogIsValid o w u.sem h.told;
        ran = λ v f. completed-finish_with o w v u.sem ∙ ran_ne v f (Bool-cases (v == w));
        budget = let b = h.budget in omega (arith, granted-finish_with o w u.sem, p);
      }
    where
      ran_ne :
          (v : ℕ)
          → u.started v ≡ false
          → ((v == w) ≡ true) ⊎ ((v == w) ≡ false)
          → (if v == w then true else u.sem.completed v) ≡ false
      ran_ne v f (inl e) = cc (subst (λ x. u.started x ≡ false) ((==_iff v w).0 e) f, st)
      ran_ne v f (inr e) = rw e (h.ran v f)
