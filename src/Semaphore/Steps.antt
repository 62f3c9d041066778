-- ===== src/Semaphore/Steps.antt =====
-- Threads around one semaphore: the critical sections, the start of an operation, the stop callback
-- and the delivery of what a critical section decided are single steps, in any interleaving.
use async_uv.Base.{ℕ, ◌+◌, ◌≡◌, Bool, true, false, List, [], ◌∷◌, ◌++◌, map, none, if◌then◌else◌}
use async_uv.Semaphore.{
  Semaphore, update, create, start, request_stop, release_locked, close_locked, finish,
}

pub record World : Type 0 where
  pub sem : Semaphore
  -- Waiters that were taken off the list, and what they will be told.
  pub pending : List (ℕ × Bool)
  -- Which operations were started.
  pub started : ℕ → Bool
  -- The permits given to the constructor and to `release` while the semaphore was open.
  pub supplied : ℕ

abbrev pub tell : Bool → List ℕ → List (ℕ × Bool)
tell ok waiters = map (λ w. (w, ok)) waiters

unfoldable pub started_with : ℕ → Bool → World → World
started_with w stopped u = record u {
  sem = start w stopped u.sem;
  started = update u.started w true;
}

unfoldable pub released : ℕ → World → World
released n u =
    let (ready, s) = release_locked n u.sem in
    record u {
      sem = s;
      pending = u.pending ++ tell true ready;
      supplied = if u.sem.closed then u.supplied else u.supplied + n;
    }

unfoldable pub closed_by : ℕ → World → World
closed_by fuel u =
    let (waiting, s) = close_locked fuel u.sem in
    record u { sem = s; pending = u.pending ++ tell false waiting }

unfoldable pub delivered : List (ℕ × Bool) → ℕ → Bool → World → World
delivered rest w ok u = record u { sem = finish ok w u.sem; pending = rest }

-- `close` runs its loop until the list is empty.
pub data Step (u : World) : World → Type 0 where
  starts : (w : ℕ) (stopped : Bool) → u.started w ≡ false → Step u (started_with w stopped u)
  stops : (w : ℕ) → u.started w ≡ true → Step u (record u { sem = request_stop w u.sem })
  releases : (n : ℕ) → Step u (released n u)
  closes : (fuel : ℕ) → (closed_by fuel u).sem.head ≡ none → Step u (closed_by fuel u)
  delivers :
      (before after : List (ℕ × Bool)) (w : ℕ) (ok : Bool)
      → u.pending ≡ before ++ (w, ok) ∷ after
      → Step u (delivered (before ++ after) w ok u)

pub data Reach (u : World) : World → Type 0 where
  here : Reach u u
  next : {v w : World} → Reach u v → Step v w → Reach u w

unfoldable pub initial : ℕ → World
initial permits = record {
  sem = create permits;
  pending = [];
  started = λ _. false;
  supplied = permits;
}
