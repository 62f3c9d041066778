-- ===== src/Semaphore/Log.antt =====
-- What the receivers are told: each at most once.
use async_uv.Base.{
  ℕ, ◌+◌, ◌≤◌, ◌≡◌, refl, true, false, List, [], ◌∷◌, ◌++◌, arith, if◌then◌else◌, ◌==◌, Bool-cases,
  inl, inr,
}
use async_uv.Semaphore.{Semaphore, Outcome, acquired, refused, stopped, finish_with}
use async_uv.Semaphore.Links.{NotIn, AllDifferent, NotIn-snoc, AllDifferent-snoc}

abbrev pub ids : List (ℕ × Outcome) → List ℕ
ids [] = []
ids ((w, o) ∷ log) = w ∷ ids log

abbrev pub is_acquired : Outcome → ℕ
is_acquired acquired = 1
is_acquired refused = 0
is_acquired stopped = 0

-- How many receivers were told that they hold a permit.
abbrev pub granted : List (ℕ × Outcome) → ℕ
granted [] = 0
granted ((w, o) ∷ log) = is_acquired o + granted log

pub record LogIsValid (s : Semaphore) : Type 0 where
  pub once : AllDifferent (ids s.log)
  pub logged : (w : ℕ) → s.completed w ≡ false → NotIn w (ids s.log)

ids-snoc :
    (log : List (ℕ × Outcome)) (w : ℕ) (o : Outcome) → ids (log ++ (w, o) ∷ []) ≡ ids log ++ w ∷ []
ids-snoc [] w o = refl
ids-snoc ((v, p) ∷ log) w o = rw (ids-snoc log w o)

granted-snoc :
    (log : List (ℕ × Outcome)) (w : ℕ) (o : Outcome)
    → granted (log ++ (w, o) ∷ []) ≡ granted log + is_acquired o
granted-snoc [] w o = omega arith
granted-snoc ((v, p) ∷ log) w o = omega (arith, granted-snoc log w o)

pub finish_with-LogIsValid :
    (o : Outcome) (w : ℕ) (s : Semaphore) → LogIsValid s → LogIsValid (finish_with o w s)
unfolding finish_with
finish_with-LogIsValid o w s h = elim (Bool-cases (s.completed w)) [
  | inl done ↦ rw done h
  | inr new ↦ rw new (record {
    once = rw (ids-snoc s.log w o) (AllDifferent-snoc w _ h.once (h.logged w new));
    logged = λ v n.
        rw (ids-snoc s.log w o)
          (NotIn-snoc v w _ (h.logged v (ground (arith, n))) (ground (arith, n)));
  })
]

pub granted-finish_with :
    (o : Outcome) (w : ℕ) (s : Semaphore)
    → granted (finish_with o w s).log ≤ granted s.log + is_acquired o
unfolding finish_with
granted-finish_with o w s = elim (Bool-cases (s.completed w)) [
  | inl done ↦ rw done (omega arith)
  | inr new ↦ rw (new, granted-snoc s.log w o) (omega arith)
]

-- `finish_with` changes the log and the flag of its operation, and nothing else.
pub finish_with-frame :
    (o : Outcome) (w : ℕ) (s : Semaphore)
    → let t = finish_with o w s in
      (t.permits ≡ s.permits)
      × (t.closed ≡ s.closed)
      × (t.head ≡ s.head)
      × (t.tail ≡ s.tail)
      × (t.node ≡ s.node)
unfolding finish_with
finish_with-frame o w s = ground arith

pub completed-finish_with :
    (o : Outcome) (w v : ℕ) (s : Semaphore)
    → (finish_with o w s).completed v ≡ (if v == w then true else s.completed v)
unfolding finish_with
completed-finish_with o w v s = ground arith
