-- ===== src/Semaphore/Links.antt =====
-- The intrusive list: which queue of waiters the links spell, and that the three list operations
-- are append, erase and uncons on it.
use async_uv.Base.{
  ℕ, ◌≡◌, refl, ◌≢◌, true, false, Option, none, some, List, [], ◌∷◌, ◌++◌, All, arith, ◌∙◌, sym, ap,
}
use async_uv.Semaphore.{
  WaiterNode, Semaphore, update, idle_node, enqueue_waiter_locked, pop_from,
  pop_front_waiter_locked,
}

abbrev pub first : List ℕ → Option ℕ
first [] = none
first (x ∷ xs) = some x

-- The last of a list, or a value for the empty one.
abbrev pub last_or : Option ℕ → List ℕ → Option ℕ
last_or p [] = p
last_or p (x ∷ xs) = last_or (some x) xs

abbrev pub NotIn : ℕ → List ℕ → Type 0
NotIn w xs = All (λ x. x ≢ w) xs

abbrev pub AllDifferent : List ℕ → Type 0
AllDifferent [] = Unit
AllDifferent (x ∷ xs) = NotIn x xs × AllDifferent xs

-- The nodes of `xs` are linked in that order, behind `p`.
abbrev pub Chain : (ℕ → WaiterNode) → Option ℕ → List ℕ → Type 0
Chain node p [] = Unit
Chain node p (x ∷ xs) =
    ((node x).prev ≡ p)
    × ((node x).next ≡ first xs)
    × ((node x).queued ≡ true)
    × Chain node (some x) xs

-- The links of the semaphore spell the queue `xs`.
pub record Spells (s : Semaphore) (xs : List ℕ) : Type 0 where
  pub head : s.head ≡ first xs
  pub tail : s.tail ≡ last_or none xs
  pub chain : Chain s.node none xs
  pub distinct : AllDifferent xs
  pub others : (w : ℕ) → NotIn w xs → (s.node w).queued ≡ false

update_ne {ℓ} : {A : Type ℓ} (f : ℕ → A) (i j : ℕ) (v : A) → i ≢ j → update f i v j ≡ f j
update_ne f i j v h = ground arith

-- A write to a node that is not in the queue.
Chain-update :
    (node : ℕ → WaiterNode) (w : ℕ) (n : WaiterNode) (p : Option ℕ) (xs : List ℕ)
    → NotIn w xs
    → Chain node p xs
    → Chain (update node w n) p xs
Chain-update node w n p [] h c = tt
Chain-update node w n p (x ∷ xs) h c = ground (arith, Chain-update node w n (some x) xs h.1 c.3)

-- Another value for the link from the first node back.
Chain-set_prev :
    (node : ℕ → WaiterNode) (p q : Option ℕ) (x : ℕ) (xs : List ℕ)
    → NotIn x xs
    → Chain node p (x ∷ xs)
    → Chain (update node x (record (node x) { prev = q })) q (x ∷ xs)
Chain-set_prev node p q x xs h c =
    ground (arith, Chain-update node x (record (node x) { prev = q }) (some x) xs h c.3)

-- Taking the first waiter off.
pub pop_front-Spells_nil : (s : Semaphore) → Spells s [] → pop_front_waiter_locked s ≡ (none, s)
unfolding pop_front_waiter_locked
pop_front-Spells_nil s h = rw (h.head, pop_from)

pub pop_front-Spells_cons :
    (s : Semaphore) (x : ℕ) (xs : List ℕ)
    → Spells s (x ∷ xs)
    → ((pop_front_waiter_locked s).0 ≡ some x) × Spells (pop_front_waiter_locked s).1 xs
unfolding pop_front_waiter_locked
pop_front-Spells_cons s x [] h =
    rw (h.head, pop_from, h.chain.1)
      (
        refl,
        record {
          head = refl;
          tail = refl;
          chain = tt;
          distinct = tt;
          others = λ w n. ground (arith, h.others w);
        },
      )
pop_front-Spells_cons s x (y ∷ ys) h =
    rw (h.head, pop_from, h.chain.1)
      (
        refl,
        record {
          head = refl;
          tail = h.tail;
          chain =
              Chain-update _ x idle_node none (y ∷ ys) h.distinct.0
                (Chain-set_prev s.node (some x) none y ys h.distinct.1.0 h.chain.3);
          distinct = h.distinct.1;
          others = λ w n. ground (arith, h.others w);
        },
      )

last-NotIn : (x y t : ℕ) (ys : List ℕ) → last_or (some y) ys ≡ some t → NotIn x (y ∷ ys) → t ≢ x
last-NotIn x y t [] q h = ground arith
last-NotIn x y t (z ∷ ys) q h = last-NotIn x z t ys q h.1

-- A last node, linked behind a queue.
Chain-snoc :
    (node : ℕ → WaiterNode) (p : Option ℕ) (x : ℕ) (xs : List ℕ) (w t : ℕ)
    → AllDifferent (x ∷ xs)
    → NotIn w (x ∷ xs)
    → last_or (some x) xs ≡ some t
    → Chain node p (x ∷ xs)
    → ((node w).prev ≡ some t) × ((node w).next ≡ none) × ((node w).queued ≡ true)
    → Chain (update node t (record (node t) { next = some w })) p (x ∷ xs ++ w ∷ [])
Chain-snoc node p x [] w t d n l c new = ground arith
Chain-snoc node p x (y ∷ ys) w t d n l c new =
    let same = update_ne node t x (record (node t) { next = some w }) (last-NotIn x y t ys l d.0) in
    (
      ap (λ (m : WaiterNode). m.prev) same ∙ c.0,
      ap (λ (m : WaiterNode). m.next) same ∙ c.1,
      ap (λ (m : WaiterNode). m.queued) same ∙ c.2,
      Chain-snoc node (some x) y ys w t d.1 n.1 l c.3 new,
    )

last_or-snoc : (p : Option ℕ) (xs : List ℕ) (w : ℕ) → last_or p (xs ++ w ∷ []) ≡ some w
last_or-snoc p [] w = refl
last_or-snoc p (x ∷ xs) w = last_or-snoc (some x) xs w

last_or-some : (x : ℕ) (xs : List ℕ) → (t : ℕ) × (last_or (some x) xs ≡ some t)
last_or-some x [] = (x, refl)
last_or-some x (y ∷ ys) = last_or-some y ys

pub NotIn-snoc : (v w : ℕ) (xs : List ℕ) → NotIn v xs → w ≢ v → NotIn v (xs ++ w ∷ [])
NotIn-snoc v w [] n h = (h, tt)
NotIn-snoc v w (x ∷ xs) n h = (n.0, NotIn-snoc v w xs n.1 h)

NotIn-snoc_inv : (v w : ℕ) (xs : List ℕ) → NotIn v (xs ++ w ∷ []) → NotIn v xs × (w ≢ v)
NotIn-snoc_inv v w [] n = (tt, n.0)
NotIn-snoc_inv v w (x ∷ xs) n = let (a, b) = NotIn-snoc_inv v w xs n.1 in ((n.0, a), b)

pub AllDifferent-snoc :
    (w : ℕ) (xs : List ℕ) → AllDifferent xs → NotIn w xs → AllDifferent (xs ++ w ∷ [])
AllDifferent-snoc w [] d n = (tt, tt)
AllDifferent-snoc w (x ∷ xs) d n =
    (NotIn-snoc x w xs d.0 (λ e. n.0 (sym e)), AllDifferent-snoc w xs d.1 n.1)

queued-set_next :
    (node : ℕ → WaiterNode) (t : ℕ) (next : Option ℕ) (v : ℕ)
    → (update node t (record (node t) { next = next }) v).queued ≡ (node v).queued
queued-set_next node t next v = ground arith

queued-update :
    (node : ℕ → WaiterNode) (w v : ℕ) (n : WaiterNode)
    → w ≢ v
    → (update node w n v).queued ≡ (node v).queued
queued-update node w v n h = ground arith

-- Joining the queue.
pub enqueue-Spells :
    (w : ℕ) (s : Semaphore) (xs : List ℕ)
    → Spells s xs
    → NotIn w xs
    → Spells (enqueue_waiter_locked w s) (xs ++ w ∷ [])
unfolding enqueue_waiter_locked
enqueue-Spells w s [] h n = rw h.tail (record {
  head = refl;
  tail = refl;
  chain = ground arith;
  distinct = (tt, tt);
  others = λ v k. ground (arith, h.others v);
})
enqueue-Spells w s (x ∷ xs) h n =
    let (t, last) = last_or-some x xs in
    let tail_is : s.tail ≡ some t = h.tail ∙ last in
    let node = update s.node w (record { prev = some t; next = none; queued = true }) in
    rw tail_is (record {
      head = h.head;
      tail = sym (last_or-snoc none (x ∷ xs) w);
      chain =
          Chain-snoc node none x xs w t h.distinct n last
            (Chain-update s.node w _ none (x ∷ xs) n h.chain) (ground arith);
      distinct = AllDifferent-snoc w (x ∷ xs) h.distinct n;
      others = λ v k.
          let (old, ne) = NotIn-snoc_inv v w (x ∷ xs) k in
          queued-set_next node t (some w) v ∙ queued-update s.node w v _ ne ∙ h.others v old;
    })
