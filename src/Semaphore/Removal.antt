-- ===== src/Semaphore/Removal.antt =====
-- Taking a waiter out of the middle of the intrusive list.
use async_uv.Base.{
  ℕ, ◌≡◌, refl, ◌≢◌, ◌⊎◌, inl, inr, Bool, true, false, Option, none, some, List, [], ◌∷◌, arith,
  ◌==◌, if◌then◌else◌, Bool-cases, ◌∙◌, sym, subst, ==_iff,
}
use async_uv.Semaphore.{WaiterNode, Semaphore, unlink}
use async_uv.Semaphore.Links.{first, last_or, NotIn, AllDifferent, Chain}

abbrev pub erase : ℕ → List ℕ → List ℕ
erase w [] = []
erase w (x ∷ xs) = if x == w then xs else x ∷ erase w xs

abbrev pub In : ℕ → List ℕ → Type 0
In w [] = ⊥
In w (x ∷ xs) = (x ≡ w) ⊎ In w xs

abbrev pub is : Option ℕ → ℕ → Bool
is none i = false
is (some j) i = i == j

abbrev pub or_else : Option ℕ → Option ℕ → Option ℕ → Option ℕ
or_else none a b = a
or_else (some _) a b = b

or_else-ne_none : (o a b : Option ℕ) → o ≢ none → or_else o a b ≡ b
or_else-ne_none none a b h = absurd (h refl)
or_else-ne_none (some _) a b h = refl

next-ne :
    (node : ℕ → WaiterNode) (p : Option ℕ) (w x : ℕ) (xs : List ℕ)
    → Chain node p xs
    → In w xs
    → NotIn x xs
    → (node w).next ≢ some x
next-ne node p w x [] c m n = elim m [ ]
next-ne node p w x (y ∷ []) c (inl e) n = ground arith
next-ne node p w x (y ∷ z ∷ zs) c (inl e) n = ground arith
next-ne node p w x (y ∷ ys) c (inr m) n = next-ne node (some y) w x ys c.3 m n.1

prev-ne :
    (node : ℕ → WaiterNode) (p : Option ℕ) (w x : ℕ) (xs : List ℕ)
    → Chain node p xs
    → In w xs
    → NotIn x xs
    → p ≢ some x
    → (node w).prev ≢ some x
prev-ne node p w x [] c m n h = elim m [ ]
prev-ne node p w x (y ∷ ys) c (inl e) n h = ground arith
prev-ne node p w x (y ∷ ys) c (inr m) n h = prev-ne node (some y) w x ys c.3 m n.1 (ground arith)

prev-ne_none :
    (node : ℕ → WaiterNode) (a w : ℕ) (xs : List ℕ)
    → Chain node (some a) xs
    → In w xs
    → (node w).prev ≢ none
prev-ne_none node a w [] c m = elim m [ ]
prev-ne_none node a w (y ∷ ys) c (inl e) = ground arith
prev-ne_none node a w (y ∷ ys) c (inr m) = prev-ne_none node y w ys c.3 m

In-ne : (xs : List ℕ) (i x : ℕ) → NotIn x xs → In i xs → x ≢ i
In-ne [] i x n m e = elim m [ ]
In-ne (y ∷ ys) i x n (inl p) e = n.0 (p ∙ sym e)
In-ne (y ∷ ys) i x n (inr m) e = In-ne ys i x n.1 m e

-- The links after the removal of `w`, as the writes of `remove_waiter_locked` leave them.
pub record Bypasses (node new : ℕ → WaiterNode) (w : ℕ) : Type 0 where
  pub prev :
      (i : ℕ) → i ≢ w → (new i).prev ≡ (if is (node w).next i then (node w).prev else (node i).prev)
  pub next :
      (i : ℕ) → i ≢ w → (new i).next ≡ (if is (node w).prev i then (node w).next else (node i).next)
  pub queued : (i : ℕ) → i ≢ w → (new i).queued ≡ (node i).queued

is-false : (o : Option ℕ) (i : ℕ) → o ≢ some i → is o i ≡ false
is-false none i h = refl
is-false (some j) i h = ground arith

is-true : (o : Option ℕ) (i : ℕ) → o ≡ some i → is o i ≡ true
is-true none i h = cc
is-true (some j) i h = ground arith

module _ (node new : ℕ → WaiterNode) (w : ℕ) (b : Bypasses node new w) where
  -- Nodes that the removed one does not point to keep their links.
  Chain-same :
      (p : Option ℕ) (xs : List ℕ)
      → NotIn w xs
      → Chain node p xs
      → ((i : ℕ) → In i xs → (node w).prev ≢ some i)
      → ((i : ℕ) → In i xs → (node w).next ≢ some i)
      → Chain new p xs
  Chain-same p [] n c hp hn = tt
  Chain-same p (x ∷ xs) n c hp hn = (
    b.prev x n.0 ∙ rw (is-false _ x (hn x (inl refl))) c.0,
    b.next x n.0 ∙ rw (is-false _ x (hp x (inl refl))) c.1,
    b.queued x n.0 ∙ c.2,
    Chain-same (some x) xs n.1 c.3 (λ i m. hp i (inr m)) (λ i m. hn i (inr m)),
  )

  -- The queue behind the removed waiter.
  Chain-after :
      (xs : List ℕ)
      → NotIn w xs
      → AllDifferent xs
      → Chain node (some w) xs
      → (node w).next ≡ first xs
      → ((i : ℕ) → In i xs → (node w).prev ≢ some i)
      → Chain new (node w).prev xs
  Chain-after [] n d c r hp = tt
  Chain-after (x ∷ xs) n d c r hp = (
    b.prev x n.0 ∙ rw r (ground arith),
    b.next x n.0 ∙ rw (is-false _ x (hp x (inl refl))) c.1,
    b.queued x n.0 ∙ c.2,
    Chain-same (some x) xs n.1 c.3 (λ i m. hp i (inr m))
        (λ i m. rw r λ e. In-ne xs i x d.0 m (ground arith)),
  )

  -- The link of the waiter in front of the rest.
  next-erase :
      (x : ℕ) (xs : List ℕ)
      → x ≢ w
      → NotIn x xs
      → In w xs
      → (node x).next ≡ first xs
      → Chain node (some x) xs
      → (new x).next ≡ first (erase w xs)
  next-erase x [] h n m e c = elim m [ ]
  next-erase x (y ∷ ys) h n m e c = elim (Bool-cases (y == w)) [
    | inl here ↦
        let e' : y ≡ w = (==_iff y w).0 here in
        b.next x h
        ∙ rw (here, is-true _ x (subst (λ v. (node v).prev ≡ some x) e' c.0))
            (subst (λ v. (node v).next ≡ first ys) e' c.1)
    | inr other ↦
        b.next x h
        ∙ rw
            (
              is-false _ x
                  (prev-ne node (some y) w x ys c.3 (ground (arith, m, other)) n.1 (ground arith)),
              other,
            )
            e
  ]

  pub Chain-erase :
      (p : Option ℕ) (xs : List ℕ)
      → AllDifferent xs
      → In w xs
      → Chain node p xs
      → ((i : ℕ) → In i xs → p ≢ some i)
      → Chain new p (erase w xs)
  Chain-erase p [] d m c hp = elim m [ ]
  Chain-erase p (x ∷ xs) d m c hp = elim (Bool-cases (x == w)) [
    | inl here ↦
        let e : x ≡ w = (==_iff x w).0 here in
        rw here (
          subst (λ q. Chain new q xs) (subst (λ v. (node v).prev ≡ p) e c.0)
            (Chain-after xs (subst (λ v. NotIn v xs) e d.0) d.1
              (subst (λ v. Chain node (some v) xs) e c.3)
              (subst (λ v. (node v).next ≡ first xs) e c.1)
              (λ i k q. hp i (inr k) (sym (subst (λ v. (node v).prev ≡ p) e c.0) ∙ q))))
    | inr other ↦
        let ne : x ≢ w = ground (arith, other) in
        let m' : In w xs = ground (arith, ne) in
        rw other (
          b.prev x ne ∙ rw (is-false _ x (next-ne node (some x) w x xs c.3 m' d.0)) c.0,
          next-erase x xs ne d.0 m' c.1 c.3,
          b.queued x ne ∙ c.2,
          Chain-erase (some x) xs d.1 m' c.3 (λ i k q. In-ne xs i x d.0 k (ground arith)),
        )
  ]

pub first-erase :
    (node : ℕ → WaiterNode) (w : ℕ) (xs : List ℕ)
    → AllDifferent xs
    → In w xs
    → Chain node none xs
    → first (erase w xs) ≡ or_else (node w).prev (node w).next (first xs)
first-erase node w [] d m c = elim m [ ]
first-erase node w (x ∷ xs) d m c = elim (Bool-cases (x == w)) [
  | inl here ↦
      let e : x ≡ w = (==_iff x w).0 here in
      rw (here, subst (λ v. (node v).prev ≡ none) e c.0)
        (sym (subst (λ v. (node v).next ≡ first xs) e c.1))
  | inr other ↦
      let m' : In w xs = ground (arith, other) in
      rw other (sym (or_else-ne_none _ _ _ (prev-ne_none node x w xs c.3 m')))
]

pub last_or-erase :
    (node : ℕ → WaiterNode) (w : ℕ) (p : Option ℕ) (xs : List ℕ)
    → AllDifferent xs
    → In w xs
    → Chain node p xs
    → last_or p (erase w xs) ≡ or_else (node w).next (node w).prev (last_or p xs)
last_or-erase node w p [] d m c = elim m [ ]
last_or-erase node w p (x ∷ []) d m c = ground arith
last_or-erase node w p (x ∷ y ∷ ys) d m c = elim (Bool-cases (x == w)) [
  | inl here ↦
      let e : x ≡ w = (==_iff x w).0 here in rw (here, subst (λ v. (node v).next ≡ some y) e c.1)
  | inr other ↦
      let m' : In w (y ∷ ys) = ground (arith, other) in
      rw other (last_or-erase node w (some x) (y ∷ ys) d.1 m' c.3)
]

NotIn-erase : (v w : ℕ) (xs : List ℕ) → NotIn v xs → NotIn v (erase w xs)
NotIn-erase v w [] n = tt
NotIn-erase v w (x ∷ xs) n = ground (arith, NotIn-erase v w xs n.1)

pub AllDifferent-erase : (w : ℕ) (xs : List ℕ) → AllDifferent xs → AllDifferent (erase w xs)
AllDifferent-erase w [] d = tt
AllDifferent-erase w (x ∷ xs) d =
    ground (arith, NotIn-erase x w xs d.0, AllDifferent-erase w xs d.1)

pub NotIn-erase_inv : (v w : ℕ) (xs : List ℕ) → NotIn v (erase w xs) → v ≢ w → NotIn v xs
NotIn-erase_inv v w [] n h = tt
NotIn-erase_inv v w (x ∷ xs) n h = elim (Bool-cases (x == w)) [
  | inl here ↦ (ground (arith, here), rw here at n)
  | inr other ↦
      let n' : NotIn v (x ∷ erase w xs) = rw other at n in (n'.0, NotIn-erase_inv v w xs n'.1 h)
]

-- No waiter is its own neighbour.
pub links-ne_self :
    (node : ℕ → WaiterNode) (w : ℕ) (p : Option ℕ) (xs : List ℕ)
    → AllDifferent xs
    → In w xs
    → Chain node p xs
    → p ≢ some w
    → ((node w).prev ≢ some w) × ((node w).next ≢ some w)
links-ne_self node w p [] d m c h = elim m [ ]
links-ne_self node w p (x ∷ []) d (inl e) c h = (ground arith, ground arith)
links-ne_self node w p (x ∷ y ∷ ys) d (inl e) c h = (ground arith, ground arith)
links-ne_self node w p (x ∷ xs) d (inr m) c h =
    links-ne_self node w (some x) xs d.1 m c.3 (λ e. In-ne xs w x d.0 m (ground arith))

-- The writes of `remove_waiter_locked`, with the links that it reads.
module _ (s : Semaphore) (w : ℕ) where
  pub unlink-Bypasses :
      (q r : Option ℕ)
      → (s.node w).prev ≡ q
      → (s.node w).next ≡ r
      → q ≢ some w
      → r ≢ some w
      → Bypasses s.node (unlink w s).node w
        × ((unlink w s).head ≡ or_else q r s.head)
        × ((unlink w s).tail ≡ or_else r q s.tail)
  unlink-Bypasses none none hq hr nq nr = (
    record { prev = λ i n. ground arith; next = λ i n. ground arith; queued = λ i n. ground arith },
    ground arith,
    ground arith,
  )
  unlink-Bypasses none (some b) hq hr nq nr = (
    record { prev = λ i n. ground arith; next = λ i n. ground arith; queued = λ i n. ground arith },
    ground arith,
    ground arith,
  )
  unlink-Bypasses (some a) none hq hr nq nr = (
    record { prev = λ i n. ground arith; next = λ i n. ground arith; queued = λ i n. ground arith },
    ground arith,
    ground arith,
  )
  unlink-Bypasses (some a) (some b) hq hr nq nr = (
    record { prev = λ i n. ground arith; next = λ i n. ground arith; queued = λ i n. ground arith },
    ground arith,
    ground arith,
  )
