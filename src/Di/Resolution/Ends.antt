-- ===== src/Di/Resolution/Ends.antt =====
-- The guard makes every resolution end: what is being resolved grows with each that is nested.
use async_uv.Base.{
  ℕ, zero, suc, ◌≤◌, ◌<◌, ◌≡◌, refl, ap, ◌∙◌, sym, inl, inr, true, false, Option, none, some, List,
  [], ◌∷◌, arith, if◌then◌else◌, Bool-cases, Option-cases, ◌=?◌, nat_eq, length,
}
use async_uv.Di.{
  TypeIndex, ServiceKey, Answer, Binding, ResolutionKey, contains, erase, resolution_key_eq,
  Container, binding_at,
}
use async_uv.Di.Construct.{TypeTraits, construct_default}
use async_uv.Di.Resolution.{
  Ended, is_singleton, find_or_emplace, make_auto_binding, cache_in, resolve_shared_impl,
}
use async_uv.Di.Resolution.Programs.{
  After, Within, Sealed, set_binding-Sealed, binding_at-Within, IsKept, run-After,
}
use async_uv.Di.Resolution.Guard.{
  erase-cons, set_binding-resolving, cache_in-resolving, resolve_binding-After,
}

-- How many keys of a list are not in a set.
unresolved : List ResolutionKey → List ResolutionKey → ℕ
unresolved [] set = 0
unresolved (k ∷ keys) set =
    if contains k set then unresolved keys set else suc (unresolved keys set)

unresolved-le_length : (keys set : List ResolutionKey) → unresolved keys set ≤ length keys
unfolding unresolved
unresolved-le_length [] set = omega arith
unresolved-le_length (k ∷ keys) set = elim (Bool-cases (contains k set)) [
  | inl there ↦ rw there (omega (arith, unresolved-le_length keys set))
  | inr absent ↦ rw absent (omega (arith, unresolved-le_length keys set))
]

unresolved-cons_le :
    (k : ResolutionKey) (keys set : List ResolutionKey)
    → unresolved keys (k ∷ set) ≤ unresolved keys set
unfolding unresolved
unresolved-cons_le k [] set = omega arith
unresolved-cons_le k (j ∷ keys) set = elim (Bool-cases (k =? j)) [
  | inl same ↦ elim (Bool-cases (contains j set)) [
    | inl there ↦ rw (same, there) (unresolved-cons_le k keys set)
    | inr absent ↦ rw (same, absent) (omega (arith, unresolved-cons_le k keys set))
  ]
  | inr other ↦ elim (Bool-cases (contains j set)) [
    | inl there ↦ rw (other, there) (unresolved-cons_le k keys set)
    | inr absent ↦ rw (other, absent) (omega (arith, unresolved-cons_le k keys set))
  ]
]

-- A key of the list that is marked is one less that is not.
unresolved-cons :
    (k : ResolutionKey) (keys set : List ResolutionKey)
    → contains k keys ≡ true
    → contains k set ≡ false
    → unresolved keys (k ∷ set) < unresolved keys set
unfolding unresolved
unresolved-cons k [] set there fresh = cc
unresolved-cons k (j ∷ keys) set there fresh = elim (Bool-cases (j =? k)) [
  | inl same ↦
      let e : j ≡ k = (resolution_key_eq.beq_iff j k).0 same in
      let fresh' : contains j set ≡ false = ap (λ i. contains i set) e ∙ fresh in
      let same' : (k =? j) ≡ true = (resolution_key_eq.beq_iff k j).1 (sym e) in
      rw (same', fresh') (omega (arith, unresolved-cons_le k keys set))
  | inr other ↦
      let less = unresolved-cons k keys set (rw other at there) fresh in
      elim (Bool-cases (k =? j)) [
        | inl same ↦
            let e : k ≡ j = (resolution_key_eq.beq_iff k j).0 same in
            let same' : (j =? k) ≡ true = (resolution_key_eq.beq_iff j k).1 (sym e) in cc
        | inr other' ↦ elim (Bool-cases (contains j set)) [
          | inl in_set ↦ rw (other', in_set) less
          | inr absent ↦ rw (other', absent) (omega (arith, less))
        ]
      ]
]

module _ (traits : TypeIndex → TypeTraits) (universe : List ResolutionKey) where
  abbrev pub Asks : ServiceKey → TypeIndex → Type 0
  Asks key type = contains (record { type = type; key = key }) universe ≡ true

  abbrev pub Any : ServiceKey → TypeIndex → Type 0
  Any key type = Unit

  -- Every factory, also that of a type that nobody registered, asks for keys of the list only.
  abbrev Inv : List ResolutionKey → Container → Type 0
  Inv set c = (c.resolving ≡ set) × Sealed Asks Any c

  module _
      (constructs : (type : TypeIndex) → Within Asks Any (construct_default (traits type))) where
    find_or_emplace-Inv :
        (set : List ResolutionKey) (key : ServiceKey) (type : TypeIndex) (c : Container)
        → Inv set c
        → Inv set (find_or_emplace traits key type c).1
          × Within Asks Any (find_or_emplace traits key type c).0.factory
    unfolding find_or_emplace
    find_or_emplace-Inv set key type c (h, sealed) = elim (Option-cases (binding_at key type c)) [
      | inl missing ↦
          rw (find_or_emplace, missing)
            (
              (
                set_binding-resolving key type (make_auto_binding (traits type)) c ∙ h,
                set_binding-Sealed Asks Any key type (make_auto_binding (traits type)) c
                    (constructs type) sealed,
              ),
              constructs type,
            )
      | inr (binding, there) ↦
          rw (find_or_emplace, there)
            ((h, sealed), binding_at-Within Asks Any key type binding c sealed there)
    ]

    Inv-IsKept : (set : List ResolutionKey) → IsKept traits Asks Any (Inv set)
    Inv-IsKept set = record {
      allocates = λ c h. h;
      assigns = λ c a h. h;
      binds = λ key type binding c _ w (h, sealed). (
        set_binding-resolving key type binding c ∙ h,
        set_binding-Sealed Asks Any key type binding c w sealed,
      );
      emplaces = λ key type c h. (find_or_emplace-Inv set key type c h).0;
    }

    cache_in-Sealed :
        (key : ServiceKey) (type : TypeIndex) (object : ℕ) (binding : Option Binding)
        (c : Container)
        → ((b : Binding) → binding ≡ some b → Within Asks Any b.factory)
        → Sealed Asks Any c
        → Sealed Asks Any (cache_in traits key type object binding c)
    cache_in-Sealed key type object none c w h = h
    cache_in-Sealed key type object (some binding) c w h =
        elim (Bool-cases (is_singleton binding)) [
          | inl single ↦ rw single (
              set_binding-Sealed Asks Any key type (record binding { cached = some object }) c
                (w binding refl) h)
          | inr transient ↦ rw transient h
        ]

    cache_in-Inv :
        (set : List ResolutionKey) (key : ServiceKey) (type : TypeIndex) (object : ℕ)
        (c : Container)
        → Inv set c
        → Inv set (cache_in traits key type object (binding_at key type c) c)
    cache_in-Inv set key type object c (h, sealed) = (
      cache_in-resolving traits key type object (binding_at key type c) c ∙ h,
      cache_in-Sealed key type object (binding_at key type c) c
          (λ b there. binding_at-Within Asks Any key type b c sealed there) sealed,
    )

    resolve_shared-Inv :
        (fuel : ℕ) (key : ServiceKey) (type : TypeIndex) (set : List ResolutionKey) (c : Container)
        → unresolved universe set < fuel
        → Asks key type
        → Inv set c
        → After ⊥ (Inv set) (resolve_shared_impl traits fuel key type c)
    unfolding resolve_shared_impl
    resolve_shared-Inv zero key type set c enough asked h = absurd (omega (arith, enough))
    resolve_shared-Inv (suc fuel) key type set c enough asked h =
        let (binding, c') = find_or_emplace traits key type c in
        let k : ResolutionKey = record { type = type; key = key } in
        let (inv, factory) = find_or_emplace-Inv set key type c h in
        let absent : contains k c'.resolving ≡ false → contains k set ≡ false =
          λ fresh. ap (contains k) (sym inv.0) ∙ fresh in
        let release : (fresh : contains k c'.resolving ≡ false) (d : Container)
            → Inv (k ∷ set) d
            → Inv set (record d { resolving = erase k d.resolving }) =
          λ fresh d i. (ap (erase k) i.0 ∙ erase-cons k set (absent fresh), i.1) in
        resolve_binding-After traits (Inv set) (Inv (k ∷ set)) ⊥ key type
          (resolve_shared_impl traits fuel) binding c' inv (λ fresh d i. release fresh d i)
          (λ fresh object d i.
            release fresh (cache_in traits key type object (binding_at key type d) d)
              (cache_in-Inv (k ∷ set) key type object d i))
          (λ _ fresh.
            let fewer = unresolved-cons k universe set asked (absent fresh) in
            run-After traits Asks Any (Inv (k ∷ set)) ⊥ (Inv-IsKept (k ∷ set))
              (resolve_shared_impl traits fuel)
              (λ key type d asked i.
                resolve_shared-Inv fuel key type (k ∷ set) d (omega (arith, enough, fewer)) asked i)
              binding.factory (record c' { resolving = k ∷ c'.resolving }) factory
              (ap (λ s. k ∷ s) inv.0, inv.1))

    After-ended :
        (P : Container → Type 0) (e : Ended ℕ)
        → After ⊥ P e
        → (answer : Answer ℕ) × ((c' : Container) × (e ≡ some (answer, c')))
    After-ended P none h = absurd h
    After-ended P (some (answer, c')) h = (answer, (c', refl))

    -- If every factory, those of the types that nobody registered too, asks only for keys and types
    -- of a finite list, then a resolution of one of these ends, with an instance, with an exception
    -- or where a null pointer is dereferenced, however the factories depend on each other: it is
    -- nested no deeper than the list is long.
    pub resolve_shared_ends :
        (fuel : ℕ) (key : ServiceKey) (type : TypeIndex) (c : Container)
        → length universe < fuel
        → Asks key type
        → Sealed Asks Any c
        → (answer : Answer ℕ) × ((c' : Container) × (resolve_shared_impl traits fuel key type c
              ≡ some (answer, c')))
    resolve_shared_ends fuel key type c enough asked sealed =
        After-ended (Inv c.resolving) (resolve_shared_impl traits fuel key type c) (
          resolve_shared-Inv fuel key type c.resolving c
            (omega (arith, enough, unresolved-le_length universe c.resolving)) asked (refl, sealed))
