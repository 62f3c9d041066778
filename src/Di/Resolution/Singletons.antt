-- ===== src/Di/Resolution/Singletons.antt =====
-- A singleton is made once.
use async_uv.Base.{
  ℕ, zero, suc, ◌≡◌, refl, ap, ◌∙◌, sym, subst, inl, inr, true, false, Option, none, some, ◌∷◌,
  Bool-cases, Option-cases, =?_refl, nat_eq,
}
use async_uv.Di.{
  TypeIndex, ServiceKey, Answer, returned, thrown, undefined, Binding, ResolutionKey,
  same_resolution, contains, erase, resolution_key_eq, Container, binding_at, set_binding,
}
use async_uv.Di.Tables.{binding_at-set_binding}
use async_uv.Di.Construct.{TypeTraits, construct_default}
use async_uv.Di.Resolution.{
  Ended, Resolver, and_then, is_singleton, find_or_emplace, make_auto_binding, run, unguarded,
  keep_created, resolve_guarded, resolve_binding, cache_in, resolve_shared_impl,
}
use async_uv.Di.Resolution.Programs.{
  After, Within, Sealed, set_binding-Sealed, binding_at-Within, IsKept, run-After,
}
use async_uv.Di.Resolution.Guard.{resolve_binding-After}

-- Resolutions one after the other.
pub data Later (traits : TypeIndex → TypeTraits) : Container → Container → Type 0 where
  stays : {c : Container} → Later traits c c
  resolves :
      {c d : Container} (fuel : ℕ) (key : ServiceKey) (type : TypeIndex) (answer : Answer ℕ)
      (c' : Container)
      → resolve_shared_impl traits fuel key type c ≡ some (answer, c')
      → Later traits c' d
      → Later traits c d

binding_at_self :
    (key : ServiceKey) (type : TypeIndex) (binding : Binding) (c : Container)
    → binding_at key type (set_binding key type binding c) ≡ some binding
binding_at_self key type binding c =
    let k : ResolutionKey = record { type = type; key = key } in
    binding_at-set_binding key key type type binding c ∙ rw (=?_refl k) refl

module _ (traits : TypeIndex → TypeTraits) (key : ServiceKey) (type : TypeIndex) (object : ℕ) where
  -- The binding at the key, if it is a singleton's, caches the object.
  abbrev Caches : Container → Type 0
  Caches c =
      (b : Binding)
      → binding_at key type c ≡ some b
      → is_singleton b ≡ true
      → b.cached ≡ some object

  cache_in-Caches :
      (found : Option Binding) (c : Container)
      → binding_at key type c ≡ found
      → Caches (cache_in traits key type object found c)
  cache_in-Caches none c at b there single = cc
  cache_in-Caches (some found) c at b there single = elim (Bool-cases (is_singleton found)) [
    | inl s ↦
        let kept : Binding = record found { cached = some object } in
        let there' : binding_at key type (set_binding key type kept c) ≡ some b = rw s at there in
        let e : some kept ≡ some b = sym (binding_at_self key type kept c) ∙ there' in
        let e' : kept ≡ b = cc e in ap (λ b. b.cached) (sym e')
    | inr t ↦
        let there' : binding_at key type c ≡ some b = rw t at there in
        let e : some found ≡ some b = sym at ∙ there' in
        let e' : found ≡ b = cc e in
        let s : is_singleton found ≡ true = ap is_singleton e' ∙ single in cc
  ]

  unguarded-Caches :
      (k : ResolutionKey) (created : Ended (Option ℕ)) (c' : Container)
      → unguarded traits k (and_then created (keep_created traits key type))
        ≡ some (returned object, c')
      → Caches c'
  unfolding binding_at
  unguarded-Caches k none c' e = cc
  unguarded-Caches k (some (thrown error, c)) c' e = cc
  unguarded-Caches k (some (undefined, c)) c' e = cc
  unguarded-Caches k (some (returned none, c)) c' e = cc
  unguarded-Caches k (some (returned (some x), c)) c' e =
      let same : x ≡ object = cc e in
      let d : (x : ℕ) → Container = λ x. cache_in traits key type x (binding_at key type c) c in
      let e' : record (d x) { resolving = erase k (d x).resolving } ≡ c' = cc e in
      subst Caches e' (
        subst (λ x. Caches (record (d x) { resolving = erase k (d x).resolving })) (sym same)
          (cache_in-Caches (binding_at key type c) c refl))

  resolve_guarded-Caches :
      (resolve : Resolver) (binding : Binding) (c c' : Container)
      → resolve_guarded traits resolve key type binding c ≡ some (returned object, c')
      → Caches c'
  unfolding resolve_guarded
  resolve_guarded-Caches resolve binding c c' e =
      let k : ResolutionKey = record { type = type; key = key } in
      elim (Bool-cases (contains k c.resolving)) [
        | inl cyclic ↦ cc (rw (resolve_guarded, cyclic) at e)
        | inr fresh ↦
            unguarded-Caches k
              (run traits resolve binding.factory (record c { resolving = k ∷ c.resolving })) c'
              (rw (resolve_guarded, fresh) at e)
      ]

  resolve_binding-Caches :
      (resolve : Resolver) (binding : Binding) (c c' : Container)
      → binding_at key type c ≡ some binding
      → resolve_binding traits resolve key type binding c ≡ some (returned object, c')
      → Caches c'
  unfolding resolve_binding
  resolve_binding-Caches resolve binding c c' at e = elim (Bool-cases (is_singleton binding)) [
    | inr transient ↦
        resolve_guarded-Caches resolve binding c c' (rw (resolve_binding, transient) at e)
    | inl single ↦ elim (Option-cases binding.cached) [
      | inl empty ↦
          resolve_guarded-Caches resolve binding c c' (rw (resolve_binding, single, empty) at e)
      | inr (x, cached) ↦
          let e' : ◌≡◌ {A = Ended ℕ} (some (returned x, c)) (some (returned object, c')) =
            rw (resolve_binding, single, cached) at e in
          let same : x ≡ object = cc e' in
          let stays : c ≡ c' = cc e' in
          λ b there _.
            let found : some binding ≡ some b = sym at ∙ ap (binding_at key type) stays ∙ there in
            let found' : binding ≡ b = cc found in
            ap (λ b. b.cached) (sym found') ∙ cached ∙ ap some same
    ]
  ]

  find_or_emplace-at :
      (c : Container)
      → binding_at key type (find_or_emplace traits key type c).1
        ≡ some (find_or_emplace traits key type c).0
  unfolding find_or_emplace
  find_or_emplace-at c = elim (Option-cases (binding_at key type c)) [
    | inl missing ↦
        rw (find_or_emplace, missing) (binding_at_self key type (make_auto_binding (traits type)) c)
    | inr (binding, there) ↦ rw (find_or_emplace, there) there
  ]

  resolve_shared-Caches :
      (fuel : ℕ) (c c' : Container)
      → resolve_shared_impl traits fuel key type c ≡ some (returned object, c')
      → Caches c'
  unfolding resolve_shared_impl
  resolve_shared-Caches zero c c' e = cc
  resolve_shared-Caches (suc fuel) c c' e =
      let (binding, d) = find_or_emplace traits key type c in
      resolve_binding-Caches (resolve_shared_impl traits fuel) binding d c' (find_or_emplace-at c) e

  -- A singleton that caches the object is at the key.
  abbrev Held : Container → Type 0
  Held c =
      (b : Binding) × ((binding_at key type c ≡ some b)
        × ((is_singleton b ≡ true) × (b.cached ≡ some object)))

  find_or_emplace-found :
      (k : ServiceKey) (t : TypeIndex) (b : Binding) (c : Container)
      → binding_at k t c ≡ some b
      → find_or_emplace traits k t c ≡ (b, c)
  unfolding find_or_emplace
  find_or_emplace-found k t b c there = rw (find_or_emplace, there) refl

  resolve_binding-cached :
      (resolve : Resolver) (b : Binding) (c : Container)
      → is_singleton b ≡ true
      → b.cached ≡ some object
      → resolve_binding traits resolve key type b c ≡ some (returned object, c)
  unfolding resolve_binding
  resolve_binding-cached resolve b c single cached = rw (resolve_binding, single, cached) refl

  resolve_shared-Held :
      (fuel : ℕ) (c : Container)
      → Held c
      → resolve_shared_impl traits (suc fuel) key type c ≡ some (returned object, c)
  unfolding resolve_shared_impl
  resolve_shared-Held fuel c (b, (there, (single, cached))) =
      ap (λ p. resolve_binding traits (resolve_shared_impl traits fuel) key type p.0 p.1)
        (find_or_emplace-found key type b c there)
      ∙ resolve_binding-cached (resolve_shared_impl traits fuel) b c single cached

  -- Another key or another type.
  abbrev pub Others : ServiceKey → TypeIndex → Type 0
  Others k t =
      same_resolution (record { type = t; key = k }) (record { type = type; key = key }) ≡ false

  set_binding-Held :
      (k : ServiceKey) (t : TypeIndex) (binding : Binding) (c : Container)
      → Others k t
      → Held c
      → Held (set_binding k t binding c)
  set_binding-Held k t binding c other (b, (there, rest)) =
      (b, (binding_at-set_binding k key t type binding c ∙ rw other there, rest))

  missing-Others :
      (k : ServiceKey) (t : TypeIndex) (c : Container)
      → Held c
      → binding_at k t c ≡ none
      → Others k t
  missing-Others k t c (b, (there, rest)) missing =
      elim (Bool-cases
        (same_resolution (record { type = t; key = k }) (record { type = type; key = key }))) [
          | inr other ↦ other
          | inl same ↦
              let e : ◌≡◌ {A = ResolutionKey} (record { type = t; key = k })
                  (record { type = type; key = key }) =
                (resolution_key_eq.beq_iff (record { type = t; key = k })
                    (record { type = type; key = key })).0
                  same in
              let absent : binding_at key type c ≡ none =
                ap (λ r. binding_at r.key r.type c) (sym e) ∙ missing in
              cc
        ]

  abbrev pub Any : ServiceKey → TypeIndex → Type 0
  Any k t = Unit

  abbrev Kept : Container → Type 0
  Kept c = Held c × Sealed Any Others c

  module _ (constructs : (t : TypeIndex) → Within Any Others (construct_default (traits t))) where
    find_or_emplace-Kept :
        (k : ServiceKey) (t : TypeIndex) (c : Container)
        → Kept c
        → Kept (find_or_emplace traits k t c).1
          × Within Any Others (find_or_emplace traits k t c).0.factory
    unfolding find_or_emplace
    find_or_emplace-Kept k t c (held, sealed) = elim (Option-cases (binding_at k t c)) [
      | inr (binding, there) ↦
          rw (find_or_emplace, there)
            ((held, sealed), binding_at-Within Any Others k t binding c sealed there)
      | inl missing ↦
          let auto = make_auto_binding (traits t) in
          rw (find_or_emplace, missing)
            (
              (
                set_binding-Held k t auto c (missing-Others k t c held missing) held,
                set_binding-Sealed Any Others k t auto c (constructs t) sealed,
              ),
              constructs t,
            )
    ]

    Kept-IsKept : IsKept traits Any Others Kept
    unfolding binding_at
    Kept-IsKept = record {
      allocates = λ c h. h;
      assigns = λ c a h. h;
      binds = λ k t binding c other w (held, sealed). (
        set_binding-Held k t binding c other held,
        set_binding-Sealed Any Others k t binding c w sealed,
      );
      emplaces = λ k t c h. (find_or_emplace-Kept k t c h).0;
    }

    cache_in-Kept :
        (k : ServiceKey) (t : TypeIndex) (x : ℕ) (found : Option Binding) (c : Container)
        → binding_at k t c ≡ found
        → Others k t
        → Kept c
        → Kept (cache_in traits k t x found c)
    cache_in-Kept k t x none c at other h = h
    cache_in-Kept k t x (some found) c at other (held, sealed) =
        elim (Bool-cases (is_singleton found)) [
          | inr transient ↦ rw transient (held, sealed)
          | inl single ↦
              let binding : Binding = record found { cached = some x } in
              rw single (
                set_binding-Held k t binding c other held,
                set_binding-Sealed Any Others k t binding c
                    (binding_at-Within Any Others k t found c sealed at) sealed,
              )
        ]

    resolve_shared-Kept :
        (fuel : ℕ) (k : ServiceKey) (t : TypeIndex) (c : Container)
        → Kept c
        → After Unit Kept (resolve_shared_impl traits fuel k t c)
    unfolding resolve_shared_impl binding_at
    resolve_shared-Kept zero k t c h = tt
    resolve_shared-Kept (suc fuel) k t c h =
        let (binding, c') = find_or_emplace traits k t c in
        let (kept, factory) = find_or_emplace-Kept k t c h in
        elim (Bool-cases
          (same_resolution (record { type = t; key = k }) (record { type = type; key = key }))) [
            | inl same ↦
                let e : ◌≡◌ {A = ResolutionKey} (record { type = t; key = k })
                    (record { type = type; key = key }) =
                  (resolution_key_eq.beq_iff (record { type = t; key = k })
                      (record { type = type; key = key })).0
                    same in
                subst
                  (λ (r : ResolutionKey).
                    After Unit Kept (resolve_shared_impl traits (suc fuel) r.key r.type c))
                  (sym e) (subst (After Unit Kept) (sym (resolve_shared-Held fuel c h.0)) h)
            | inr other ↦
                resolve_binding-After traits Kept Kept Unit k t (resolve_shared_impl traits fuel)
                  binding c' kept (λ _ d i. i)
                  (λ _ x d i. cache_in-Kept k t x (binding_at k t d) d refl other i)
                  (λ _ _.
                    run-After traits Any Others Kept Unit Kept-IsKept
                      (resolve_shared_impl traits fuel)
                      (λ k t d _ i. resolve_shared-Kept fuel k t d i) binding.factory
                      (record c' { resolving = record { type = t; key = k } ∷ c'.resolving })
                      factory kept)
          ]

    After-eq :
        (P : Container → Type 0) (e : Ended ℕ) (answer : Answer ℕ) (c : Container)
        → After Unit P e
        → e ≡ some (answer, c)
        → P c
    After-eq P e answer c h there = subst (After Unit P) there h

    Later-Kept : (c d : Container) → Later traits c d → Kept c → Kept d
    Later-Kept c d stays h = h
    Later-Kept c d (resolves fuel k t answer c' there later) h = Later-Kept c' d later (
        After-eq Kept (resolve_shared_impl traits fuel k t c) answer c'
          (resolve_shared-Kept fuel k t c h) there)

    -- Once a resolution gave an object and the binding at its key is that of a singleton, then after
    -- any further resolutions, of whatever keys and types, that fail or not, it gives the same object
    -- and leaves the container as it is. No factory may register another binding at this key and
    -- type meanwhile.
    pub singleton_lasts :
        (fuel n : ℕ) (c c' d : Container) (b : Binding)
        → resolve_shared_impl traits fuel key type c ≡ some (returned object, c')
        → binding_at key type c' ≡ some b
        → is_singleton b ≡ true
        → Sealed Any Others c'
        → Later traits c' d
        → resolve_shared_impl traits (suc n) key type d ≡ some (returned object, d)
    singleton_lasts fuel n c c' d b given there single sealed later =
        let cached = resolve_shared-Caches fuel c c' given b there single in
        let kept = Later-Kept c' d later ((b, (there, (single, cached))), sealed) in
        resolve_shared-Held n d kept.0
