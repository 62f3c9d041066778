-- ===== src/Di/Resolution/Guard.antt =====
-- The set of what is being resolved is the same before and after.
use async_uv.Base.{
  ℕ, zero, suc, ◌≡◌, refl, ap, ◌∙◌, inl, inr, true, false, Option, none, some, List, [], ◌∷◌, arith,
  Bool-cases, Option-cases, ◌=?◌, =?_refl, nat_eq, subst, sym,
}
use async_uv.Base.Bytes.{is_empty, bytes_eq}
use async_uv.Base.Dict.{insert}
use async_uv.Di.{
  Program, give, throw_error, make_shared, assign, ask_binding, ask_shared, ask_reference, bind,
  TypeIndex, ServiceKey, Answer, returned, thrown, undefined, Binding, BindingTable, ResolutionKey,
  contains, erase, resolution_key_eq, Container, table_for_key, set_table, binding_at, set_binding,
}
use async_uv.Di.Construct.{TypeTraits}
use async_uv.Di.Resolution.{
  Ended, Resolver, and_then, is_singleton, find_or_emplace, run, resolve_guarded, resolve_binding,
  unguarded, cache_in, keep_created, resolve_shared_impl,
}
use async_uv.Di.Resolution.Programs.{After, Within, IsKept, run-After}

pub erase_absent :
    (k : ResolutionKey) (set : List ResolutionKey) → contains k set ≡ false → erase k set ≡ set
erase_absent k [] h = refl
erase_absent k (j ∷ set) h = elim (Bool-cases (j =? k)) [
  | inl same ↦ cc (rw same at h)
  | inr other ↦ rw other (ap (λ s. j ∷ s) (erase_absent k set (rw other at h)))
]

pub erase-cons :
    (k : ResolutionKey) (set : List ResolutionKey)
    → contains k set ≡ false
    → erase k (k ∷ set) ≡ set
erase-cons k set h = rw (=?_refl k) (erase_absent k set h)

set_table-resolving :
    (key : ServiceKey) (table : BindingTable) (c : Container)
    → (set_table key table c).resolving ≡ c.resolving
unfolding set_table
set_table-resolving key table c = elim (Bool-cases (is_empty key)) [
  | inl default ↦ rw default refl
  | inr keyed ↦ rw keyed refl
]

pub set_binding-resolving :
    (key : ServiceKey) (type : TypeIndex) (binding : Binding) (c : Container)
    → (set_binding key type binding c).resolving ≡ c.resolving
unfolding set_binding
set_binding-resolving key type binding c =
    set_table-resolving key (insert type binding (table_for_key key c)) c

module _ (traits : TypeIndex → TypeTraits) where
  pub find_or_emplace-resolving :
      (key : ServiceKey) (type : TypeIndex) (c : Container)
      → (find_or_emplace traits key type c).1.resolving ≡ c.resolving
  unfolding find_or_emplace
  find_or_emplace-resolving key type c = elim (Option-cases (binding_at key type c)) [
    | inl missing ↦ rw (find_or_emplace, missing) (set_binding-resolving key type _ c)
    | inr (binding, there) ↦ rw (find_or_emplace, there) refl
  ]

  -- A resolution: `Inv` holds of the container around it, and `Inner` while the factory runs.
  module _ (Inv Inner : Container → Type 0) (B : Type 0) (key : ServiceKey) (type : TypeIndex) where
    abbrev pub Released : Container → Type 0
    Released c =
        Inv (record c { resolving = erase (record { type = type; key = key }) c.resolving })

    keep_created-After :
        (created : Ended (Option ℕ))
        → ((c : Container) → Inner c → Released c)
        → ((object : ℕ) (c : Container)
            → Inner c
            → Released (cache_in traits key type object (binding_at key type c) c))
        → After B Inner created
        → After B Inv (
            unguarded traits
              (record { type = type; key = key })
              (and_then created (keep_created traits key type)))
    keep_created-After none fails keeps h = h
    keep_created-After (some (thrown error, c)) fails keeps h = fails c h
    keep_created-After (some (undefined, c)) fails keeps h = fails c h
    keep_created-After (some (returned none, c)) fails keeps h = fails c h
    keep_created-After (some (returned (some object), c)) fails keeps h = keeps object c h

    pub resolve_binding-After :
        (resolve : Resolver) (binding : Binding) (c : Container)
        → Inv c
        → (contains (record { type = type; key = key }) c.resolving ≡ false
            → (c : Container) → Inner c
            → Released c)
        → (contains (record { type = type; key = key }) c.resolving ≡ false
            → (object : ℕ) (c : Container) → Inner c
            → Released (cache_in traits key type object (binding_at key type c) c))
        → ((is_singleton binding ≡ true → binding.cached ≡ none)
            → contains (record { type = type; key = key }) c.resolving ≡ false
            → After B Inner (
                run traits resolve binding.factory
                  (record c { resolving = record { type = type; key = key } ∷ c.resolving })))
        → After B Inv (resolve_binding traits resolve key type binding c)
    unfolding resolve_binding resolve_guarded
    resolve_binding-After resolve binding c inv fails keeps created =
        let guarded : (is_singleton binding ≡ true → binding.cached ≡ none)
            → After B Inv (resolve_guarded traits resolve key type binding c) =
          λ uncached. elim (Bool-cases (contains (record { type = type; key = key }) c.resolving)) [
            | inl cyclic ↦ rw (resolve_guarded, cyclic) inv
            | inr fresh ↦
                rw (resolve_guarded, fresh)
                  (keep_created-After
                    (run traits resolve binding.factory
                      (record c { resolving = record { type = type; key = key } ∷ c.resolving }))
                    (fails fresh) (keeps fresh) (created uncached fresh))
          ] in
        elim (Bool-cases (is_singleton binding)) [
          | inr transient ↦
              rw (resolve_binding, transient)
                (guarded (λ single. absurd (ground (arith, single, transient))))
          | inl single ↦ elim (Option-cases binding.cached) [
            | inl empty ↦ rw (resolve_binding, single, empty) (guarded (λ _. empty))
            | inr (x, there) ↦ rw (resolve_binding, single, there) inv
          ]
        ]

  -- Nothing is asked of a program here.
  abbrev Any : ServiceKey → TypeIndex → Type 0
  Any key type = Unit

  program-Within : (program : Program) → Within Any Any program
  program-Within (give object) = tt
  program-Within (throw_error error) = tt
  program-Within (make_shared next) = λ object. program-Within (next object)
  program-Within (assign object place value next) = program-Within next
  program-Within (ask_binding key type next) = λ there. program-Within (next there)
  program-Within (ask_shared key type next handle) =
      (tt, ((λ a. program-Within (next a)), λ e. program-Within (handle e)))
  program-Within (ask_reference key type next handle) =
      (tt, ((λ a. program-Within (next a)), λ e. program-Within (handle e)))
  program-Within (bind key type lifetime cached factory next) =
      (tt, (program-Within factory, program-Within next))

  resolving-IsKept : (set : List ResolutionKey) → IsKept traits Any Any (λ c. c.resolving ≡ set)
  resolving-IsKept set = record {
    allocates = λ c h. h;
    assigns = λ c a h. h;
    binds = λ key type binding c _ _ h. set_binding-resolving key type binding c ∙ h;
    emplaces = λ key type c h. find_or_emplace-resolving key type c ∙ h;
  }

  pub cache_in-resolving :
      (key : ServiceKey) (type : TypeIndex) (object : ℕ) (binding : Option Binding) (c : Container)
      → (cache_in traits key type object binding c).resolving ≡ c.resolving
  cache_in-resolving key type object none c = refl
  cache_in-resolving key type object (some binding) c = elim (Bool-cases (is_singleton binding)) [
    | inl single ↦
        rw single (set_binding-resolving key type (record binding { cached = some object }) c)
    | inr transient ↦ rw transient refl
  ]

  resolve_shared-resolving :
      (fuel : ℕ) (key : ServiceKey) (type : TypeIndex) (set : List ResolutionKey) (c : Container)
      → c.resolving ≡ set
      → After Unit (λ c'. c'.resolving ≡ set) (resolve_shared_impl traits fuel key type c)
  unfolding resolve_shared_impl
  resolve_shared-resolving zero key type set c h = tt
  resolve_shared-resolving (suc fuel) key type set c h =
      let (binding, c') = find_or_emplace traits key type c in
      let k : ResolutionKey = record { type = type; key = key } in
      let h' : c'.resolving ≡ set = find_or_emplace-resolving key type c ∙ h in
      let absent : contains k c'.resolving ≡ false → contains k set ≡ false =
        λ fresh. ap (contains k) (sym h') ∙ fresh in
      resolve_binding-After (λ c. c.resolving ≡ set) (λ c. c.resolving ≡ k ∷ set) Unit key type
        (resolve_shared_impl traits fuel) binding c' h'
        (λ fresh d i. ap (erase k) i ∙ erase-cons k set (absent fresh))
        (λ fresh object d i.
          ap (erase k) (cache_in-resolving key type object (binding_at key type d) d ∙ i)
          ∙ erase-cons k set (absent fresh))
        (λ _ _.
          run-After traits Any Any (λ c. c.resolving ≡ k ∷ set) Unit (resolving-IsKept (k ∷ set))
            (resolve_shared_impl traits fuel)
            (λ key type d _ i. resolve_shared-resolving fuel key type (k ∷ set) d i) binding.factory
            (record c' { resolving = k ∷ c'.resolving }) (program-Within binding.factory)
            (ap (λ s. k ∷ s) h'))

  After-eq :
      (P : Container → Type 0) (e : Ended ℕ) (answer : Answer ℕ) (c : Container)
      → After Unit P e
      → e ≡ some (answer, c)
      → P c
  After-eq P e answer c h there = subst (After Unit P) there h

  -- However a resolution ends, with an instance or with an exception of the container or of a
  -- factory below it, what is marked as being resolved is the same after it as before.
  pub resolve_shared_restores :
      (fuel : ℕ) (key : ServiceKey) (type : TypeIndex) (c c' : Container) (answer : Answer ℕ)
      → resolve_shared_impl traits fuel key type c ≡ some (answer, c')
      → c'.resolving ≡ c.resolving
  resolve_shared_restores fuel key type c c' answer there =
      After-eq (λ d. d.resolving ≡ c.resolving) (resolve_shared_impl traits fuel key type c) answer
        c' (resolve_shared-resolving fuel key type c.resolving c refl) there
