-- ===== src/Di/Resolution.antt =====
-- `resolve_shared_impl`, `resolve_ref_impl` and the run of a factory. The fuel bounds how deep
-- resolutions are nested, see Resolution/Ends; none if it does not last. The mutex lets one thread
-- resolve at a time.
pub mod Programs
pub mod Guard
pub mod Ends
pub mod Singletons
use async_uv.Base.{
  ℕ, zero, suc, ◌+◌, Bool, true, false, ◌&&◌, Option, none, some, List, [], ◌∷◌, if◌then◌else◌,
}
use async_uv.Di.{
  TypeIndex, ServiceKey, Lifetime, singleton, transient, Error, cyclic_dependency,
  factory_returned_null, transient_reference, Error, Answer, returned, thrown, undefined, Program,
  give, throw_error, make_shared, assign, ask_binding, ask_shared, ask_reference, bind, Binding,
  ResolutionKey, contains, erase, Container, binding_at, set_binding, has_binding,
}
use async_uv.Di.Construct.{TypeTraits, construct_default}

-- How a call ends, and the container then.
abbrev pub Ended : Type 0 → Type 0
Ended A = Option (Answer A × Container)

abbrev pub Resolver : Type 0
Resolver = ServiceKey → TypeIndex → Container → Ended ℕ

-- An exception leaves out what follows, and so does what is undefined.
abbrev pub and_then : {A B : Type 0} → Ended A → (A → Container → Ended B) → Ended B
and_then none next = none
and_then (some (thrown error, c)) next = some (thrown error, c)
and_then (some (undefined, c)) next = some (undefined, c)
and_then (some (returned value, c)) next = next value c

abbrev pub is_singleton : Binding → Bool
is_singleton b = elim b.lifetime [ singleton ↦ true | transient ↦ false ]

abbrev make_auto_binding : TypeTraits → Binding
make_auto_binding traits = record {
  lifetime = singleton;
  factory = construct_default traits;
  cached = none;
}

abbrev binding_or : Binding → Option Binding → Binding
binding_or binding none = binding
binding_or binding (some found) = found

-- Whether and what the binding at a key caches.
abbrev pub cached_in : Option Binding → Option ℕ
cached_in none = none
cached_in (some binding) = binding.cached

module _ (traits : TypeIndex → TypeTraits) where
  -- The binding that is found, or one that is put in the table.
  unfoldable pub find_or_emplace : ServiceKey → TypeIndex → Container → Binding × Container
  unfolding binding_at set_binding construct_default
  find_or_emplace key type c = elim (binding_at key type c) [
    | none ↦
        (make_auto_binding (traits type), set_binding key type (make_auto_binding (traits type)) c)
    | some binding ↦ (binding, c)
  ]

  -- The end of `resolve_ref_impl`: the reference to what the binding caches.
  abbrev pub reference_of : Option ℕ → Container → Ended ℕ
  reference_of none c = some (undefined, c)
  reference_of (some object) c = some (returned object, c)

  abbrev pub reference_to : ServiceKey → TypeIndex → Container → Ended ℕ
  reference_to key type c = reference_of (cached_in (binding_at key type c)) c

  unfoldable pub resolve_ref_impl : Resolver → Resolver
  unfolding find_or_emplace
  resolve_ref_impl resolve key type c =
      let (binding, c') = find_or_emplace key type c in
      let resolved = and_then (resolve key type c') (λ _. reference_to key type) in
      if is_singleton binding
      then elim binding.cached [ none ↦ resolved | some object ↦ some (returned object, c') ]
      else some (thrown transient_reference, c')

  -- What a program asks for is passed to it, an exception too; what is undefined ends it.
  abbrev pub pass_on :
      Ended ℕ
      → (ℕ → Container → Ended (Option ℕ))
      → (Error → Container → Ended (Option ℕ))
      → Ended (Option ℕ)
  pass_on none next handle = none
  pass_on (some (returned object, c)) next handle = next object c
  pass_on (some (thrown error, c)) next handle = handle error c
  pass_on (some (undefined, c)) next handle = some (undefined, c)

  unfoldable pub run : Resolver → Program → Container → Ended (Option ℕ)
  unfolding has_binding set_binding resolve_ref_impl
  run resolve (give object) c = some (returned object, c)
  run resolve (throw_error error) c = some (thrown error, c)
  run resolve (make_shared next) c =
      run resolve (next c.allocated) (record c { allocated = suc c.allocated })
  run resolve (assign object place value next) c =
      run resolve next (record c { assigned = (object, place, value) ∷ c.assigned })
  run resolve (ask_binding key type next) c = run resolve (next (has_binding key type c)) c
  run resolve (ask_shared key type next handle) c =
      pass_on (resolve key type c) (λ object. run resolve (next object))
        (λ error. run resolve (handle error))
  run resolve (ask_reference key type next handle) c =
      pass_on (resolve_ref_impl resolve key type c) (λ object. run resolve (next object))
        (λ error. run resolve (handle error))
  run resolve (bind key type lifetime cached factory next) c =
      run resolve next (
        set_binding key type (record { lifetime = lifetime; factory = factory; cached = cached }) c)

  -- The guard's destructor, however the scope is left.
  abbrev unguarded : ResolutionKey → Ended ℕ → Ended ℕ
  unguarded resolving_key none = none
  unguarded resolving_key (some (answer, c)) =
      some (answer, record c { resolving = erase resolving_key c.resolving })

  -- `binding.cached = created`, where the binding is a singleton.
  abbrev cache_in : ServiceKey → TypeIndex → ℕ → Option Binding → Container → Container
  cache_in key type object none c = c
  cache_in key type object (some binding) c =
      if is_singleton binding
      then set_binding key type (record binding { cached = some object }) c
      else c

  -- What `resolve_shared_impl` does with the pointer that the factory returned.
  abbrev pub keep_created : ServiceKey → TypeIndex → Option ℕ → Container → Ended ℕ
  keep_created key type none c = some (thrown factory_returned_null, c)
  keep_created key type (some object) c =
      some (returned object, cache_in key type object (binding_at key type c) c)

  -- `ResolutionGuard`, and the factory's call in its scope.
  unfoldable pub resolve_guarded : Resolver → ServiceKey → TypeIndex → Binding → Container → Ended ℕ
  unfolding run
  resolve_guarded resolve key type binding c =
      let resolving_key : ResolutionKey = record { type = type; key = key } in
      let created =
        run resolve binding.factory (record c { resolving = resolving_key ∷ c.resolving }) in
      if contains resolving_key c.resolving
      then some (thrown cyclic_dependency, c)
      else unguarded resolving_key (and_then created (keep_created key type))

  unfoldable pub resolve_binding : Resolver → ServiceKey → TypeIndex → Binding → Container → Ended ℕ
  unfolding resolve_guarded
  resolve_binding resolve key type binding c =
      let resolved = resolve_guarded resolve key type binding c in
      if is_singleton binding
      then elim binding.cached [ none ↦ resolved | some object ↦ some (returned object, c) ]
      else resolved

  unfoldable pub resolve_shared_impl : ℕ → Resolver
  unfolding find_or_emplace resolve_binding
  resolve_shared_impl zero key type c = none
  resolve_shared_impl (suc fuel) key type c =
      let (binding, c') = find_or_emplace key type c in
      resolve_binding (resolve_shared_impl fuel) key type binding c'
