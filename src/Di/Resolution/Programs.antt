-- ===== src/Di/Resolution/Programs.antt =====
-- What a run of a factory keeps of the container, if what the factory asks for keeps it.
use async_uv.Base.{
  ℕ, suc, ◌≡◌, refl, inl, inr, nat_eq, Bool, Option, none, some, ◌∷◌, All, Bool-cases, Option-cases,
}
use async_uv.Base.Bytes.{is_empty, bytes_eq}
use async_uv.Base.Dict.{lookup, insert, insert-All, lookup-All}
use async_uv.Di.{
  TypeIndex, ServiceKey, Error, returned, thrown, undefined, Program, give, throw_error,
  make_shared, assign, ask_binding, ask_shared, ask_reference, bind, Binding, BindingTable,
  Container, table_or_empty, table_for_key, set_table, binding_at, set_binding, has_binding,
}
use async_uv.Di.Construct.{TypeTraits}
use async_uv.Di.Resolution.{
  Ended, Resolver, and_then, is_singleton, cached_in, find_or_emplace, reference_of, reference_to,
  resolve_ref_impl, pass_on, run,
}

-- A predicate on the container that a call leaves; `B` if the fuel does not last.
abbrev pub After : {A : Type 0} → Type 0 → (Container → Type 0) → Ended A → Type 0
After B P none = B
After B P (some (answer, c)) = P c

module _ (Asks Binds : ServiceKey → TypeIndex → Type 0) where
  -- The bindings that a program may ask for and those that it may register.
  abbrev pub Within : Program → Type 0
  Within (give object) = Unit
  Within (throw_error error) = Unit
  Within (make_shared next) = (object : ℕ) → Within (next object)
  Within (assign object place value next) = Within next
  Within (ask_binding key type next) = (there : Bool) → Within (next there)
  Within (ask_shared key type next handle) =
      Asks key type × (((object : ℕ) → Within (next object)) × ((e : Error) → Within (handle e)))
  Within (ask_reference key type next handle) =
      Asks key type × (((object : ℕ) → Within (next object)) × ((e : Error) → Within (handle e)))
  Within (bind key type lifetime cached factory next) =
      Binds key type × (Within factory × Within next)

  abbrev pub TableWithin : BindingTable → Type 0
  TableWithin table = All (λ e. Within e.1.factory) table

  -- Every factory that is registered is such a program.
  abbrev pub Sealed : Container → Type 0
  Sealed c = TableWithin c.bindings × All (λ e. TableWithin e.1) c.keyed_bindings

  table_or_empty-TableWithin :
      (table : Option BindingTable)
      → ((t : BindingTable) → table ≡ some t → TableWithin t)
      → TableWithin (table_or_empty table)
  table_or_empty-TableWithin none h = tt
  table_or_empty-TableWithin (some t) h = h t refl

  table_for_key-TableWithin :
      (key : ServiceKey) (c : Container) → Sealed c → TableWithin (table_for_key key c)
  unfolding table_for_key
  table_for_key-TableWithin key c (h, hs) = elim (Bool-cases (is_empty key)) [
    | inl default ↦ rw default h
    | inr keyed ↦ rw keyed (
        table_or_empty-TableWithin (lookup key c.keyed_bindings)
          (λ t there. lookup-All TableWithin key c.keyed_bindings hs there))
  ]

  set_table-Sealed :
      (key : ServiceKey) (table : BindingTable) (c : Container)
      → TableWithin table
      → Sealed c
      → Sealed (set_table key table c)
  unfolding set_table
  set_table-Sealed key table c t (h, hs) = elim (Bool-cases (is_empty key)) [
    | inl default ↦ rw default (t, hs)
    | inr keyed ↦ rw keyed (h, insert-All TableWithin key table c.keyed_bindings t hs)
  ]

  pub set_binding-Sealed :
      (key : ServiceKey) (type : TypeIndex) (binding : Binding) (c : Container)
      → Within binding.factory
      → Sealed c
      → Sealed (set_binding key type binding c)
  unfolding set_binding
  set_binding-Sealed key type binding c w h =
      set_table-Sealed key (insert type binding (table_for_key key c)) c
        (insert-All (λ b. Within b.factory) type binding (table_for_key key c) w
          (table_for_key-TableWithin key c h))
        h

  pub binding_at-Within :
      (key : ServiceKey) (type : TypeIndex) (binding : Binding) (c : Container)
      → Sealed c
      → binding_at key type c ≡ some binding
      → Within binding.factory
  unfolding binding_at
  binding_at-Within key type binding c h there =
      lookup-All (λ b. Within b.factory) type (table_for_key key c)
        (table_for_key-TableWithin key c h) there

-- What holds of a container however it is changed by a program.
pub record IsKept (traits : TypeIndex → TypeTraits) (Asks Binds : ServiceKey → TypeIndex → Type 0)
    (Inv : Container → Type 0) : Type 0 where
  pub allocates : (c : Container) → Inv c → Inv (record c { allocated = suc c.allocated })
  pub assigns :
      (c : Container) (a : ℕ × ℕ × ℕ) → Inv c → Inv (record c { assigned = a ∷ c.assigned })
  pub binds :
      (key : ServiceKey) (type : TypeIndex) (binding : Binding) (c : Container)
      → Binds key type
      → Within Asks Binds binding.factory
      → Inv c
      → Inv (set_binding key type binding c)
  pub emplaces :
      (key : ServiceKey) (type : TypeIndex) (c : Container)
      → Inv c
      → Inv (find_or_emplace traits key type c).1

module _ (traits : TypeIndex → TypeTraits) (Asks Binds : ServiceKey → TypeIndex → Type 0)
    (Inv : Container → Type 0) (B : Type 0) (kept : IsKept traits Asks Binds Inv)
    (resolve : Resolver)
    (resolves : (key : ServiceKey) (type : TypeIndex) (c : Container)
      → Asks key type
      → Inv c
      → After B Inv (resolve key type c)) where
  reference_of-After :
      (object : Option ℕ) (c : Container) → Inv c → After B Inv (reference_of traits object c)
  reference_of-After none c h = h
  reference_of-After (some object) c h = h

  reference_to-After :
      (key : ServiceKey) (type : TypeIndex) (e : Ended ℕ)
      → After B Inv e
      → After B Inv (and_then e (λ _. reference_to traits key type))
  reference_to-After key type none h = h
  reference_to-After key type (some (thrown error, c)) h = h
  reference_to-After key type (some (undefined, c)) h = h
  reference_to-After key type (some (returned object, c)) h =
      reference_of-After (cached_in (binding_at key type c)) c h

  pub resolve_ref-After :
      (key : ServiceKey) (type : TypeIndex) (c : Container)
      → Asks key type
      → Inv c
      → After B Inv (resolve_ref_impl traits resolve key type c)
  unfolding resolve_ref_impl
  resolve_ref-After key type c asked h =
      let (binding, c') = find_or_emplace traits key type c in
      let h' = kept.emplaces key type c h in
      let resolved =
        reference_to-After key type (resolve key type c') (resolves key type c' asked h') in
      elim (Bool-cases (is_singleton binding)) [
        | inr transient ↦ rw transient h'
        | inl single ↦ elim (Option-cases binding.cached) [
          | inl empty ↦ rw (single, empty) resolved
          | inr (x, there) ↦ rw (single, there) h'
        ]
      ]

  pass_on-After :
      (e : Ended ℕ) (next : ℕ → Container → Ended (Option ℕ))
      (handle : Error → Container → Ended (Option ℕ))
      → After B Inv e
      → ((object : ℕ) (c : Container) → Inv c → After B Inv (next object c))
      → ((error : Error) (c : Container) → Inv c → After B Inv (handle error c))
      → After B Inv (pass_on traits e next handle)
  pass_on-After none next handle h ih ih' = h
  pass_on-After (some (returned object, c)) next handle h ih ih' = ih object c h
  pass_on-After (some (thrown error, c)) next handle h ih ih' = ih' error c h
  pass_on-After (some (undefined, c)) next handle h ih ih' = h

  pub run-After :
      (program : Program) (c : Container)
      → Within Asks Binds program
      → Inv c
      → After B Inv (run traits resolve program c)
  unfolding run
  run-After (give object) c w h = h
  run-After (throw_error error) c w h = h
  run-After (make_shared next) c w h =
      run-After (next c.allocated) (record c { allocated = suc c.allocated }) (w c.allocated)
        (kept.allocates c h)
  run-After (assign object place value next) c w h =
      run-After next (record c { assigned = (object, place, value) ∷ c.assigned }) w
        (kept.assigns c (object, place, value) h)
  run-After (ask_binding key type next) c w h =
      run-After (next (has_binding key type c)) c (w (has_binding key type c)) h
  run-After (ask_shared key type next handle) c (asked, (w, w')) h =
      pass_on-After (resolve key type c) (λ object. run traits resolve (next object))
        (λ error. run traits resolve (handle error)) (resolves key type c asked h)
        (λ object c'. run-After (next object) c' (w object))
        (λ error c'. run-After (handle error) c' (w' error))
  run-After (ask_reference key type next handle) c (asked, (w, w')) h =
      pass_on-After (resolve_ref_impl traits resolve key type c)
        (λ object. run traits resolve (next object)) (λ error. run traits resolve (handle error))
        (resolve_ref-After key type c asked h) (λ object c'. run-After (next object) c' (w object))
        (λ error c'. run-After (handle error) c' (w' error))
  run-After (bind key type lifetime cached factory next) c (bound, (w, ws)) h =
      let binding : Binding = record { lifetime = lifetime; factory = factory; cached = cached } in
      run-After next (set_binding key type binding c) ws (kept.binds key type binding c bound w h)
