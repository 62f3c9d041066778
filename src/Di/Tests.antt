-- ===== src/Di/Tests.antt =====
-- Runs of the container, and the theorems at them.
use async_uv.Base.{
  ℕ, ◌≡◌, refl, inl, inr, true, Option, none, some, List, [], ◌∷◌, arith, ◌==◌, if◌then◌else◌,
  Bool-cases, nat_eq,
}
use async_uv.Base.Bytes.{lit, bytes_beq, bytes_eq}
use async_uv.Base.Dict.{lookup, insert}
use async_uv.Di.{
  TypeIndex, singleton, transient, instance_is_null, cyclic_dependency, Answer, returned, thrown,
  undefined, Program, give, throw_error, bind, ask_shared, Binding, ResolutionKey, Container,
  new_container, table_for_key, set_table, binding_at, set_binding, has_binding, register_instance,
  register_singleton, register_transient,
}
use async_uv.Di.Construct.{TypeTraits, shared_pointer, inject_members, inject, construct_default}
use async_uv.Di.Resolution.{
  find_or_emplace, resolve_ref_impl, run, resolve_guarded, resolve_binding, resolve_shared_impl,
}
use async_uv.Di.Resolution.Programs.{Within, Sealed}
use async_uv.Di.Resolution.Guard.{resolve_shared_restores}
use async_uv.Di.Resolution.Ends.{Asks, Any, resolve_shared_ends}
use async_uv.Di.Resolution.Singletons.{Any as AnyKey, Others, stays, resolves, singleton_lasts}

running : Unit {0}
unfolding bytes_beq lookup insert table_for_key set_table binding_at set_binding has_binding
    register_instance register_singleton register_transient inject_members inject construct_default
    find_or_emplace resolve_ref_impl run resolve_guarded resolve_binding resolve_shared_impl
running = tt

-- A type with one field, a std::shared_ptr to the type 8; the others have none.
abbrev traits : TypeIndex → TypeTraits
traits type = record {
  is_default_constructible = true;
  is_injectable_aggregate = true;
  members = if type == 7 then shared_pointer 8 ∷ [] else [];
}

-- Gives what it asks for.
abbrev pass_result : TypeIndex → Program
pass_result type = ask_shared [] type (λ object. give (some object)) throw_error

-- The factories of the types 1 and 2 ask for each other.
abbrev cyclic : Container
cyclic = record new_container {
  bindings =
      (1, record { lifetime = singleton; factory = pass_result 2; cached = none })
      ∷ (2, record { lifetime = singleton; factory = pass_result 1; cached = none })
      ∷ [];
}

registers :
    register_singleton [] 2 (pass_result 1) (register_singleton [] 1 (pass_result 2) new_container)
    ≡ cyclic
unfolding running
registers = refl

refuses_null :
    register_instance (lit "k") 1 none new_container ≡ (new_container, thrown instance_is_null)
unfolding running
refuses_null = refl

finds_cycle : resolve_shared_impl traits 4 [] 1 cyclic ≡ some (thrown cyclic_dependency, cyclic)
unfolding running
finds_cycle = refl

resolve_shared_restores_example : cyclic.resolving ≡ cyclic.resolving
resolve_shared_restores_example =
    resolve_shared_restores traits 4 [] 1 cyclic cyclic (thrown cyclic_dependency) finds_cycle

abbrev universe : List ResolutionKey
universe =
    record { type = 1; key = [] }
    ∷ record { type = 2; key = [] }
    ∷ record { type = 8; key = [] }
    ∷ []

constructs-Within :
    (type : TypeIndex)
    → Within (Asks traits universe) (Any traits universe) (construct_default (traits type))
unfolding running
constructs-Within type = elim (Bool-cases (type == 7)) [
  | inl e ↦ rw e (λ object. (refl, ((λ x. tt), λ e. tt)))
  | inr e ↦ rw e (λ object. tt)
]

cyclic-Sealed : Sealed (Asks traits universe) (Any traits universe) cyclic
unfolding running
cyclic-Sealed = (((refl, ((λ x. tt), λ e. tt)), ((refl, ((λ x. tt), λ e. tt)), tt)), tt)

one-Asks : Asks traits universe [] 1
unfolding running
one-Asks = refl

resolve_shared_ends_example :
    (answer : Answer ℕ) × ((c' : Container) × (resolve_shared_impl traits 4 [] 1 cyclic
        ≡ some (answer, c')))
resolve_shared_ends_example =
    resolve_shared_ends traits universe constructs-Within 4 [] 1 cyclic (omega arith) one-Asks
      cyclic-Sealed

-- Of the type 8 there is a singleton, which the object of the type 7 shares.
abbrev auto : TypeIndex → Option ℕ → Binding
auto type cached = record {
  lifetime = singleton;
  factory = construct_default (traits type);
  cached = cached;
}

abbrev made : Container
made = record new_container {
  bindings = (7, auto 7 (some 0)) ∷ (8, auto 8 (some 1)) ∷ [];
  allocated = 2;
  assigned = (0, 0, 1) ∷ [];
}

makes : resolve_shared_impl traits 2 [] 7 new_container ≡ some (returned 0, made)
unfolding running
makes = refl

-- The factory of the type 1 registers its own type again, as a transient one, and the object that
-- was made is not cached: the reference to it is that to a null pointer.
abbrev rebinding : Program
rebinding = bind [] 1 transient none (give (some 0)) (give (some 3))

comes_to_null :
    resolve_ref_impl traits
      (resolve_shared_impl traits 3)
      []
      1
      (register_singleton [] 1 rebinding new_container)
    ≡ some (undefined, register_transient [] 1 (give (some 0)) new_container)
unfolding running
comes_to_null = refl

abbrev later : Container
later = record made { keyed_bindings = (lit "k", (8, auto 8 (some 2)) ∷ []) ∷ []; allocated = 3 }

makes_another : resolve_shared_impl traits 1 (lit "k") 8 made ≡ some (returned 2, later)
unfolding running
makes_another = refl

made_at_7 : binding_at [] 7 made ≡ some (auto 7 (some 0))
unfolding running
made_at_7 = refl

construct_default-Within :
    (type : TypeIndex)
    → Within (AnyKey traits [] 7 0) (Others traits [] 7 0) (construct_default (traits type))
unfolding running
construct_default-Within type = elim (Bool-cases (type == 7)) [
  | inl e ↦ rw e (λ object. (tt, ((λ x. tt), λ e. tt)))
  | inr e ↦ rw e (λ object. tt)
]

singleton_lasts_example : resolve_shared_impl traits 1 [] 7 later ≡ some (returned 0, later)
singleton_lasts_example =
    singleton_lasts traits [] 7 0 construct_default-Within 2 0 new_container made later
      (auto 7 (some 0)) makes made_at_7 refl
      ((construct_default-Within 7, (construct_default-Within 8, tt)), tt)
      (resolves 1 (lit "k") 8 (returned 2) later makes_another stays)
