-- ===== src/Di.antt =====
-- layer3/include/async_uv_layer3/di.hpp: Container, the tables of bindings. A type is its
-- std::type_index. An object is a number, the order of its allocation.
pub mod Construct
pub mod Tables
pub mod Resolution
mod Tests
use async_uv.Base.{
  ℕ, ◌≡◌, Bool, true, false, ◌&&◌, ◌↔◌, Option, none, some, List, [], ◌∷◌, arith, ◌==◌, ==_iff,
  if◌then◌else◌, Eq, ◌=?◌, nat_eq,
}
use async_uv.Base.Bytes.{Bytes, bytes_eq, bytes_beq, bytes_beq_iff, is_empty}
use async_uv.Base.Dict.{lookup, insert}

abbrev pub TypeIndex : Type 0
TypeIndex = ℕ

abbrev pub ServiceKey : Type 0
ServiceKey = Bytes

pub data Lifetime : Type 0 where
  singleton transient : Lifetime

-- What is thrown: the container's errors by their texts, and the factories' own exceptions.
pub data Error : Type 0 where
  instance_is_null cyclic_dependency factory_returned_null transient_reference : Error
  not_default_constructible cannot_assign_field should_not_be_called : Error
  own : ℕ → Error

pub data Answer (A : Type 0) : Type 0 where
  returned : A → Answer A
  thrown : Error → Answer A
  -- A null pointer was dereferenced, and what follows is not defined: no program handles it.
  undefined : Answer A

-- What a factory does to the container and to the objects until it returns a pointer, null perhaps,
-- or throws. It sees what it asked for, an exception too, which it may handle.
pub data Program : Type 0 where
  give : Option ℕ → Program
  throw_error : Error → Program
  make_shared : (ℕ → Program) → Program
  -- A field, by its place, of an object is set to an object.
  assign : ℕ → ℕ → ℕ → Program → Program
  ask_binding : ServiceKey → TypeIndex → (Bool → Program) → Program
  -- How it goes on with an object, and how with an exception.
  ask_shared ask_reference : ServiceKey → TypeIndex → (ℕ → Program) → (Error → Program) → Program
  -- A binding is registered: its lifetime, what it caches, and its factory.
  bind : ServiceKey → TypeIndex → Lifetime → Option ℕ → Program → Program → Program

pub record Binding : Type 0 where
  pub lifetime : Lifetime
  pub factory : Program
  pub cached : Option ℕ

abbrev pub BindingTable : Type 0
BindingTable = List (TypeIndex × Binding)

pub record ResolutionKey : Type 0 where
  pub type : TypeIndex
  pub key : ServiceKey

abbrev pub same_resolution : ResolutionKey → ResolutionKey → Bool
same_resolution a b = a.type == b.type && bytes_beq a.key b.key

pub same_resolution_iff : (a b : ResolutionKey) → (same_resolution a b ≡ true) ↔ (a ≡ b)
same_resolution_iff a b = ground (arith, ==_iff a.type b.type, bytes_beq_iff a.key b.key)

instance abbrev pub resolution_key_eq : Eq ResolutionKey
resolution_key_eq = record { beq = same_resolution; beq_iff = same_resolution_iff }

-- A set of keys as a list: `contains` and `erase`.
abbrev pub contains : ResolutionKey → List ResolutionKey → Bool
contains k [] = false
contains k (j ∷ set) = if j =? k then true else contains k set

abbrev pub erase : ResolutionKey → List ResolutionKey → List ResolutionKey
erase k [] = []
erase k (j ∷ set) = if j =? k then erase k set else j ∷ erase k set

-- The container, and what its factories have made: how many objects, and which fields were set.
pub record Container : Type 0 where
  pub bindings : BindingTable
  pub keyed_bindings : List (ServiceKey × BindingTable)
  pub resolving : List ResolutionKey
  pub allocated : ℕ
  pub assigned : List (ℕ × ℕ × ℕ)

abbrev pub new_container : Container
new_container = record {
  bindings = [];
  keyed_bindings = [];
  resolving = [];
  allocated = 0;
  assigned = [];
}

abbrev pub table_or_empty : Option BindingTable → BindingTable
table_or_empty none = []
table_or_empty (some table) = table

-- `table_for_key` and `find_table_for_key`: a table that is missing has no binding.
unfoldable pub table_for_key : ServiceKey → Container → BindingTable
unfolding lookup
table_for_key key c =
    if is_empty key then c.bindings else table_or_empty (lookup key c.keyed_bindings)

unfoldable pub set_table : ServiceKey → BindingTable → Container → Container
unfolding insert
set_table key table c =
    if is_empty key
    then record c { bindings = table }
    else record c { keyed_bindings = insert key table c.keyed_bindings }

unfoldable pub binding_at : ServiceKey → TypeIndex → Container → Option Binding
unfolding table_for_key
binding_at key type c = lookup type (table_for_key key c)

-- `table[type] = binding`
unfoldable pub set_binding : ServiceKey → TypeIndex → Binding → Container → Container
unfolding set_table table_for_key
set_binding key type binding c = set_table key (insert type binding (table_for_key key c)) c

unfoldable pub has_binding : ServiceKey → TypeIndex → Container → Bool
unfolding binding_at
has_binding key type c = elim (binding_at key type c) [ none ↦ false | some _ ↦ true ]

abbrev registered : Lifetime → Option ℕ → Program → Binding
registered lifetime cached factory = record {
  lifetime = lifetime;
  factory = factory;
  cached = cached;
}

-- `singleton` with an instance
unfoldable pub register_instance :
    ServiceKey → TypeIndex → Option ℕ → Container → Container × Answer (Unit {0})
unfolding set_binding
register_instance key type none c = (c, thrown instance_is_null)
register_instance key type (some object) c = (
  set_binding key type (registered singleton (some object) (throw_error should_not_be_called)) c,
  returned tt,
)

-- `singleton` with a factory
unfoldable pub register_singleton : ServiceKey → TypeIndex → Program → Container → Container
unfolding set_binding
register_singleton key type factory = set_binding key type (registered singleton none factory)

unfoldable pub register_transient : ServiceKey → TypeIndex → Program → Container → Container
unfolding set_binding
register_transient key type factory = set_binding key type (registered transient none factory)
