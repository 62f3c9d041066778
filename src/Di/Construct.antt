-- ===== src/Di/Construct.antt =====
-- The factory of a type that nobody registered: `construct_default`, `inject` and `resolve_member`.
-- What rfl and the type traits say of the types is a parameter.
use async_uv.Base.{ℕ, suc, Bool, true, false, ◌||◌, some, List, [], ◌∷◌, if◌then◌else◌}
use async_uv.Base.Bytes.{is_empty}
use async_uv.Di.{
  TypeIndex, ServiceKey, not_default_constructible, cannot_assign_field, Program, give, throw_error,
  make_shared, assign, ask_binding, ask_shared, ask_reference,
}

-- A field that is not const, by the kind of its type, with the type that it holds or points to.
pub data MemberType : Type 0 where
  shared_pointer raw_pointer : TypeIndex → MemberType
  -- A class: whether it is an aggregate, and whether it can be assigned by copying.
  class_value : TypeIndex → Bool → Bool → MemberType
  other_value : MemberType

pub record TypeTraits : Type 0 where
  pub is_default_constructible : Bool
  pub is_injectable_aggregate : Bool
  pub members : List MemberType

-- `resolve_member`: the binding under the key if there is one, and otherwise the default one.
abbrev prefer : ServiceKey → TypeIndex → (ServiceKey → Program) → Program
prefer key type next =
    if is_empty key
    then next []
    else ask_binding key type (λ there. if there then next key else next [])

abbrev resolve_shared_member : ServiceKey → TypeIndex → (ℕ → Program) → Program
resolve_shared_member key type next = prefer key type (λ k. ask_shared k type next throw_error)

abbrev resolve_reference_member : ServiceKey → TypeIndex → (ℕ → Program) → Program
resolve_reference_member key type next =
    prefer key type (λ k. ask_reference k type next throw_error)

abbrev resolve_value_member : Bool → ServiceKey → TypeIndex → (ℕ → Program) → Program
resolve_value_member true key type next = resolve_reference_member key type next
resolve_value_member false key type next = throw_error cannot_assign_field

-- `has_binding_prefer_impl`
abbrev has_binding_prefer : ServiceKey → TypeIndex → (Bool → Program) → Program
has_binding_prefer key type next =
    if is_empty key
    then ask_binding [] type next
    else ask_binding key type (λ there. if there then next true else ask_binding [] type next)

-- A field of an object at its place, and then what follows.
abbrev inject_member : ServiceKey → ℕ → ℕ → MemberType → Program → Program
inject_member key object place (shared_pointer type) rest =
    resolve_shared_member key type (λ x. assign object place x rest)
inject_member key object place (raw_pointer type) rest =
    resolve_reference_member key type (λ x. assign object place x rest)
inject_member key object place (class_value type is_aggregate is_copyable) rest =
    has_binding_prefer key type (λ there.
      if there || is_aggregate
      then resolve_value_member is_copyable key type (λ x. assign object place x rest)
      else rest)
inject_member key object place other_value rest = rest

unfoldable pub inject_members : ServiceKey → ℕ → ℕ → List MemberType → Program → Program
inject_members key object place [] rest = rest
inject_members key object place (member ∷ members) rest =
    inject_member key object place member (inject_members key object (suc place) members rest)

unfoldable pub inject : TypeTraits → ServiceKey → ℕ → Program → Program
unfolding inject_members
inject traits key object rest =
    if traits.is_injectable_aggregate then inject_members key object 0 traits.members rest else rest

unfoldable pub construct_default : TypeTraits → Program
unfolding inject
construct_default traits =
    if traits.is_default_constructible
    then make_shared (λ object. inject traits [] object (give (some object)))
    else throw_error not_default_constructible
