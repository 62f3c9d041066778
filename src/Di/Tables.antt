-- ===== src/Di/Tables.antt =====
-- What is at a key and a type after a binding is registered.
use async_uv.Base.{
  ◌≡◌, refl, ap, ◌∙◌, inl, inr, Bool, true, false, ◌&&◌, Option, some, [], ◌∷◌, arith, ◌==◌,
  if◌then◌else◌, Bool-cases, nat_eq,
}
use async_uv.Base.Bytes.{bytes_eq, bytes_beq, bytes_beq_iff}
use async_uv.Base.Dict.{lookup, insert, lookup-insert}
use async_uv.Di.{
  TypeIndex, ServiceKey, Binding, BindingTable, same_resolution, Container, table_or_empty,
  table_for_key, set_table, binding_at, set_binding,
}

table_or_empty-if :
    (b : Bool) (t : BindingTable) (o : Option BindingTable)
    → table_or_empty (if b then some t else o) ≡ (if b then t else table_or_empty o)
table_or_empty-if true t o = refl
table_or_empty-if false t o = refl

table_for_key-set_table :
    (key other : ServiceKey) (t : BindingTable) (c : Container)
    → table_for_key other (set_table key t c)
      ≡ (if bytes_beq key other then t else table_for_key other c)
unfolding table_for_key set_table bytes_beq
table_for_key-set_table [] [] t c = refl
table_for_key-set_table [] (b ∷ other) t c = refl
table_for_key-set_table (a ∷ key) [] t c = refl
table_for_key-set_table (a ∷ key) (b ∷ other) t c =
    ap table_or_empty (lookup-insert (a ∷ key) (b ∷ other) t c.keyed_bindings)
    ∙ table_or_empty-if (bytes_beq (a ∷ key) (b ∷ other)) t (lookup (b ∷ other) c.keyed_bindings)

lookup-if :
    (same : Bool) (type type' : TypeIndex) (binding : Binding) (t t' : BindingTable)
    → (same ≡ true → t ≡ t')
    → lookup type' (if same then insert type binding t else t')
      ≡ (if type == type' && same then some binding else lookup type' t')
lookup-if false type type' binding t t' h = ground arith
lookup-if true type type' binding t t' h =
    lookup-insert type type' binding t ∙ elim (Bool-cases (type == type')) [
      | inl e ↦ rw e refl
      | inr e ↦ rw e (ap (lookup type') (h refl))
    ]

pub binding_at-set_binding :
    (key other : ServiceKey) (type type' : TypeIndex) (binding : Binding) (c : Container)
    → binding_at other type' (set_binding key type binding c) ≡ (
        if same_resolution
          (record { type = type; key = key })
          (record { type = type'; key = other })
        then some binding
        else binding_at other type' c)
unfolding binding_at set_binding
binding_at-set_binding key other type type' binding c =
    ap (lookup type')
      (table_for_key-set_table key other (insert type binding (table_for_key key c)) c)
    ∙ lookup-if (bytes_beq key other) type type' binding (table_for_key key c)
        (table_for_key other c)
        (λ same. ap (λ k. table_for_key k c) ((bytes_beq_iff key other).0 same))
