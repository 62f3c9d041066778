-- ===== src/Middleware/Context/Reply.antt =====
-- Setting response headers.
use async_uv.Base.{◌≡◌, refl, inl, inr, true, false, some, List, [], ◌∷◌, arith, Bool-cases}
use async_uv.Base.Bytes.{Bytes}
use async_uv.Http.Server.{Header}
use async_uv.Middleware.Context.{Context, iequals_ascii, header_in, set_in, set}

pub iequals_refl : (a : Bytes) → iequals_ascii a a ≡ true
unfolding iequals_ascii
iequals_refl [] = refl
iequals_refl (x ∷ a) = ground (arith, iequals_refl a)

iequals_join :
    (a b c : Bytes) → iequals_ascii a b ≡ true → iequals_ascii a c ≡ true → iequals_ascii b c ≡ true
unfolding iequals_ascii
iequals_join [] [] c e f = f
iequals_join [] (_ ∷ _) c e f = cc e
iequals_join (_ ∷ _) [] c e f = cc e
iequals_join (x ∷ a) (y ∷ b) [] e f = cc f
iequals_join (x ∷ a) (y ∷ b) (z ∷ c) e f = ground (arith, iequals_join a b c, e, f)

header-set_in_self :
    (name value : Bytes) (headers : List Header)
    → header_in name (set_in name value headers) ≡ some value
unfolding header_in set_in
header-set_in_self name value [] = rw (iequals_refl name) refl
header-set_in_self name value (h ∷ headers) = elim (Bool-cases (iequals_ascii h.name name)) [
  | inl same ↦ simp same
  | inr other ↦ simp (other, header-set_in_self name value headers)
]

header-set_in_other :
    (name other value : Bytes) (headers : List Header)
    → iequals_ascii name other ≡ false
    → header_in other (set_in name value headers) ≡ header_in other headers
unfolding header_in set_in
header-set_in_other name other value [] e = rw e refl
header-set_in_other name other value (h ∷ headers) e =
    elim (Bool-cases (iequals_ascii h.name name)) [
      | inr differ ↦ simp (differ, header-set_in_other name other value headers e)
      | inl same ↦ elim (Bool-cases (iequals_ascii h.name other)) [
        | inl both ↦ cc (iequals_join h.name name other same both, e)
        | inr apart ↦ simp (same, apart)
      ]
    ]

-- After `set`, the response's header of the name, whatever its case, is the value, and a header of
-- any other name is what it was.
pub header-set :
    (name value : Bytes) (ctx : Context)
    → (header_in name (set name value ctx).response.headers ≡ some value)
      × ((other : Bytes)
          → iequals_ascii name other ≡ false
          → header_in other (set name value ctx).response.headers
            ≡ header_in other ctx.response.headers)
unfolding set
header-set name value ctx = (
  header-set_in_self name value ctx.response.headers,
  λ other e. header-set_in_other name other value ctx.response.headers e,
)
