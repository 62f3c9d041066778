-- ===== src/Base/Bytes.antt =====
-- Byte strings: std::string and std::string_view as lists of byte values.
use Prim.Native.Char.{code}
use Prim.Native.String.{String}
use Prim.Native.Nat.{ℕ, ◌+◌, ◌-◌}
use mathlib.Core.Path.{◌≡◌}
use mathlib.Core.Logic.{◌↔◌}
use mathlib.Core.Bool.{Bool, true, false, ◌&&◌}
use mathlib.Core.List.{List, [], ◌∷◌}
use mathlib.Core.Option.{Option, none, some}
use native.Mathlib.Omega.{arith}
use async_uv.Base.Tests.{leb, ◌==◌, if◌then◌else◌}
use async_uv.Base.Keys.{Eq}

abbrev pub Bytes : Type 0
Bytes = List ℕ

-- The bytes of an ASCII literal.
abbrev pub lit : String → Bytes
lit String.[] = []
lit (String.◌∷◌ c s) = code c ∷ lit s

unfoldable pub bytes_beq : Bytes → Bytes → Bool
bytes_beq [] [] = true
bytes_beq [] (_ ∷ _) = false
bytes_beq (_ ∷ _) [] = false
bytes_beq (a ∷ s) (b ∷ t) = a == b && bytes_beq s t

pub bytes_beq_iff : (s t : Bytes) → (bytes_beq s t ≡ true) ↔ (s ≡ t)
unfolding bytes_beq
bytes_beq_iff [] [] = ground arith
bytes_beq_iff [] (_ ∷ _) = ground arith
bytes_beq_iff (_ ∷ _) [] = ground arith
bytes_beq_iff (a ∷ s) (b ∷ t) = ground (arith, bytes_beq_iff s t)

instance abbrev pub bytes_eq : Eq Bytes
bytes_eq = record { beq = bytes_beq; beq_iff = bytes_beq_iff }

-- `text.find(c)`: the part before the first `c`, and the part behind it if there is one.
unfoldable pub cut_at : ℕ → Bytes → Bytes × Option Bytes
cut_at c [] = ([], none)
cut_at c (b ∷ s) =
    let (before, after) = cut_at c s in if b == c then ([], some s) else (b ∷ before, after)

abbrev push_front : ℕ → List Bytes → List Bytes
push_front b [] = (b ∷ []) ∷ []
push_front b (piece ∷ pieces) = (b ∷ piece) ∷ pieces

-- The pieces between the occurrences of a byte.
unfoldable pub split_on : ℕ → Bytes → List Bytes
split_on c [] = [] ∷ []
split_on c (b ∷ s) = let rest = split_on c s in if b == c then [] ∷ rest else push_front b rest

-- `text.starts_with(prefix)`, and what follows the prefix.
unfoldable pub strip_prefix : Bytes → Bytes → Option Bytes
strip_prefix [] s = some s
strip_prefix (p ∷ ps) [] = none
strip_prefix (p ∷ ps) (b ∷ s) = if p == b then strip_prefix ps s else none

abbrev pub is_empty : Bytes → Bool
is_empty [] = true
is_empty (_ ∷ _) = false

-- `text.back()`, if there is one.
unfoldable pub last_byte : Bytes → Option ℕ
last_byte [] = none
last_byte (b ∷ []) = some b
last_byte (b ∷ c ∷ s) = last_byte (c ∷ s)

-- The text without its last byte.
unfoldable pub drop_last : Bytes → Bytes
drop_last [] = []
drop_last (b ∷ []) = []
drop_last (b ∷ c ∷ s) = b ∷ drop_last (c ∷ s)

-- std::toupper and std::tolower in the "C" locale.
abbrev pub to_upper_byte : ℕ → ℕ
to_upper_byte c = if leb b'a' c && leb c b'z' then c - 32 else c

abbrev pub to_lower_byte : ℕ → ℕ
to_lower_byte c = if leb b'A' c && leb c b'Z' then c + 32 else c
