-- ===== src/Base/Search.antt =====
-- Looking for a text in another, and leaving out what stands at its ends.
use Prim.Native.Nat.{ℕ, ◌+◌, ◌≤◌}
use mathlib.Core.Path.{◌≡◌, ap}
use mathlib.Core.Logic.{inl, inr}
use mathlib.Core.Bool.{Bool}
use mathlib.Core.List.{[], ◌∷◌, reverse}
use mathlib.Core.Option.{Option, none, some}
use native.Mathlib.Omega.{arith}
use async_uv.Base.Tests.{if◌then◌else◌, Bool-cases, Option-cases}
use async_uv.Base.Lists.{length}
use async_uv.Base.Bytes.{Bytes, strip_prefix, is_empty}

unfoldable pub drop_while : (ℕ → Bool) → Bytes → Bytes
drop_while p [] = []
drop_while p (c ∷ s) = let rest = drop_while p s in if p c then rest else c ∷ s

unfoldable pub drop_while_back : (ℕ → Bool) → Bytes → Bytes
unfolding drop_while
drop_while_back p s = reverse (drop_while p (reverse s))

-- `text.find(pattern)`: what stands before the first occurrence, and what stands behind it.
unfoldable pub find_text : Bytes → Bytes → Option (Bytes × Bytes)
unfolding strip_prefix
find_text pattern [] = if is_empty pattern then some ([], []) else none
find_text pattern (c ∷ s) =
    let later : Option (Bytes × Bytes) = elim (find_text pattern s) [
      | none ↦ none
      | some (before, after) ↦ some (c ∷ before, after)
    ] in
    elim (strip_prefix pattern (c ∷ s)) [ some rest ↦ some ([], rest) | none ↦ later ]

pub length-strip_prefix :
    (p s rest : Bytes) → strip_prefix p s ≡ some rest → length p + length rest ≡ length s
unfolding strip_prefix
length-strip_prefix [] s rest e = ground (arith, e)
length-strip_prefix (x ∷ p) [] rest e = cc
length-strip_prefix (x ∷ p) (b ∷ s) rest e = ground (arith, length-strip_prefix p s rest)

pub length-find_text :
    (p s before after : Bytes)
    → find_text p s ≡ some (before, after)
    → length before + length p + length after ≡ length s
unfolding find_text
length-find_text [] [] before after e = ground (arith, e)
length-find_text (x ∷ p) [] before after e = cc
length-find_text p (c ∷ s) before after e = elim (Option-cases (strip_prefix p (c ∷ s))) [
  | inr (rest, fits) ↦
      let e' : some ([], rest) ≡ some (before, after) = rw (find_text, fits) at e in
      let a : [] ≡ before = cc e' in
      let b : rest ≡ after = cc e' in
      ground (arith, length-strip_prefix p (c ∷ s) rest fits, ap length a, ap length b)
  | inl no_fit ↦ elim (Option-cases (find_text p s)) [
    | inl lost ↦ cc (rw (find_text, no_fit, lost) at e)
    | inr ((before', after'), found) ↦
        let e' : some (c ∷ before', after') ≡ some (before, after) =
          rw (find_text, no_fit, found) at e in
        let a : c ∷ before' ≡ before = cc e' in
        let b : after' ≡ after = cc e' in
        ground (arith, length-find_text p s before' after' found, ap length a, ap length b)
  ]
]

pub length-drop_while : (p : ℕ → Bool) (s : Bytes) → length (drop_while p s) ≤ length s
unfolding drop_while
length-drop_while p [] = omega arith
length-drop_while p (c ∷ s) = elim (Bool-cases (p c)) [
  | inl go ↦ rw go (omega (arith, length-drop_while p s))
  | inr stay ↦ rw stay (omega arith)
]
