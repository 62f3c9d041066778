-- ===== src/Base/Splitting.antt =====
-- Texts cut at a byte that their parts do not have.
use Prim.Native.Nat.{ℕ}
use mathlib.Core.Path.{◌≡◌, refl}
use mathlib.Core.Logic.{◌≢◌}
use mathlib.Core.List.{[], ◌∷◌, ◌++◌}
use mathlib.Core.Option.{none, some}
use native.Mathlib.Omega.{arith}
use async_uv.Base.Lists.{All}
use async_uv.Base.Bytes.{Bytes, cut_at, split_on}

pub cut_at-append :
    (sep : ℕ) (a b : Bytes) → All (λ c. c ≢ sep) a → cut_at sep (a ++ sep ∷ b) ≡ (a, some b)
unfolding cut_at
cut_at-append sep [] b h = ground arith
cut_at-append sep (c ∷ a) b h = rw (cut_at-append sep a b h.1) (ground (arith, h.0))

pub cut_at-whole : (sep : ℕ) (a : Bytes) → All (λ c. c ≢ sep) a → cut_at sep a ≡ (a, none)
unfolding cut_at
cut_at-whole sep [] h = refl
cut_at-whole sep (c ∷ a) h = rw (cut_at-whole sep a h.1) (ground (arith, h.0))

pub split_on-whole : (sep : ℕ) (a : Bytes) → All (λ c. c ≢ sep) a → split_on sep a ≡ a ∷ []
unfolding split_on
split_on-whole sep [] h = refl
split_on-whole sep (c ∷ a) h = rw (split_on-whole sep a h.1) (ground (arith, h.0))

pub split_on-append :
    (sep : ℕ) (a b : Bytes)
    → All (λ c. c ≢ sep) a
    → split_on sep (a ++ sep ∷ b) ≡ a ∷ split_on sep b
unfolding split_on
split_on-append sep [] b h = ground arith
split_on-append sep (c ∷ a) b h = rw (split_on-append sep a b h.1) (ground (arith, h.0))
