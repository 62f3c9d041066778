-- ===== src/Base/Digits.antt =====
-- Numbers as text: std::to_string, and std::hex on a stream.
use async_uv.Base.Tests.{ltb, ◌==◌, if◌then◌else◌}
use async_uv.Base.Bytes.{Bytes}
use Prim.Native.Nat.{ℕ, zero, suc, ◌+◌, ◌/◌, ◌%◌, ◌-◌}
use mathlib.Core.List.{[], ◌∷◌}

abbrev pub digit : ℕ → ℕ
digit d = if ltb d 10 then b'0' + d else b'a' + d - 10

-- The digits of `n`, least first taken, in front of `behind`. The fuel `suc n` is enough.
unfoldable pub digits_onto : ℕ → ℕ → ℕ → Bytes → Bytes
digits_onto base zero n behind = behind
digits_onto base (suc fuel) n behind =
    let more = digits_onto base fuel (n / base) (digit (n % base) ∷ behind) in
    if n / base == 0 then digit (n % base) ∷ behind else more

unfoldable pub decimal : ℕ → Bytes
unfolding digits_onto
decimal n = digits_onto 10 (suc n) n []

unfoldable pub hexadecimal : ℕ → Bytes
unfolding digits_onto
hexadecimal n = digits_onto 16 (suc n) n []
