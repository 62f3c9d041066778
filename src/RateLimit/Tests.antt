-- ===== src/RateLimit/Tests.antt =====
-- Runs of the limiter, and its theorems at them.
use async_uv.Base.{ℕ, ◌-◌, ◌≡◌, refl, List, [], ◌∷◌, arith}
use async_uv.Base.Bytes.{Bytes, lit, bytes_beq}
use async_uv.Base.Dict.{lookup, insert, retain}
use Prim.Native.Nat.{min, max}
use async_uv.RateLimit.{Limiter, create_rate_limiter, cleanup, try_consume, remaining, reset_after}
use async_uv.RateLimit.Window.{
  IsValid, create_rate_limiter-IsValid, try_consume-IsValid, accepted, accepted_window, calls_of,
}
use async_uv.RateLimit.Views.{remaining-cleanup, remaining-try_consume, remaining-try_consume_ne}

abbrev ann : Bytes
ann = lit "10.0.0.1"

abbrev bob : Bytes
bob = lit "10.0.0.2"

abbrev two_per_second : Limiter
two_per_second = create_rate_limiter (record { max_requests = 2; window = 1000 })

abbrev calls : List (Bytes × ℕ)
calls = (bob, 6) ∷ (ann, 7) ∷ (ann, 8) ∷ (ann, 900000000) ∷ []

running : Unit {0}
unfolding create_rate_limiter cleanup try_consume remaining reset_after lookup insert retain
    bytes_beq accepted
running = tt

two_let_through : accepted ann ((ann, 5) ∷ calls) two_per_second ≡ 2
unfolding running
two_let_through = refl

next_window :
    accepted ann ((ann, 5) ∷ (ann, 6) ∷ (ann, 7) ∷ (ann, 1000000005) ∷ []) two_per_second ≡ 3
unfolding running
next_window = refl

reset_reported : reset_after ann 2000005 (try_consume ann 5 two_per_second).0 ≡ 998
unfolding running
reset_reported = refl

two_per_second-IsValid : IsValid two_per_second
two_per_second-IsValid = create_rate_limiter-IsValid _

accepted_window_example :
    accepted ann ((ann, 5) ∷ calls) two_per_second
    ≡ min (calls_of ann ((ann, 5) ∷ calls)) (max 1 two_per_second.options.max_requests)
unfolding running
accepted_window_example =
    accepted_window ann 5 two_per_second calls two_per_second-IsValid refl (omega arith)
      (omega arith)

try_consume-IsValid_example : IsValid (try_consume ann 5 two_per_second).0
try_consume-IsValid_example = try_consume-IsValid ann 5 two_per_second two_per_second-IsValid

remaining-cleanup_example :
    remaining ann 9 (cleanup 8 (try_consume ann 5 two_per_second).0)
    ≡ remaining ann 9 (try_consume ann 5 two_per_second).0
remaining-cleanup_example =
    remaining-cleanup ann 8 9 (try_consume ann 5 two_per_second).0 try_consume-IsValid_example
      (omega arith)

remaining-try_consume_ne_example :
    remaining ann 9 (try_consume bob 8 (try_consume ann 5 two_per_second).0).0
    ≡ remaining ann 9 (try_consume ann 5 two_per_second).0
remaining-try_consume_ne_example =
    remaining-try_consume_ne bob ann 8 9 (try_consume ann 5 two_per_second).0
      try_consume-IsValid_example (λ e. ground arith) (omega arith)

remaining-try_consume_example :
    remaining ann 5 (try_consume ann 5 two_per_second).0 ≡ remaining ann 5 two_per_second - 1
unfolding create_rate_limiter
remaining-try_consume_example =
    remaining-try_consume ann 5 two_per_second two_per_second-IsValid (omega arith) (omega arith)
