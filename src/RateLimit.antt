-- ===== src/RateLimit.antt =====
-- layer3/include/async_uv_layer3/rate_limit.hpp: the fixed-window counter behind the middleware.
-- Time points are nanoseconds of std::chrono::steady_clock, which each method reads once: the
-- reading is its argument `now`, below 2 ^ 63. The window is in milliseconds, as in the options, and
-- is not negative.
pub mod Window
pub mod Views
mod Tests
use async_uv.Base.{
  ℕ, ◌+◌, ◌-◌, ◌*◌, ◌/◌, ◌%◌, ◌^◌, ◌<◌, ltb, Bool, true, false, not, Option, none, some, List, [],
  leb, if◌then◌else◌,
}
use async_uv.Base.Bytes.{Bytes, bytes_eq}
use async_uv.Base.Dict.{lookup, insert, retain}

-- `RateLimitOptions`, the part that the limiter reads.
pub record Options : Type 0 where
  pub max_requests : ℕ
  pub window : ℕ

pub record Entry : Type 0 where
  pub count : ℕ
  pub reset_time : ℕ

pub record Limiter : Type 0 where
  pub options : Options
  pub entries : List (Bytes × Entry)

abbrev pub ns_per_ms : ℕ
ns_per_ms = 1000000

unfoldable pub create_rate_limiter : Options → Limiter
create_rate_limiter options = record { options = options; entries = [] }

-- `now >= reset_time`
abbrev pub expired : ℕ → Entry → Bool
expired now e = leb e.reset_time now

-- `cleanup_expired_locked`, and `cleanup` with the lock taken.
unfoldable pub cleanup : ℕ → Limiter → Limiter
cleanup now l = record l { entries = retain (λ e. not (expired now e)) l.entries }

-- A time point of 64 bits with a sign, which wraps around. A negative one is compared as 0 is: no
-- reading is before it.
abbrev pub time_point : ℕ → ℕ
time_point t = if ltb (t % 2 ^ 64) (2 ^ 63) then t % 2 ^ 64 else 0

abbrev pub fresh_entry : Limiter → ℕ → Entry
fresh_entry l now = record {
  count = 1;
  reset_time = time_point (now + l.options.window * ns_per_ms);
}

-- The end of a window that is opened now is a time point.
abbrev pub EndsInTime : ℕ → Limiter → Type 0
EndsInTime now l = now + l.options.window * ns_per_ms < 2 ^ 63

-- The body of `try_consume` behind its call of the clean-up.
unfoldable pub consume_at : Bytes → ℕ → Limiter → Option Entry → Limiter × Bool
consume_at key now l none = (record l { entries = insert key (fresh_entry l now) l.entries }, true)
consume_at key now l (some e) =
    if expired now e
    then (record l { entries = insert key (fresh_entry l now) l.entries }, true)
    else if leb l.options.max_requests e.count
    then (l, false)
    else (record l { entries = insert key (record e { count = e.count + 1 }) l.entries }, true)

unfoldable pub try_consume : Bytes → ℕ → Limiter → Limiter × Bool
unfolding consume_at cleanup
try_consume key now l = let l' = cleanup now l in consume_at key now l' (lookup key l'.entries)

abbrev remaining_of : ℕ → ℕ → Option Entry → ℕ
remaining_of max_requests now none = max_requests
remaining_of max_requests now (some e) =
    if expired now e
    then max_requests
    else if leb max_requests e.count
    then 0
    else max_requests - e.count

unfoldable pub remaining : Bytes → ℕ → Limiter → ℕ
remaining key now l = remaining_of l.options.max_requests now (lookup key l.entries)

abbrev reset_of : ℕ → ℕ → Option Entry → ℕ
reset_of window now none = window
reset_of window now (some e) = if expired now e then 0 else (e.reset_time - now) / ns_per_ms

-- In milliseconds: `duration_cast` truncates.
unfoldable pub reset_after : Bytes → ℕ → Limiter → ℕ
reset_after key now l = reset_of l.options.window now (lookup key l.entries)
