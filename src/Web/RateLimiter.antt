-- ===== src/Web/RateLimiter.antt =====
-- web/ratelimiter.cpp. The clock is an argument: `now` is the first reading, `later` the one that
-- the message is made from. The window is a positive number of seconds or zero.
pub mod Window
use chatripper.Common.{
  ℕ, ◌+◌, Option, none, some, Bytes, bytes_key, Map, find, insert, ltb, if◌then◌else◌,
}
use chatripper.Common.Time.{ℤ, secs_to, add_secs, at_least}

pub record Entry : Type 0 where
  pub count : ℕ
  pub window_start : ℕ

pub record RateLimiter : Type 0 where
  pub table : Map Bytes Entry
  pub max_requests : ℕ
  pub window_seconds : ℕ

-- `RateLimitResult`; of the message, the number of seconds that it names.
pub data RateLimitResult : Type 0 where
  allowed : RateLimitResult
  denied : ℕ → ℤ → RateLimitResult

unfoldable pub fresh : ℕ → Entry
fresh now = record { count = 1; window_start = now }

-- What the call makes of the entry that it found.
unfoldable pub check_entry : ℕ → ℕ → ℕ → ℕ → Entry → Entry × RateLimitResult
unfolding fresh
check_entry max_requests window now later e =
    if at_least (secs_to e.window_start now) window
    then (fresh now, allowed)
    else if ltb e.count max_requests
    then (record e { count = e.count + 1 }, allowed)
    else let retry = add_secs e.window_start window in (e, denied retry (secs_to later retry))

-- The entry of the address after the call, and the result.
unfoldable pub check_found : RateLimiter → ℕ → ℕ → Option Entry → Entry × RateLimitResult
unfolding check_entry
check_found r now later none = (fresh now, allowed)
check_found r now later (some e) = check_entry r.max_requests r.window_seconds now later e

unfoldable pub check : Bytes → ℕ → ℕ → RateLimiter → RateLimiter × RateLimitResult
unfolding check_found
check key now later r =
    let (e, result) = check_found r now later (find key r.table) in
    (record r { table = insert key e r.table }, result)
