-- ===== src/Web/RateLimiter/Window.antt =====
-- What the limiter lets through.
use Prim.Native.Nat.{min}
use chatripper.Common.{
  ℕ, ◌+◌, ◌-◌, ◌≤◌, ◌<◌, ◌≡◌, refl, ap, ◌∙◌, some, List, [], ◌∷◌, arith, Bytes, bytes_key,
  bytes_eqb, bytes_eqb_iff, find, find-insert, All, length, ltb, if◌then◌else◌, ltb→lt,
  ltb_false→le, Option-cases, Bool-cases, inl, inr,
}
use chatripper.Common.Time.{ℤ, secs_to, add_secs}
use chatripper.Web.RateLimiter.{
  Entry, RateLimiter, RateLimitResult, allowed, denied, check_entry, check_found, check,
}

-- The call touches the entry of its own address alone.
find-check :
    (key other : Bytes) (now later : ℕ) (r : RateLimiter)
    → find other (check key now later r).0.table ≡ (
        if bytes_eqb key other
        then some (check_found r now later (find key r.table)).0
        else find other r.table)
unfolding check
find-check key other now later r = find-insert key other _ r.table

-- The calls of one address at the given times, each with a single reading of the clock.
unfoldable check_all : Bytes → List ℕ → RateLimiter → RateLimiter
check_all key [] r = r
check_all key (t ∷ ts) r = check_all key ts (check key t t r).0

unfoldable count_allowed : RateLimitResult → ℕ
count_allowed allowed = 1
count_allowed (denied retry seconds) = 0

-- How many of those calls were let through.
unfoldable pub passed : Bytes → List ℕ → RateLimiter → ℕ
unfolding count_allowed
passed key [] r = 0
passed key (t ∷ ts) r = count_allowed (check key t t r).1 + passed key ts (check key t t r).0

-- The time lies in the window that began at `start`.
abbrev InWindow : ℕ → ℕ → ℕ → Type 0
InWindow start window t = (start ≤ t) × (t < add_secs start window)

-- One call within the window of the entry found.
check_entry-InWindow :
    (max window now later : ℕ) (e : Entry)
    → InWindow e.window_start window now
    → check_entry max window now later e ≡ (
        if ltb e.count max then (record e { count = e.count + 1 }, allowed) else (
          e,
          denied (add_secs e.window_start window) (secs_to later (add_secs e.window_start window)),
        ))
unfolding check_entry
check_entry-InWindow max window now later e h = ground arith

allowed-ne-denied : {retry : ℕ} {seconds : ℤ} → allowed ≡ denied retry seconds → ⊥
allowed-ne-denied e = cc

check_entry-denied :
    (max window now later : ℕ) (e : Entry) {retry : ℕ} {seconds : ℤ}
    → (check_entry max window now later e).1 ≡ denied retry seconds
    → ((check_entry max window now later e).0 ≡ e)
      × (now < retry)
      × (retry ≡ add_secs e.window_start window)
unfolding check_entry
check_entry-denied max window now later e h = ground arith

check_entry-reset :
    (max window now later : ℕ) (e : Entry)
    → add_secs e.window_start window ≤ now
    → (check_entry max window now later e).1 ≡ allowed
unfolding check_entry
check_entry-reset max window now later e h = ground arith

module _ (key : Bytes) where
  find-check_self :
      (now later : ℕ) (r : RateLimiter) (e : Entry)
      → find key r.table ≡ some e
      → find key (check key now later r).0.table
        ≡ some (check_entry r.max_requests r.window_seconds now later e).0
  unfolding check_found
  find-check_self now later r e found =
      rw (find-check key key now later r, (bytes_eqb_iff key key).1 refl, found)

  result-check :
      (now later : ℕ) (r : RateLimiter) (e : Entry)
      → find key r.table ≡ some e
      → (check key now later r).1 ≡ (check_entry r.max_requests r.window_seconds now later e).1
  unfolding check check_found
  result-check now later r e found = rw found

  passed_from :
      (max window : ℕ) (ts : List ℕ) (r : RateLimiter) (e : Entry)
      → r.max_requests ≡ max
      → r.window_seconds ≡ window
      → find key r.table ≡ some e
      → All (InWindow e.window_start window) ts
      → passed key ts r ≡ min (length ts) (max - e.count)
  unfolding passed count_allowed
  passed_from max window [] r e p q found h = omega arith
  passed_from max window (t ∷ ts) r e p q found h =
      let next = (check key t t r).0 in
      let p' : next.max_requests ≡ max = unfold check in p in
      let q' : next.window_seconds ≡ window = unfold check in q in
      let kept = find-check_self t t r e found in
      let result = result-check t t r e found in
      let step = check_entry-InWindow max window t t e h.0 in
      elim (Bool-cases (ltb e.count max)) [
        | inl room ↦
            let next_entry : find key next.table ≡ some (record e { count = e.count + 1 }) =
              kept ∙ rw (p, q, step, room) in
            let through : (check key t t r).1 ≡ allowed = result ∙ rw (p, q, step, room) in
            rw through (
              omega (
                arith,
                ltb→lt _ _ room,
                passed_from max window ts next (record e { count = e.count + 1 }) p' q' next_entry
                    h.1,
              ))
        | inr full ↦
            let next_entry : find key next.table ≡ some e = kept ∙ rw (p, q, step, full) in
            let stopped : count_allowed (check key t t r).1 ≡ 0 =
              ap count_allowed result ∙ rw (p, q, step, full) in
            omega (
              arith,
              stopped,
              ltb_false→le _ _ full,
              passed_from max window ts next e p' q' next_entry h.1,
            )
      ]

  -- Within one window exactly as many calls pass as are left of the maximum.
  pub passed-InWindow :
      (ts : List ℕ) (r : RateLimiter) (e : Entry)
      → find key r.table ≡ some e
      → All (InWindow e.window_start r.window_seconds) ts
      → passed key ts r ≡ min (length ts) (r.max_requests - e.count)
  passed-InWindow ts r e = passed_from r.max_requests r.window_seconds ts r e refl refl

  -- A call that is refused names a time in the future, and from that time on a call is let through.
  denied_until :
      (now later retry : ℕ) (seconds : ℤ) (r : RateLimiter)
      → (check key now later r).1 ≡ denied retry seconds
      → (now < retry)
        × ((t u : ℕ) → retry ≤ t → (check key t u (check key now later r).0).1 ≡ allowed)
  unfolding check check_found
  denied_until now later retry seconds r refused = elim (Option-cases (find key r.table)) [
    | inl absent ↦ absurd (allowed-ne-denied (rw absent at refused))
    | inr (e, found) ↦
        let (same_entry, future, retry_lem) =
          check_entry-denied r.max_requests r.window_seconds now later e (rw found at refused) in
        (
          future,
          λ t u past.
              let kept : find key (check key now later r).0.table ≡ some e =
                find-check_self now later r e found ∙ ap some same_entry in
              result-check t u (check key now later r).0 e kept
              ∙ check_entry-reset r.max_requests r.window_seconds t u e (rw retry_lem at past),
        )
  ]
