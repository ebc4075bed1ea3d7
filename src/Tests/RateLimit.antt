-- ===== src/Tests/RateLimit.antt =====
-- rateLimit of cache.go over the in-process store, at concrete inputs.
use cache.Prelude.{
  ℕ, zero, suc, equal, ◌+◌, ◌/◌, ◌<◌, ◌≡◌, refl, false, arith, Bytes, codes, ℤ, pos, lookup, put,
  add64, wrap64,
}
use cache.Decimal.{format_int, parse_int}
use cache.Store.{Result, ok}
use cache.Memory.{World, memory_store, read_int64}
use cache.Memory.Counting.{memory_store-IsCounting}
use cache.Facade.{Session, increment, observe, resolve_ttl}
use cache.Facade.RateLimit.{rate_limit}
use cache.Facade.RateLimit.Window.{IsCounting, after_calls, rate_limit_lem}
use cache.Tests.Facade.{app, session}
use cache.Tests.Fixtures.{engine, engine_laws}

-- A window of 100 nanoseconds with a limit of 2, and 10 nanoseconds between the calls.
abbrev read_counter : World engine → Bytes → Result ℤ
read_counter w k = read_int64 engine k w

counting : IsCounting app.store read_counter app.clock
counting = memory_store-IsCounting engine engine_laws (pos 60) refl

abbrev ten_later : ℕ → Session (World engine) → Session (World engine)
ten_later n s = record s { inner = record s.inner { now = s.inner.now + 10 } }

abbrev after : ℕ → Session (World engine)
after n = after_calls app read_counter counting (codes "api") 2 100 ten_later n session

undisturbed :
    (i : ℕ)
    → i < 2
    → ((after (suc i)).inner.now / 100 ≡ 10)
      × (read_counter (after (suc i)).inner (codes "api:10")
          ≡ read_counter
              (rate_limit app (codes "api") (pos 2) (pos 100) (after i)).1.inner
              (codes "api:10"))
unfolding after_calls rate_limit increment resolve_ttl observe memory_store read_int64 lookup put
    add64 format_int parse_int equal
undisturbed zero h = (refl, refl)
undisturbed (suc zero) h = (refl, refl)
undisturbed (suc (suc i)) h = absurd (omega arith)

rate_limit_lem_example :
    (rate_limit app (codes "api") (pos 2) (pos 100) (after 2)).0
    ≡ ok (record { allowed = false; count = pos 3; remaining = pos 0; reset_at = pos 1100 })
unfolding read_int64 lookup wrap64 format_int
rate_limit_lem_example =
    rate_limit_lem app read_counter counting (codes "api") 2 100 (omega arith) (omega arith)
      (omega arith) ten_later 2 session (omega arith) refl undisturbed
