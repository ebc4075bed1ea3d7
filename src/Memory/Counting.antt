-- ===== src/Memory/Counting.antt =====
-- The counters of store_memory.go.
use cache.Prelude.{
  ◌+ℤ◌, ◌≡◌, true, arith, equal_refl, ℤ, is_positive, add64, wrap64-IsInt64, IsInt64, inl, inr,
}
use cache.Decimal.{parse_int-format_int, format_int}
use cache.Store.{Result-cases, ttl_or, ttl_or-positive}
use cache.Memory.{memory_store, read_int64}
use cache.Memory.Backend.{Engine, EngineLaws, bytes}
use cache.Facade.RateLimit.Window.{IsCounting}

add64-IsInt64 : (a b : ℤ) → IsInt64 (add64 a b)
unfolding add64
add64-IsInt64 a b = wrap64-IsInt64 (a +ℤ b)

module _ (engine : Engine) (laws : EngineLaws engine) (ttl : ℤ)
    (positive : is_positive ttl ≡ true) where
  -- Increment adds to the number under the key.
  pub memory_store-IsCounting :
      IsCounting (memory_store engine ttl) (λ w k. read_int64 engine k w) (λ w. w.now)
  unfolding memory_store read_int64
  memory_store-IsCounting = record {
    counts = λ k n d t w h p. ground (
      arith,
      equal_refl k,
      parse_int-format_int (add64 n d) (add64-IsInt64 n d),
      laws.get-set k k (bytes (format_int (add64 n d))) (ttl_or t ttl) w.now w.state
          (ttl_or-positive t ttl positive),
    );
    still = λ k d t w. elim (Result-cases (read_int64 engine k w)) [
      | inr (e, bad) ↦ ground arith
      | inl (n, good) ↦ ground arith
    ];
  }
