-- ===== src/Facade/RateLimit.antt =====
-- rateLimit of cache.go: a fixed-window counter in the store.
pub mod Window
use cache.Prelude.{
  ℕ, ◌+◌, ◌*◌, ◌/◌, Bool, not, ◌++◌, Bytes, codes, ℤ, pos, negsuc, pos_part, is_positive, leb_ℤ,
  add64, neg64, wrap64, if◌then◌else◌,
}
use cache.Decimal.{format_int}
use cache.Store.{err, text, Act, pure, ◌>>=◌}
use cache.Facade.{Cache, Session, increment}

pub record RateLimitStatus : Type 0 where
  pub allowed : Bool
  pub count : ℤ
  pub remaining : ℤ
  pub reset_at : ℤ

abbrev pub clamp_zero : ℤ → ℤ
clamp_zero (pos n) = pos n
clamp_zero (negsuc n) = pos 0

abbrev pub window_key : Bytes → ℕ → Bytes
window_key key bucket = key ++ (codes ":" ++ format_int (pos bucket))

module _ {W : Type 0} where
  unfoldable pub rate_limit : Cache W → Bytes → ℤ → ℤ → Act (Session W) RateLimitStatus
  unfolding increment
  rate_limit c key limit window s =
      let bucket = c.clock s.inner / pos_part window in
      if not (is_positive limit)
      then (err (text "cache rate limit requires limit > 0"), s)
      else if not (is_positive window)
      then (err (text "cache rate limit requires window > 0"), s)
      else (do
        count ← increment c (window_key key bucket) (pos 1) window
        pure (record {
          allowed = leb_ℤ count limit;
          count = count;
          remaining = clamp_zero (add64 limit (neg64 count));
          reset_at = wrap64 (pos ((bucket + 1) * pos_part window));
        }))
          s
