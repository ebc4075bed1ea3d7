-- ===== src/Facade/RateLimit/Window.antt =====
-- The calls of rateLimit that fall in one window, over a store whose counters count.
use cache.Prelude.{
  ℕ, zero, suc, ◌+◌, ◌-◌, ◌*◌, ◌/◌, ◌<◌, ◌≡◌, refl, ◌∙◌, sym, ap, true, arith, Bytes, ℤ, pos,
  is_positive, leb, add64, neg64, leb_ℤ, wrap64, two63, ◌+ℤ◌,
}
use cache.Store.{Result, ok, Store}
use cache.Facade.{Cache, Session, increment, observe, resolve_ttl}
use cache.Facade.RateLimit.{RateLimitStatus, rate_limit, window_key, clamp_zero}

-- Increment adds to the number under the key, and keeps the clock. `value` is the number, or the
-- error of reading it.
pub record IsCounting {W : Type 0} (s : Store W) (value : W → Bytes → Result ℤ) (clock : W → ℕ)
    : Type 0 where
  pub counts :
      (k : Bytes) (n d t : ℤ) (w : W)
      → value w k ≡ ok n
      → is_positive t ≡ true
      → ((s.increment k d t w).0 ≡ ok (add64 n d))
        × (value (s.increment k d t w).1 k ≡ ok (add64 n d))
  pub still : (k : Bytes) (d t : ℤ) (w : W) → clock (s.increment k d t w).1 ≡ clock w

add64_one : (n : ℕ) → suc n < two63 → add64 (pos n) (pos 1) ≡ pos (suc n)
unfolding add64 wrap64 ◌+ℤ◌
add64_one n h = ground arith

remaining_lem :
    (limit m : ℕ)
    → limit < two63
    → m < two63
    → clamp_zero (add64 (pos limit) (neg64 (pos m))) ≡ pos (limit - m)
unfolding add64 neg64 wrap64 ◌+ℤ◌
remaining_lem limit m h k = ground arith

module _ {W : Type 0} (c : Cache W) (value : W → Bytes → Result ℤ)
    (counting : IsCounting c.store value c.clock) (key : Bytes) (limit window : ℕ) where
  -- The session after n calls, after each of which time passes and others act.
  unfoldable pub after_calls : (ℕ → Session W → Session W) → ℕ → Session W → Session W
  after_calls wait zero s = s
  after_calls wait (suc n) s =
      wait n (rate_limit c key (pos limit) (pos window) (after_calls wait n s)).1

  -- The window of a session, and the number that is its counter.
  abbrev pub bucket_of : Session W → ℕ
  bucket_of s = c.clock s.inner / window

  abbrev pub counter_at : ℕ → Session W → Result ℤ
  counter_at bucket s = value s.inner (window_key key bucket)

  abbrev pub status : ℕ → ℕ → RateLimitStatus
  status bucket n = record {
    allowed = leb n limit;
    count = pos n;
    remaining = pos (limit - n);
    reset_at = wrap64 (pos ((bucket + 1) * window));
  }

  module _ (bounded : limit < two63) (some_calls : 0 < limit) (some_time : 0 < window) where
    increment_lem :
        (k : Bytes) (n d : ℤ) (s : Session W)
        → value s.inner k ≡ ok n
        → ((increment c k d (pos window) s).0 ≡ ok (add64 n d))
          × (value (increment c k d (pos window) s).1.inner k ≡ ok (add64 n d))
          × (c.clock (increment c k d (pos window) s).1.inner ≡ c.clock s.inner)
    unfolding increment observe resolve_ttl
    increment_lem k n d s h = ground (
      arith,
      counting.counts k n d (pos window) s.inner h,
      counting.still k d (pos window) s.inner,
    )

    status_lem :
        (bucket m : ℕ)
        → m < two63
        → status bucket m ≡ record {
          allowed = leb_ℤ (pos m) (pos limit);
          count = pos m;
          remaining = clamp_zero (add64 (pos limit) (neg64 (pos m)));
          reset_at = wrap64 (pos ((bucket + 1) * window));
        }
    status_lem bucket m fits = rw (remaining_lem limit m bounded fits) (ground arith)

    one_call :
        (n : ℕ) (s : Session W)
        → suc n < two63
        → counter_at (bucket_of s) s ≡ ok (pos n)
        → ((rate_limit c key (pos limit) (pos window) s).0 ≡ ok (status (bucket_of s) (suc n)))
          × (counter_at (bucket_of s) (rate_limit c key (pos limit) (pos window) s).1
              ≡ ok (pos (suc n)))
          × (bucket_of (rate_limit c key (pos limit) (pos window) s).1 ≡ bucket_of s)
    unfolding rate_limit
    one_call n s fits h = ground (
      arith,
      status_lem (bucket_of s) (suc n) fits,
      add64_one n fits,
      increment_lem (window_key key (bucket_of s)) (pos n) (pos 1) s h,
    )

    -- Up to the n-th call, time stays in the window and nobody else touches its counter.
    abbrev pub Undisturbed : (ℕ → Session W → Session W) → ℕ → ℕ → Session W → Type 0
    Undisturbed wait bucket n s =
        (i : ℕ)
        → i < n
        → (bucket_of (after_calls wait (suc i) s) ≡ bucket)
          × (counter_at bucket (after_calls wait (suc i) s)
              ≡ counter_at bucket
                  (rate_limit c key (pos limit) (pos window) (after_calls wait i s)).1)

    after_calls_lem :
        (wait : ℕ → Session W → Session W) (s : Session W) (n : ℕ)
        → n < two63
        → counter_at (bucket_of s) s ≡ ok (pos 0)
        → Undisturbed wait (bucket_of s) n s
        → (bucket_of (after_calls wait n s) ≡ bucket_of s)
          × (counter_at (bucket_of s) (after_calls wait n s) ≡ ok (pos n))
    after_calls_lem wait s zero fits fresh calm = unfold after_calls in (refl, fresh)
    after_calls_lem wait s (suc n) fits fresh calm =
        let (now, counted) =
          after_calls_lem wait s n (omega arith) fresh (λ i h. calm i (omega arith)) in
        let (same, kept) = calm n (omega arith) in
        let (_, more, _) =
          one_call n (after_calls wait n s) fits
            (ap (λ (b : ℕ). counter_at b (after_calls wait n s)) now ∙ counted) in
        (
          same,
          kept
              ∙ sym (
                  ap
                    (λ (b : ℕ).
                      counter_at b
                        (rate_limit c key (pos limit) (pos window) (after_calls wait n s)).1)
                    now)
              ∙ more,
        )

    -- Over a store whose Increment counts, with a positive limit and window: the call of a window
    -- that follows n others, when time has stayed in the window and nobody else touched its
    -- counter, which was at zero, is allowed exactly while n + 1 is within the limit, counts n +
    -- 1, and tells what is left of the limit, zero at least, and when the window ends. The limit
    -- and n + 1 are numbers that an int64 holds.
    pub rate_limit_lem :
        (wait : ℕ → Session W → Session W) (n : ℕ) (s : Session W)
        → suc n < two63
        → counter_at (bucket_of s) s ≡ ok (pos 0)
        → Undisturbed wait (bucket_of s) n s
        → (rate_limit c key (pos limit) (pos window) (after_calls wait n s)).0
          ≡ ok (status (bucket_of s) (suc n))
    rate_limit_lem wait n s fits fresh calm =
        let u = after_calls wait n s in
        let (now, counted) = after_calls_lem wait s n (omega arith) fresh calm in
        (one_call n u fits (ap (λ (b : ℕ). counter_at b u) now ∙ counted)).0
        ∙ ap (λ (b : ℕ). ok (status b (suc n))) now
