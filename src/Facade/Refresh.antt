-- ===== src/Facade/Refresh.antt =====
-- refreshAheadBytes of cache.go. The goroutine that refreshes a value in the background is an
-- action of its own, which runs at some later moment: the call tells whether it was started.
pub mod Ahead
use cache.Prelude.{
  Bool, true, false, not, Option, none, some, ◌++◌, Bytes, codes, ℤ, pos, ◌+ℤ◌, neg_ℤ, ltb_ℤ,
  wrap64, is_positive, if◌then◌else◌,
}
use cache.Decimal.{format_int, parse_int}
use cache.Store.{
  Error, Result, ok, err, text, Act, pure, fail, lift, continue, attempt, ◌>>=◌, ◌>>◌,
}
use cache.Facade.{Cache, Session, observe, report, error_of, resolve_ttl, get_bytes, set_bytes}
use cache.Facade.Values.{ValueCodec}
use cache.Facade.Remember.{encoded_callback}
use cache.Facade.Locks.{try_lock, unlock}

abbrev pub refresh_meta_suffix : Bytes
refresh_meta_suffix = codes ":__refresh_exp"

abbrev pub refresh_lock_prefix : Bytes
refresh_lock_prefix = codes "__refresh_lock:"

-- time.Until(time.Unix(0, expires_at)) > ahead: the difference that time.Until cuts off at the range
-- of an int64 is below `ahead` already where it is cut off.
abbrev pub is_far : ℤ → ℤ → ℤ → Bool
is_far expires_at now ahead = ltb_ℤ ahead (expires_at +ℤ neg_ℤ now)

-- Whether the entry under the metadata key makes maybeTriggerRefreshAhead start a refresh.
unfoldable pub is_due : ℤ → ℤ → Result (Option Bytes) → Bool
is_due now ahead (err e) = false
is_due now ahead (ok none) = false
is_due now ahead (ok (some meta)) = elim (parse_int meta) [
  | none ↦ false
  | some expires_at ↦ not (is_far expires_at now ahead)
]

module _ {W : Type 0} where
  -- The clock is read after the value is written.
  unfoldable pub set_refresh_ahead_value : Cache W → Bytes → Bytes → ℤ → Act (Session W) (Unit {0})
  set_refresh_ahead_value c key value ttl = do
    set_bytes c key value ttl
    λ s.
        set_bytes c (key ++ refresh_meta_suffix)
          (format_int (wrap64 (pos (c.clock s.inner) +ℤ resolve_ttl c ttl))) ttl s

  unfoldable pub maybe_trigger_refresh_ahead : Cache W → Bytes → ℤ → Act (Session W) Bool
  unfolding is_due
  maybe_trigger_refresh_ahead c key ahead =
      attempt (get_bytes c (key ++ refresh_meta_suffix))
        λ r s. (ok (is_due (pos (c.clock s.inner)) ahead r), s)

  -- The body of the goroutine, with its deferred Unlock.
  unfoldable pub refresh_in_background :
      Cache W → Bytes → ℤ → ℤ → Option (Act (Session W) Bytes) → Act (Session W) (Unit {0})
  refresh_in_background c key ttl ahead fn =
      attempt (try_lock c (refresh_lock_prefix ++ key) ahead) λ l. elim l [
        | err e ↦ pure tt
        | ok false ↦ pure tt
        | ok true ↦
            attempt
              (elim fn [
                | none ↦ pure tt
                | some f ↦ attempt f λ v. elim v [
                  | err e ↦ pure tt
                  | ok value ↦ attempt (set_refresh_ahead_value c key value ttl) λ ignored. pure tt
                ]
              ])
              λ ignored. attempt (unlock c (refresh_lock_prefix ++ key)) λ ignored'. pure tt
      ]

  -- The value, and whether a background refresh was started.
  unfoldable pub refresh_ahead_bytes :
      Cache W → Bytes → ℤ → ℤ → Option (Act (Session W) Bytes) → Act (Session W) (Bytes × Bool)
  refresh_ahead_bytes c key ttl ahead fn =
      if not (is_positive ttl)
      then fail (text "cache refresh ahead requires ttl > 0")
      else if not (is_positive ahead)
      then fail (text "cache refresh ahead requires refreshAhead > 0")
      else attempt (get_bytes c key) λ r. elim r [
        | err e ↦ report c "refresh_ahead" key false (err e)
        | ok (some body) ↦ do
          started ← maybe_trigger_refresh_ahead c key ahead
          report c "refresh_ahead" key true (ok (body, started))
        | ok none ↦ elim fn [
          | none ↦
              report c "refresh_ahead" key false
                (err (text "cache refresh ahead requires a callback"))
          | some f ↦ attempt f λ v. elim v [
            | err e ↦ report c "refresh_ahead" key false (err e)
            | ok value ↦ attempt (set_refresh_ahead_value c key value ttl) λ w. elim w [
              | err e ↦ report c "refresh_ahead" key false (err e)
              | ok done ↦ report c "refresh_ahead" key true (ok (value, false))
            ]
          ]
        ]
      ]

module _ {W T : Type 0} (codec : ValueCodec T) where
  unfoldable pub refresh_ahead_value :
      Cache W → Bytes → ℤ → ℤ → Option (Act (Session W) T) → Act (Session W) (T × Bool)
  refresh_ahead_value c key ttl ahead fn = do
    (body, started) ←
        refresh_ahead_bytes c key ttl ahead
          (some (encoded_callback codec (text "cache refresh ahead requires a callback") fn))
    out ← lift (codec.decode body)
    pure (out, started)
