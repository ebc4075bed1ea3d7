-- ===== src/Facade/Remember.antt =====
-- rememberBytes, rememberStaleBytes and the codec variants of cache.go: read-through helpers. A
-- callback may be nil.
pub mod Reads
use cache.Prelude.{
  Bool, true, false, Option, none, some, List, [], ◌∷◌, ◌++◌, Bytes, codes, ℤ, is_positive,
  if◌then◌else◌,
}
use cache.Store.{
  Error, Result, ok, err, text, join, Act, pure, fail, lift, continue, attempt, ◌>>=◌, ◌>>◌, ttl_or,
}
use cache.Facade.{Cache, Session, observe, report, error_of, get_bytes, set_bytes}
use cache.Facade.Values.{ValueCodec}

abbrev pub stale_suffix : Bytes
stale_suffix = codes ":__stale"

module _ {W : Type 0} where
  unfoldable pub remember_bytes :
      Cache W → Bytes → ℤ → Option (Act (Session W) Bytes) → Act (Session W) Bytes
  remember_bytes c key ttl fn = attempt (get_bytes c key) λ r. elim r [
    | err e ↦ report c "remember" key false (err e)
    | ok (some body) ↦ report c "remember" key true (ok body)
    | ok none ↦ elim fn [
      | none ↦ report c "remember" key false (err (text "cache remember requires a callback"))
      | some f ↦ attempt f λ v. elim v [
        | err e ↦ report c "remember" key false (err e)
        | ok body ↦ attempt (set_bytes c key body ttl) λ w. elim w [
          | err e ↦ report c "remember" key false (err e)
          | ok done ↦ report c "remember" key true (ok body)
        ]
      ]
    ]
  ]

  -- After the callback failed: the stale copy, or the error.
  unfoldable pub serve_stale : Cache W → Bytes → Error → Act (Session W) (Bytes × Bool)
  serve_stale c key e = attempt (get_bytes c (key ++ stale_suffix)) λ r. elim r [
    | ok (some body) ↦ report c "remember_stale" key true (ok (body, true))
    | ok none ↦ report c "remember_stale" key false (err e)
    | err e' ↦ report c "remember_stale" key false (err (join e e'))
  ]

  -- After the callback gave a value: the fresh copy, and the stale one, of which a failure is
  -- ignored.
  unfoldable pub keep_both : Cache W → Bytes → ℤ → ℤ → Bytes → Act (Session W) (Bytes × Bool)
  keep_both c key ttl stale_ttl value = attempt (set_bytes c key value ttl) λ r. elim r [
    | err e ↦ report c "remember_stale" key false (err e)
    | ok done ↦
        let stale = ttl_or stale_ttl ttl in
        attempt
          (if is_positive stale then set_bytes c (key ++ stale_suffix) value stale else pure tt)
          λ ignored. report c "remember_stale" key true (ok (value, false))
  ]

  unfoldable pub remember_stale_bytes :
      Cache W → Bytes → ℤ → ℤ → Option (Act (Session W) Bytes) → Act (Session W) (Bytes × Bool)
  remember_stale_bytes c key ttl stale_ttl fn = attempt (get_bytes c key) λ r. elim r [
    | err e ↦ report c "remember_stale" key false (err e)
    | ok (some body) ↦ report c "remember_stale" key true (ok (body, false))
    | ok none ↦ elim fn [
      | none ↦
          report c "remember_stale" key false
            (err (text "cache remember stale requires a callback"))
      | some f ↦ attempt f λ v. elim v [
        | err e ↦ serve_stale c key e
        | ok value ↦ keep_both c key ttl stale_ttl value
      ]
    ]
  ]

module _ {W T : Type 0} (codec : ValueCodec T) where
  unfoldable pub remember_value :
      Cache W → Bytes → ℤ → Option (Act (Session W) T) → Act (Session W) T
  remember_value c key ttl fn = do
    o ← get_bytes c key
    elim o [
      | some body ↦ lift (codec.decode body)
      | none ↦ elim fn [
        | none ↦ fail (text "cache remember value requires a callback")
        | some f ↦ do
          value ← f
          encoded ← lift (codec.encode value)
          set_bytes c key encoded ttl
          pure value
      ]
    ]

  -- The callback that rememberStaleValueWithCodecContext and refreshAheadValueWithCodec hand on.
  abbrev pub encoded_callback : Error → Option (Act (Session W) T) → Act (Session W) Bytes
  encoded_callback e none = fail e
  encoded_callback e (some f) = do value ← f; lift (codec.encode value)

  -- The stale flag beside an error is dropped.
  unfoldable pub remember_stale_value :
      Cache W → Bytes → ℤ → ℤ → Option (Act (Session W) T) → Act (Session W) (T × Bool)
  remember_stale_value c key ttl stale_ttl fn = do
    (body, stale) ←
        remember_stale_bytes c key ttl stale_ttl
          (some (encoded_callback (text "cache remember stale requires a callback") fn))
    out ← lift (codec.decode body)
    pure (out, stale)
