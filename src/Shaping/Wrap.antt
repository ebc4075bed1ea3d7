-- ===== src/Shaping/Wrap.antt =====
-- WrapStore, ValidateBaseConfig and the three wrappers of cachecore/shaping.go.
use cache.Prelude.{
  ℕ, Bool, true, false, not, ◌&&◌, ◌||◌, Option, none, some, Bytes, length, ltb, ◌==◌, ℤ, pos,
  negsuc, is_positive, if◌then◌else◌,
}
use cache.Store.{
  Error, Result, ok, err, invalid_max_value_bytes, unsupported_codec, encryption_key,
  inspector_unsupported, Act, pure, fail, lift, ◌>>=◌, Driver, CompressionCodec, unset,
  compression_none, compression_gzip, BaseConfig, Store, LockStore, Inspector, no_capabilities,
}
use cache.Store.Contract.{acquire, release}
use cache.Shaping.Value.{Gzip, encode_value, decode_value}
use cache.Shaping.Envelope.{Aead, Crypto, encrypt, decrypt}

abbrev pub is_supported : CompressionCodec → Bool
is_supported unset = true
is_supported compression_none = true
is_supported compression_gzip = true
is_supported _ = false

abbrev pub is_negative : ℤ → Bool
is_negative (pos n) = false
is_negative (negsuc n) = true

unfoldable pub validate_base_config : BaseConfig → Option Error
validate_base_config cfg =
    let size = length cfg.encryption_key in
    if is_negative cfg.max_value_bytes
    then some invalid_max_value_bytes
    else if not (is_supported cfg.compression)
    then some unsupported_codec
    else if not (size == 0) && not (size == 16) && not (size == 24) && not (size == 32)
    then some encryption_key
    else none

-- failingStore: every operation reports the configuration error.
unfoldable pub failing_store : {W : Type 0} → Driver → Error → Store W
failing_store driver e = record {
  driver = driver;
  ready = fail e;
  get = λ key. fail e;
  set = λ key value ttl. fail e;
  add = λ key value ttl. fail e;
  increment = λ key delta ttl. fail e;
  decrement = λ key delta ttl. fail e;
  delete = λ key. fail e;
  delete_many = λ keys. fail e;
  flush = fail e;
  lock_store =
      some (record { lock_acquire = λ key owner ttl. fail e; lock_release = λ key owner. fail e });
  inspector = none;
}

abbrev pub codec_of : CompressionCodec → CompressionCodec
codec_of unset = compression_none
codec_of codec = codec

abbrev is_none : CompressionCodec → Bool
is_none compression_none = true
is_none _ = false

module _ {W : Type 0} where
  abbrev decode_found : (Bytes → Result Bytes) → Option Bytes → Act W (Option Bytes)
  decode_found decode none = pure none
  decode_found decode (some body) = do value ← lift (decode body); pure (some value)

  -- LockAcquire and LockRelease, Capabilities and ListPage, which both wrappers pass on.
  unfoldable pub passed_locks : Store W → LockStore W
  unfolding acquire release
  passed_locks inner = record { lock_acquire = acquire inner; lock_release = release inner }

  unfoldable pub passed_inspector : Store W → Inspector W
  passed_inspector inner = record {
    capabilities = λ w. elim inner.inspector [ none ↦ no_capabilities | some i ↦ i.capabilities w ];
    list_page = λ opts. elim inner.inspector [
      | none ↦ fail inspector_unsupported
      | some i ↦ i.list_page opts
    ];
  }

  -- A wrapper that encodes what Set and Add write and decodes what Get reads, and passes on the
  -- rest: the common shape of shapingStore and encryptingStore.
  unfoldable pub shaped : (Bytes → Act W Bytes) → (Bytes → Result Bytes) → Store W → Store W
  unfolding passed_locks passed_inspector
  shaped encode decode inner = record {
    driver = inner.driver;
    ready = inner.ready;
    get = λ key. (do o ← inner.get key; decode_found decode o);
    set = λ key value ttl. (do encoded ← encode value; inner.set key encoded ttl);
    add = λ key value ttl. (do encoded ← encode value; inner.add key encoded ttl);
    increment = inner.increment;
    decrement = inner.decrement;
    delete = inner.delete;
    delete_many = inner.delete_many;
    flush = inner.flush;
    lock_store = some (passed_locks inner);
    inspector = some (passed_inspector inner);
  }

  unfoldable pub shaping_store : Gzip → Store W → CompressionCodec → ℤ → Store W
  unfolding shaped
  shaping_store gzip inner codec max =
      shaped (λ value. lift (encode_value gzip codec max value))
        (λ body. decode_value gzip body max) inner

  -- The first part of WrapStore: size policy and compression, where the settings ask for them.
  unfoldable pub with_shaping : Gzip → Store W → BaseConfig → Store W
  unfolding shaping_store
  with_shaping gzip store cfg =
      let codec = codec_of cfg.compression in
      if not (is_none codec) || is_positive cfg.max_value_bytes
      then shaping_store gzip store codec cfg.max_value_bytes
      else store

  module _ (read_random : ℕ → Act W Bytes) where
    unfoldable pub encrypting_store : Store W → Aead → Store W
    unfolding shaped
    encrypting_store inner aead = shaped (encrypt read_random aead) (decrypt aead) inner

    unfoldable pub new_encrypting_store : Crypto → Store W → Bytes → Result (Store W)
    unfolding encrypting_store
    new_encrypting_store crypto inner key = elim (crypto.new_cipher key) [
      | none ↦ err encryption_key
      | some block ↦ elim (crypto.new_gcm block) [
        | err e ↦ err e
        | ok aead ↦ ok (encrypting_store inner aead)
      ]
    ]

    abbrev wrapped_or_failing : Driver → Result (Store W) → Store W × Option Error
    wrapped_or_failing driver (ok wrapped) = (wrapped, none)
    wrapped_or_failing driver (err e) = (failing_store driver e, some e)

    -- The store and the error of WrapStore.
    unfoldable pub wrap_store : Gzip → Crypto → Store W → BaseConfig → Store W × Option Error
    unfolding failing_store with_shaping new_encrypting_store
    wrap_store gzip crypto store cfg = elim (validate_base_config cfg) [
      | some e ↦ (failing_store store.driver e, some e)
      | none ↦
          let wrapped = with_shaping gzip store cfg in
          if ltb 0 (length cfg.encryption_key)
          then wrapped_or_failing store.driver
              (new_encrypting_store crypto wrapped cfg.encryption_key)
          else (wrapped, none)
    ]
