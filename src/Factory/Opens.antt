-- ===== src/Factory/Opens.antt =====
-- Which store newStoreForDriver of factory.go opens.
use cache.Prelude.{◌≡◌, refl, Bool, true, false, some, arith, Bytes, Option-cases, inl, inr}
use cache.Store.{
  Result-cases, Error, ok, err, Driver, null, file, memory, memcached, dynamo, sql, redis, nats,
  other, BaseConfig, Store,
}
use cache.Store.Contract.{Command, exec}
use cache.Null.{null_store, error_store}
use cache.Memory.{memory_store, new_memory_store}
use cache.File.Directory.{file_store, new_file_store}
use cache.Shaping.Wrap.{
  wrap_store, validate_base_config, with_shaping, new_encrypting_store, encrypting_store,
  shaping_store,
}
use cache.Factory.{
  Platform, StoreConfig, finish, with_defaults, new_store_for_driver, removed, open_memory,
}

module _ (p : Platform) where
  with_shaping-driver :
      {W : Type 0} (s : Store W) (cfg : BaseConfig) → (with_shaping p.gzip s cfg).driver ≡ s.driver
  unfolding with_shaping shaping_store
  with_shaping-driver s cfg = ground arith

  new_encrypting_store-driver :
      {W : Type 0} (s t : Store W) (key : Bytes)
      → new_encrypting_store p.read_random p.crypto s key ≡ ok t
      → t.driver ≡ s.driver
  unfolding new_encrypting_store encrypting_store
  new_encrypting_store-driver s t key h = elim (Option-cases (p.crypto.new_cipher key)) [
    | inl bad ↦ absurd (ground arith)
    | inr (block, good) ↦ elim (Result-cases (p.crypto.new_gcm block)) [
      | inr (e, bad) ↦ absurd (ground arith)
      | inl (aead, sealed) ↦ ground arith
    ]
  ]

  finish-driver :
      {W : Type 0} (d : Driver) (s : Store W) (cfg : BaseConfig)
      → s.driver ≡ d
      → (finish p d s cfg).driver ≡ d
  unfolding finish wrap_store error_store
  finish-driver d s cfg h =
      elim (Result-cases (
        new_encrypting_store p.read_random p.crypto (with_shaping p.gzip s cfg)
          cfg.encryption_key)) [
            | inr (e, bad) ↦ ground (arith, with_shaping-driver s cfg)
            | inl (t, good) ↦ ground (
              arith,
              with_shaping-driver s cfg,
              new_encrypting_store-driver (with_shaping p.gzip s cfg) t cfg.encryption_key good,
            )
          ]

  finish-invalid :
      {W : Type 0} (d : Driver) (s : Store W) (cfg : BaseConfig) (e : Error) (c : Command) (w : W)
      → validate_base_config cfg ≡ some e
      → exec (finish p d s cfg) c w ≡ (err e, w)
  unfolding finish wrap_store exec error_store
  finish-invalid d s cfg e c w h = ground (arith, h)

  -- The store that is opened for a driver, whatever the configuration, reports that driver, also
  -- where it is a store of errors.
  pub new_store_for_driver-driver :
      (d : Driver) (cfg : StoreConfig) → (new_store_for_driver p d cfg).store.driver ≡ d
  unfolding new_store_for_driver removed open_memory error_store
  new_store_for_driver-driver null cfg =
      finish-driver null null_store (with_defaults p cfg).base (unfold null_store in refl)
  new_store_for_driver-driver file cfg =
      finish-driver file _ (with_defaults p cfg).base (unfold new_file_store file_store in refl)
  new_store_for_driver-driver memory cfg =
      finish-driver memory _ (with_defaults p cfg).base
        (unfold new_memory_store memory_store in refl)
  new_store_for_driver-driver memcached cfg = refl
  new_store_for_driver-driver dynamo cfg = refl
  new_store_for_driver-driver sql cfg = refl
  new_store_for_driver-driver redis cfg = refl
  new_store_for_driver-driver nats cfg = refl
  new_store_for_driver-driver (other name) cfg = refl

  -- The drivers that this library opens by itself.
  abbrev pub is_root : Driver → Bool
  is_root null = true
  is_root file = true
  is_root memory = true
  is_root _ = false

  -- A driver of the library with an invalid configuration gives a store whose every operation
  -- fails with the error of the configuration and changes nothing.
  pub new_store_for_driver-invalid :
      (d : Driver) (cfg : StoreConfig) (e : Error) (c : Command)
      (w : (new_store_for_driver p d cfg).State)
      → is_root d ≡ true
      → validate_base_config (with_defaults p cfg).base ≡ some e
      → exec (new_store_for_driver p d cfg).store c w ≡ (err e, w)
  unfolding new_store_for_driver open_memory
  new_store_for_driver-invalid null cfg e c w root h =
      finish-invalid null _ (with_defaults p cfg).base e c w h
  new_store_for_driver-invalid file cfg e c w root h =
      finish-invalid file _ (with_defaults p cfg).base e c w h
  new_store_for_driver-invalid memory cfg e c w root h =
      finish-invalid memory _ (with_defaults p cfg).base e c w h
  new_store_for_driver-invalid memcached cfg e c w root h = absurd (ground (arith, root))
  new_store_for_driver-invalid dynamo cfg e c w root h = absurd (ground (arith, root))
  new_store_for_driver-invalid sql cfg e c w root h = absurd (ground (arith, root))
  new_store_for_driver-invalid redis cfg e c w root h = absurd (ground (arith, root))
  new_store_for_driver-invalid nats cfg e c w root h = absurd (ground (arith, root))
  new_store_for_driver-invalid (other name) cfg e c w root h = absurd (ground (arith, root))
