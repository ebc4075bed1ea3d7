-- ===== src/Shaping/Stores.antt =====
-- WrapStore of cachecore/shaping.go as a whole: a wrapped store recalls what it stores, and a
-- configuration error fails every operation.
use cache.Prelude.{
  ℕ, ◌<◌, ◌≡◌, ◌≢◌, refl, pos, ltb_ℤ, ap, ◌⊎◌, inl, inr, Bool, true, false, none, some, arith,
  Bytes, equal, length, ltb, ℤ, if◌then◌else◌, Bool-cases, Option-cases,
}
use cache.Store.{
  Error, Result, Result-cases, ok, err, CompressionCodec, unset, compression_none, compression_gzip,
  compression_snappy, named, Act, Store, BaseConfig,
}
use cache.Store.Contract.{Command, exec, Recalls}
use cache.Shaping.Value.{Gzip, GzipLaws, is_marked, compression_magic}
use cache.Shaping.Envelope.{Aead, AeadLaws, Crypto, encrypt, decrypt}
use cache.Shaping.Wrap.{
  is_supported, validate_base_config, shaped, shaping_store, encrypting_store, new_encrypting_store,
  codec_of, with_shaping, wrap_store,
}
use cache.Shaping.RoundTrip.{decode_value-encode_value, decrypt-encrypt}

-- The ciphers that the library makes are lawful.
abbrev pub CryptoLaws : Crypto → Type 0
CryptoLaws crypto =
    (key : Bytes) (c : crypto.Cipher) (a : Aead)
    → crypto.new_cipher key ≡ some c
    → crypto.new_gcm c ≡ ok a
    → AeadLaws a

-- io.ReadFull fills the whole buffer or fails.
abbrev pub FullReads : {W : Type 0} → (ℕ → Act W Bytes) → Type 0
FullReads {W} read_random = (n : ℕ) (w : W) (x : Bytes) → (read_random n w).0 ≡ ok x → length x ≡ n

-- A wrapper recalls a value if its encoding decodes to the value and is one that the inner store
-- recalls.
shaped-Recalls :
    {W : Type 0} (P Q : Bytes → Type 0) (encode : Bytes → Act W Bytes)
    (decode : Bytes → Result Bytes) (inner : Store W)
    → ((v b : Bytes) (w : W) → Q v → (encode v w).0 ≡ ok b → P b × (decode b ≡ ok v))
    → Recalls P inner
    → Recalls Q (shaped encode decode inner)
unfolding shaped
shaped-Recalls P Q encode decode inner inverse recalls k v ttl w q h =
    elim (Result-cases (encode v w).0) [
      | inr (e, c) ↦ ground arith
      | inl (b, c) ↦
          let (p, d) = inverse v b w q c in
          rw c (ground (arith, d, recalls k b ttl (encode v w).1 p))
    ]

abbrev pub Unmarked : BaseConfig → Bytes → Type 0
Unmarked cfg v = (cfg.compression ≡ compression_gzip) ⊎ (is_marked compression_magic v ≡ false)

Recalls-if :
    {W : Type 0} (P : Bytes → Type 0) (b : Bool) (s t : Store W)
    → Recalls P s
    → Recalls P t
    → Recalls P (if b then s else t)
Recalls-if P true s t h k = h
Recalls-if P false s t h k = k

gzip_codec :
    (cfg : BaseConfig) (v : Bytes)
    → Unmarked cfg v
    → (codec_of cfg.compression ≡ compression_gzip) ⊎ (is_marked compression_magic v ≡ false)
gzip_codec cfg v (inl e) = inl (ap codec_of e)
gzip_codec cfg v (inr e) = inr e

with_shaping-Recalls :
    {W : Type 0} (gzip : Gzip)
    → GzipLaws gzip
    → (store : Store W) (cfg : BaseConfig) → Recalls (λ _. Unit {0}) store
    → Recalls (Unmarked cfg) (with_shaping gzip store cfg)
unfolding with_shaping
with_shaping-Recalls gzip laws store cfg recalls =
    Recalls-if (Unmarked cfg) _ _ _
      (unfold shaping_store in
        shaped-Recalls (λ _. Unit {0}) (Unmarked cfg) _ _ store
          (λ v b w q e. (tt, decode_value-encode_value gzip laws _ _ v b e (gzip_codec cfg v q)))
          recalls)
      (λ k v ttl w _ h. recalls k v ttl w tt h)

encrypt-unmarked :
    {W : Type 0} (read_random : ℕ → Act W Bytes) (aead : Aead) (v b : Bytes) (w : W)
    → (encrypt read_random aead v w).0 ≡ ok b
    → is_marked compression_magic b ≡ false
unfolding encrypt is_marked equal
encrypt-unmarked read_random aead v b w h = elim (Result-cases (read_random aead.nonce_size w).0) [
  | inr (e, c) ↦ ground arith
  | inl (n, c) ↦ ground arith
]

without_key : {n : ℕ} {P : Type 0} → (0 < n) ⊎ P → n ≡ 0 → P
without_key (inl h) e = absurd (omega arith)
without_key (inr p) e = p

module _ {W : Type 0} (gzip : Gzip) (crypto : Crypto) (read_random : ℕ → Act W Bytes)
    (gzip_laws : GzipLaws gzip) (crypto_laws : CryptoLaws crypto)
    (full : FullReads read_random) where
  encrypting-Recalls :
      (aead : Aead)
      → AeadLaws aead
      → (P : Bytes → Type 0) (inner : Store W)
      → ((x : Bytes) → is_marked compression_magic x ≡ false → P x)
      → Recalls P inner
      → Recalls (λ _. Unit {0}) (encrypting_store read_random inner aead)
  unfolding encrypting_store
  encrypting-Recalls aead laws P inner unmarked =
      shaped-Recalls P (λ _. Unit {0}) (encrypt read_random aead) (decrypt aead) inner
        (λ x b w _ e. (
          unmarked b (encrypt-unmarked read_random aead x b w e),
          decrypt-encrypt read_random aead laws full x b w e,
        ))

  wrap_store_made :
      (store : Store W) (cfg : BaseConfig)
      → (wrap_store read_random gzip crypto store cfg).1 ≡ none
      → ((length cfg.encryption_key ≡ 0)
          × ((wrap_store read_random gzip crypto store cfg).0 ≡ with_shaping gzip store cfg))
        ⊎ ((aead : Aead) × AeadLaws aead
            × ((wrap_store read_random gzip crypto store cfg).0
                ≡ encrypting_store read_random (with_shaping gzip store cfg) aead))
  unfolding wrap_store
  wrap_store_made store cfg h = elim (Option-cases (validate_base_config cfg)) [
    | inr (e, bad) ↦ ground arith
    | inl good ↦ elim (Bool-cases (ltb 0 (length cfg.encryption_key))) [
      | inl keyed ↦ elim (Option-cases (crypto.new_cipher cfg.encryption_key)) [
        | inl refused ↦ ground arith
        | inr (c, made) ↦ elim (Result-cases (crypto.new_gcm c)) [
          | inl (aead, sealed) ↦ inr (
            aead,
            crypto_laws cfg.encryption_key c aead made sealed,
            rw (good, keyed, made, sealed, wrap_store, new_encrypting_store),
          )
          | inr (e, broken) ↦ ground arith
        ]
      ]
      | inr bare ↦ inl (ground arith, rw (good, bare, wrap_store))
    ]
  ]

  wrap_store-Recalls :
      (store : Store W) (cfg : BaseConfig)
      → Recalls (λ _. Unit {0}) store
      → (wrap_store read_random gzip crypto store cfg).1 ≡ none
      → Recalls
          (λ v. (0 < length cfg.encryption_key) ⊎ Unmarked cfg v)
          (wrap_store read_random gzip crypto store cfg).0
  wrap_store-Recalls store cfg recalls h = elim (wrap_store_made store cfg h) [
    | inl (no_key, e) ↦ rw e (λ k v ttl w q s.
        with_shaping-Recalls gzip gzip_laws store cfg recalls k v ttl w (without_key q no_key) s)
    | inr (aead, laws, e) ↦ rw e (λ k v ttl w _ s.
        encrypting-Recalls aead laws (Unmarked cfg) _ (λ x u. inr u)
          (with_shaping-Recalls gzip gzip_laws store cfg recalls) k v ttl w tt s)
  ]

  -- Over a store that recalls what it stores, a value whose Set through the store that WrapStore
  -- made without an error succeeds is what a Get of the key then returns, for every value if gzip
  -- or encryption is on, and else for a value that does not begin with the mark of an envelope.
  pub wrap_store-get_set :
      (store : Store W) (cfg : BaseConfig) (k v : Bytes) (ttl : ℤ) (w : W)
      → Recalls (λ _. Unit {0}) store
      → (wrap_store read_random gzip crypto store cfg).1 ≡ none
      → (0 < length cfg.encryption_key) ⊎ Unmarked cfg v
      → ((wrap_store read_random gzip crypto store cfg).0.set k v ttl w).0 ≡ ok tt
      → ((wrap_store read_random gzip crypto store cfg).0.get k
          ((wrap_store read_random gzip crypto store cfg).0.set k v ttl w).1).0
        ≡ ok (some v)
  wrap_store-get_set store cfg k v ttl w recalls h kind s =
      wrap_store-Recalls store cfg recalls h k v ttl w kind s

-- What a configuration must not have: a negative size, a codec that is not one of the three, or a
-- key of another length than none, 16, 24 or 32.
abbrev pub IsInvalid : BaseConfig → Type 0
IsInvalid cfg =
    (ltb_ℤ cfg.max_value_bytes (pos 0) ≡ true)
    ⊎ ((cfg.compression ≢ unset)
        × (cfg.compression ≢ compression_none)
        × (cfg.compression ≢ compression_gzip))
    ⊎ ((length cfg.encryption_key ≢ 0)
        × (length cfg.encryption_key ≢ 16)
        × (length cfg.encryption_key ≢ 24)
        × (length cfg.encryption_key ≢ 32))

unsupported :
    (codec : CompressionCodec)
    → codec ≢ unset
    → codec ≢ compression_none
    → codec ≢ compression_gzip
    → is_supported codec ≡ false
unsupported unset a b c = absurd (a refl)
unsupported compression_none a b c = absurd (b refl)
unsupported compression_gzip a b c = absurd (c refl)
unsupported compression_snappy a b c = refl
unsupported (named name) a b c = refl

IsInvalid-refused :
    (cfg : BaseConfig) → IsInvalid cfg → (e : Error) × (validate_base_config cfg ≡ some e)
unfolding validate_base_config
IsInvalid-refused cfg bad = elim (Option-cases (validate_base_config cfg)) [
  | inr refused ↦ refused
  | inl passed ↦ absurd (elim bad [
    | inl negative ↦ ground (arith, passed, negative)
    | inr (inl (a, b, c)) ↦ ground (arith, passed, unsupported cfg.compression a b c)
    | inr (inr size) ↦ ground (arith, passed, size)
  ])
]

-- With a configuration that has a negative size, a codec that is not supported or a key of a length
-- that AES does not have, WrapStore reports an error, and gives a store of the same driver every
-- operation of which fails with that error and reaches no backend.
pub wrap_store-fails_closed :
    {W : Type 0} (gzip : Gzip) (crypto : Crypto) (read_random : ℕ → Act W Bytes) (store : Store W)
    (cfg : BaseConfig)
    → IsInvalid cfg
    → (e : Error) × ((wrap_store read_random gzip crypto store cfg).1 ≡ some e)
      × ((wrap_store read_random gzip crypto store cfg).0.driver ≡ store.driver)
      × ((c : Command) (w : W)
          → exec (wrap_store read_random gzip crypto store cfg).0 c w ≡ (err e, w))
unfolding wrap_store exec
wrap_store-fails_closed gzip crypto read_random store cfg bad =
    let (e, refused) = IsInvalid-refused cfg bad in
    (e, ground (arith, refused), ground (arith, refused), λ c w. ground (arith, refused))
