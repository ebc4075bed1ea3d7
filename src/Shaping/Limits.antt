-- ===== src/Shaping/Limits.antt =====
-- The size policy of cachecore/shaping.go, and values that carry the mark of an envelope.
use cache.Prelude.{
  ℕ, ◌≡◌, ◌≢◌, true, false, some, ◌∷◌, ◌++◌, arith, Bytes, length, ℤ, Option-cases, ◌⊎◌, inl, inr,
  equal,
}
use cache.Store.{
  Error, Result-cases, ok, err, unsupported_codec, CompressionCodec, compression_none,
  compression_gzip, Store,
}
use cache.Store.Contract.{Recalls}
use cache.Shaping.Value.{
  Gzip, GzipLaws, encode_value, decode_value, exceeds, is_marked, compression_magic,
}
use cache.Shaping.RoundTrip.{decode_value-encode_value}
use cache.Shaping.Wrap.{shaping_store}

module _ (gzip : Gzip) where
  encode_value-within :
      (codec : CompressionCodec) (max : ℤ) (v b : Bytes)
      → encode_value gzip codec max v ≡ ok b
      → (exceeds max (length v) ≡ false) × (exceeds max (length b) ≡ false)
  unfolding encode_value
  encode_value-within codec max v b h = ground arith

  decode_value-within :
      (body v : Bytes) (max : ℤ)
      → decode_value gzip body max ≡ ok v
      → exceeds max (length v) ≡ false
  unfolding decode_value
  decode_value-within body v max h = ground arith

  -- With gzip, or for a value that does not begin with the mark of an envelope: Set and Add either
  -- both fail and leave the backend as it is, or both hand the backend one body, where the value
  -- and the body are within the maximum and the body decodes to the value. With compression off,
  -- they fail only for a value over the maximum.
  pub shaping_store-writes :
      {W : Type 0} (inner : Store W) (codec : CompressionCodec) (max : ℤ) (k v : Bytes) (ttl : ℤ)
      (w : W)
      → GzipLaws gzip
      → (codec ≡ compression_gzip) ⊎ (is_marked compression_magic v ≡ false)
      → ((e : Error) × ((shaping_store gzip inner codec max).set k v ttl w ≡ (err e, w))
          × ((shaping_store gzip inner codec max).add k v ttl w ≡ (err e, w))
          × (codec ≡ compression_none → exceeds max (length v) ≡ true))
        ⊎ ((b : Bytes) × ((shaping_store gzip inner codec max).set k v ttl w ≡ inner.set k b ttl w)
            × ((shaping_store gzip inner codec max).add k v ttl w ≡ inner.add k b ttl w)
            × (exceeds max (length v) ≡ false)
            × (exceeds max (length b) ≡ false)
            × (decode_value gzip b max ≡ ok v))
  unfolding shaping_store
  shaping_store-writes inner codec max k v ttl w laws kind =
      elim (Result-cases (encode_value gzip codec max v)) [
        | inr (e, refused) ↦ inl (
          e,
          ground (arith, refused),
          ground (arith, refused),
          λ off. unfold encode_value in ground (arith, refused, off),
        )
        | inl (b, made) ↦
            let (small, fits) = encode_value-within codec max v b made in
            inr (
              b,
              ground (arith, made),
              ground (arith, made),
              small,
              fits,
              decode_value-encode_value gzip laws codec max v b made kind,
            )
      ]

  -- Whatever the backend holds under a key, compressed or not, a Get that succeeds returns a value
  -- within the maximum.
  pub shaping_store-get_within :
      {W : Type 0} (inner : Store W) (codec : CompressionCodec) (max : ℤ) (k v : Bytes) (w : W)
      → ((shaping_store gzip inner codec max).get k w).0 ≡ ok (some v)
      → exceeds max (length v) ≡ false
  unfolding shaping_store
  shaping_store-get_within inner codec max k v w h = elim (Result-cases (inner.get k w).0) [
    | inr (e, c) ↦ ground arith
    | inl (o, c) ↦ elim (Option-cases o) [
      | inl miss ↦ ground arith
      | inr (body, hit) ↦ ground (arith, decode_value-within body v max)
    ]
  ]

  -- With a size limit and neither compression nor encryption, a value that begins with CMP1 and a
  -- byte other than g is stored without an error, and every Get of it then fails.
  pub shaping_store-marked_value_lost :
      {W : Type 0} (inner : Store W) (max : ℤ) (k p : Bytes) (c : ℕ) (ttl : ℤ) (w : W)
      → Recalls (λ _. Unit {0}) inner
      → c ≢ b'g'
      → ((shaping_store gzip inner compression_none max).set k (compression_magic ++ c ∷ p) ttl w).0
        ≡ ok tt
      → ((shaping_store gzip inner compression_none max).get k
          ((shaping_store gzip inner compression_none max).set k
            (compression_magic ++ c ∷ p)
            ttl
            w).1).0
        ≡ err unsupported_codec
  unfolding shaping_store encode_value decode_value is_marked equal
  shaping_store-marked_value_lost inner max k p c ttl w recalls other h =
      ground (arith, recalls k (compression_magic ++ c ∷ p) ttl w tt)
