-- ===== src/Shaping/RoundTrip.antt =====
-- What Set writes through the wrappers of cachecore/shaping.go, Get reads back.
use cache.Prelude.{
  ℕ, ◌%◌, ◌≡◌, ◌⊎◌, inl, inr, true, false, some, ◌∷◌, ◌++◌, arith, Bytes, equal, length, take, ℤ,
  pos, negsuc, Option-cases, length-append, take-append, drop-append, drop-add, take_of_length-le,
}
use cache.Store.{Result-cases, ok, CompressionCodec, compression_none, compression_gzip, Act}
use cache.Shaping.Value.{
  Gzip, GzipLaws, encode_value, decode_value, is_marked, exceeds, read_limit, compression_magic,
}
use cache.Shaping.Envelope.{Aead, AeadLaws, encrypt, decrypt, encryption_magic}

-- A value fits where the maximum is not positive or not below its length.
take_limit :
    (max : ℤ) (n : ℕ) (v : Bytes)
    → exceeds max (length v) ≡ false
    → read_limit max ≡ some n
    → take n v ≡ v
take_limit (pos m) n v fits h = take_of_length-le n v (ground arith)
take_limit (negsuc m) n v fits h = ground arith

marked : (c : ℕ) (p : Bytes) → is_marked compression_magic (compression_magic ++ c ∷ p) ≡ true
unfolding is_marked equal
marked c p = ground arith

module _ (gzip : Gzip) (laws : GzipLaws gzip) where
  decode_value-envelope :
      (max : ℤ) (v p : Bytes)
      → gzip.compress v ≡ ok p
      → exceeds max (length v) ≡ false
      → exceeds max (length (compression_magic ++ b'g' ∷ p)) ≡ false
      → decode_value gzip (compression_magic ++ b'g' ∷ p) max ≡ ok v
  unfolding decode_value
  decode_value-envelope max v p c fits fits' = elim (Option-cases (read_limit max)) [
    | inl unlimited ↦
        rw (fits', marked, laws.opens-compress v p c, unlimited, laws.read_all-compress v p c, fits)
    | inr (n, limited) ↦ rw (
      fits',
      marked,
      laws.opens-compress v p c,
      limited,
      laws.read_all-limit v p n c,
      take_limit max n v fits limited,
      fits,
    )
  ]

-- With gzip: a value that encodes decodes to itself, whatever bytes it holds. Without compression:
-- if it does not carry the mark itself.
pub decode_value-encode_value :
    (gzip : Gzip)
    → GzipLaws gzip
    → (codec : CompressionCodec) (max : ℤ) (v b : Bytes) → encode_value gzip codec max v ≡ ok b
    → (codec ≡ compression_gzip) ⊎ (is_marked compression_magic v ≡ false)
    → decode_value gzip b max ≡ ok v
unfolding encode_value
decode_value-encode_value gzip laws compression_gzip max v b h either =
    elim (Result-cases (gzip.compress v)) [
      | inl (p, c) ↦ ground (arith, decode_value-envelope gzip laws max v p c)
      | inr (e, c) ↦ ground arith
    ]
decode_value-encode_value gzip laws compression_none max v b h (inr unmarked) =
    unfold decode_value in ground arith
decode_value-encode_value gzip laws compression_none max v b h (inl e) = absurd (cc)
decode_value-encode_value gzip laws _ max v b h either = ground arith

marked_sealed : (c : ℕ) (p : Bytes) → is_marked encryption_magic (encryption_magic ++ c ∷ p) ≡ true
unfolding is_marked equal
marked_sealed c p = ground arith

decrypt-envelope :
    (aead : Aead) (n c p : Bytes)
    → length n ≡ aead.nonce_size
    → aead.nonce_size ≡ 12
    → aead.unseal n c ≡ some p
    → decrypt aead (encryption_magic ++ (length n % 256) ∷ (n ++ c)) ≡ ok p
unfolding decrypt
decrypt-envelope aead n c p size gcm opens =
    let short : length n % 256 ≡ length n = omega arith in
    rw (marked_sealed, short)
      (ground (
        arith,
        length-append n c,
        take-append n c,
        drop-append n c,
        drop-add 5 (length n) (encryption_magic ++ length n ∷ (n ++ c)),
      ))

-- decrypt undoes encrypt, whatever bytes the value holds: an encrypted value is never mistaken for
-- a raw one. The nonce is a full read of the random source.
pub decrypt-encrypt :
    {W : Type 0} (read_random : ℕ → Act W Bytes) (aead : Aead)
    → AeadLaws aead
    → ((n : ℕ) (w : W) (x : Bytes) → (read_random n w).0 ≡ ok x → length x ≡ n)
    → (v b : Bytes) (w : W) → (encrypt read_random aead v w).0 ≡ ok b
    → decrypt aead b ≡ ok v
unfolding encrypt
decrypt-encrypt read_random aead laws full v b w h =
    elim (Result-cases (read_random aead.nonce_size w).0) [
      | inr (e, c) ↦ ground arith
      | inl (n, c) ↦
          let size : length n ≡ aead.nonce_size = full aead.nonce_size w n c in
          let body : b ≡ encryption_magic ++ (length n % 256) ∷ (n ++ aead.seal n v) =
            ground arith in
          rw body (
            decrypt-envelope aead n (aead.seal n v) v size laws.gcm_nonce
              (laws.unseal-seal n v size))
    ]
