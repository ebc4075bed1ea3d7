-- ===== src/Nats/Records.antt =====
-- The keys and the envelopes of driver/natscache/store.go, read back.
use cache.Prelude.{
  ℕ, ◌<◌, ◌≡◌, ap, sym, ◌∙◌, All, false, some, [], ◌∷◌, ◌++◌, arith, Bytes, equal, equal_iff,
  length, drop, length-append, drop-append, ℤ, pos_part, two63, bits64, signed64,
}
use cache.Base64.{encode, decode-encode, IsByte, sextets}
use cache.Store.{Result, ok, ttl_or}
use cache.File.Record.{
  put_uint, uint_from, length-put_uint, uint_from-put_uint, take-part, drop-part, signed64-bits64,
}
use cache.Nats.Bucket.{KeyValue, World}
use cache.Nats.{
  NatsStore, encode_key_part, decode_cache_key, cache_key, decode_envelope, nats_envelope_magic,
  encode_envelope, expiry,
}

-- The code of a text that is not empty is never the one of the empty text.
encode-ne_empty : (c : ℕ) (s : Bytes) → equal (encode (c ∷ s)) (b'_' ∷ []) ≡ false
unfolding encode sextets equal
encode-ne_empty c [] = ground arith
encode-ne_empty c (d ∷ []) = ground arith
encode-ne_empty c (d ∷ e ∷ s) = ground arith

-- A key of bytes that was encoded for the bucket decodes to itself, the empty key included.
pub decode_cache_key-encode_key_part :
    (part : Bytes) → All IsByte part → decode_cache_key (encode_key_part part) ≡ some part
unfolding decode_cache_key encode_key_part equal
decode_cache_key-encode_key_part [] h = ground arith
decode_cache_key-encode_key_part (c ∷ part) h =
    rw (encode-ne_empty c part) (decode-encode (c ∷ part) h)

some-injective : (a b : Bytes) → some a ≡ some b → a ≡ b
some-injective a b h = ground (arith, h)

-- Keys of bytes that are stored under one name are equal.
same_key :
    (kv : KeyValue) (s : NatsStore) (k j : Bytes)
    → All IsByte k
    → All IsByte j
    → cache_key kv s k ≡ cache_key kv s j
    → k ≡ j
unfolding cache_key
same_key kv s k j hk hj h =
    let parts : encode_key_part k ≡ encode_key_part j =
      sym (drop-append s.scope_prefix (encode_key_part k))
      ∙ ap (drop (length s.scope_prefix)) h
      ∙ drop-append s.scope_prefix (encode_key_part j) in
    some-injective k j (
      sym (decode_cache_key-encode_key_part k hk)
      ∙ ap decode_cache_key parts
      ∙ decode_cache_key-encode_key_part j hj)

pub equal-cache_key :
    (kv : KeyValue) (s : NatsStore) (k j : Bytes)
    → All IsByte k
    → All IsByte j
    → equal (cache_key kv s k) (cache_key kv s j) ≡ equal k j
equal-cache_key kv s k j hk hj = ground (
  arith,
  equal_iff (cache_key kv s k) (cache_key kv s j),
  equal_iff k j,
  same_key kv s k j hk hj,
  ap (cache_key kv s),
)

decode_header :
    (unmarshal : Bytes → Result (Bytes × Bytes × ℤ)) (e : ℤ) (ends value : Bytes)
    → length ends ≡ 8
    → signed64 (uint_from 0 ends) ≡ e
    → decode_envelope unmarshal (nats_envelope_magic ++ (ends ++ value))
      ≡ ok (some (record { value = value; expires_at = e }))
unfolding decode_envelope equal
decode_header unmarshal e ends value eight reads = ground (
  arith,
  length-append ends value,
  take-part 8 ends value eight,
  drop-part 8 ends value eight,
  reads,
)

-- What the store writes reads back as the value and its end, in milliseconds, for a time of at most
-- 2^63 nanoseconds and a duration that an int64 holds.
pub decode_envelope-encode_envelope :
    (kv : KeyValue) (s : NatsStore) (value : Bytes) (ttl : ℤ) (w : World kv)
    → w.now < two63
    → pos_part (ttl_or ttl s.ttl) < two63
    → decode_envelope s.unmarshal (encode_envelope kv s value ttl w)
      ≡ ok (some (record { value = value; expires_at = expiry kv s ttl w }))
unfolding encode_envelope
decode_envelope-encode_envelope kv s value ttl w time fits =
    let e = expiry kv s ttl w in
    decode_header s.unmarshal e (put_uint 8 (bits64 e)) value (length-put_uint 8 (bits64 e)) (
      ap signed64 (uint_from-put_uint 8 (bits64 e) (omega arith))
      ∙ signed64-bits64 e (omega arith, omega arith))
