-- ===== src/Nats/Counter.antt =====
-- Increment and Decrement of driver/natscache/store.go.
use cache.Prelude.{
  ℕ, zero, suc, ◌||◌, Option, none, some, [], ◌∷◌, Bytes, ◌==◌, ℤ, pos, add64, neg64, if◌then◌else◌,
}
use cache.Decimal.{format_int, parse_int}
use cache.Store.{Result, ok, err, text, not_numeric, Act, pure, fail, lift, ◌>>=◌}
use cache.Nats.Bucket.{Answer, answered, failed, Entry, KeyValue, World, ask}
use cache.Nats.{
  NatsStore, Envelope, is_miss, is_exists, decode_envelope, is_expired, body_of, cache_key,
  connected, is_removal, purge_then,
}

module _ (kv : KeyValue) (s : NatsStore) where
  -- The number in a text, 0 in an empty one.
  abbrev pub number_in : Bytes → Bytes → Result ℤ
  number_in key [] = ok (pos 0)
  number_in key (c ∷ raw) = elim (parse_int (c ∷ raw)) [
    | none ↦ err (not_numeric key)
    | some n ↦ ok n
  ]

  abbrev pub with_revision : ℕ → Result ℤ → Result (ℤ × ℕ)
  with_revision revision (err e) = err e
  with_revision revision (ok n) = ok (n, revision)

  -- The number that an attempt counts from, and the revision that it has; 0 where a Create is due.
  abbrev pub counted : Bytes → Bytes → Entry → Result (Option Envelope) → Act (World kv) (ℤ × ℕ)
  counted key at entry (err e) w = (err e, w)
  counted key at entry (ok none) w = (with_revision entry.revision (number_in key entry.value), w)
  counted key at entry (ok (some env)) w =
      let expired = purge_then kv s at (pure (pos 0, 0)) w in
      if is_expired kv s env w
      then expired
      else (with_revision entry.revision (number_in key env.value), w)

  abbrev pub current : Bytes → Bytes → Answer Entry → Act (World kv) (ℤ × ℕ)
  current key at (failed x) = if is_miss x then pure (pos 0, 0) else fail x.error
  current key at (answered entry) =
      if is_removal kv s entry.operation
      then pure (pos 0, 0)
      else if s.bucket_ttl
      then lift (with_revision entry.revision (number_in key entry.value))
      else counted key at entry (decode_envelope s.unmarshal entry.value)

  -- The end of an attempt; `none` makes the loop go on.
  abbrev pub count_created : ℤ → Answer ℕ → Act (World kv) (Option ℤ)
  count_created next (answered n) = pure (some next)
  count_created next (failed x) = if is_exists x then pure none else fail x.error

  abbrev pub count_updated : ℤ → Answer ℕ → Act (World kv) (Option ℤ)
  count_updated next (answered n) = pure (some next)
  count_updated next (failed x) = if is_exists x || is_miss x then pure none else fail x.error

  unfoldable pub store_count : Bytes → ℤ → ℤ → ℕ → Act (World kv) (Option ℤ)
  unfolding body_of
  store_count at next ttl revision w =
      let body = body_of kv s (format_int next) ttl w in
      let create = ask kv (kv.create at body) (count_created next) w in
      let update = ask kv (kv.update at body revision) (count_updated next) w in
      if revision == 0 then create else update

  -- One turn of the loop of Increment.
  unfoldable pub attempt_increment : Bytes → ℤ → ℤ → Act (World kv) (Option ℤ)
  unfolding decode_envelope cache_key store_count
  attempt_increment key delta ttl = do
    c ← ask kv (kv.get (cache_key kv s key)) (current key (cache_key kv s key))
    store_count (cache_key kv s key) (add64 c.0 delta) ttl c.1

  unfoldable pub increment_loop : ℕ → Bytes → ℤ → ℤ → Act (World kv) ℤ
  unfolding attempt_increment
  increment_loop zero key delta ttl = fail (text "nats increment exceeded retry limit")
  increment_loop (suc attempts) key delta ttl = do
    o ← attempt_increment key delta ttl
    elim o [ some n ↦ pure n | none ↦ increment_loop attempts key delta ttl ]

  unfoldable pub increment : Bytes → ℤ → ℤ → Act (World kv) ℤ
  unfolding increment_loop
  increment key delta ttl = connected kv s (increment_loop 16 key delta ttl)

  unfoldable pub decrement : Bytes → ℤ → ℤ → Act (World kv) ℤ
  unfolding increment
  decrement key delta ttl = increment key (neg64 delta) ttl
