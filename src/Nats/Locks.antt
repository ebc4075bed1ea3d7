-- ===== src/Nats/Locks.antt =====
-- LockAcquire and LockRelease of driver/natscache/store.go.
use cache.Prelude.{
  ℕ, ◌/◌, Bool, true, false, not, ◌||◌, Option, none, some, Bytes, equal, leb_ℤ, ℤ, pos,
  is_positive, if◌then◌else◌,
}
use cache.Store.{Result, ok, err, Act, pure, fail}
use cache.Nats.Bucket.{Answer, answered, failed, Entry, KeyValue, World, ask}
use cache.Nats.{
  NatsStore, Envelope, is_miss, is_exists, decode_envelope, is_expired, encode_envelope, cache_key,
  connected, created,
}

module _ (kv : KeyValue) (s : NatsStore) where
  -- Whether an acquire may take over what it read.
  abbrev pub is_taken : Option Envelope → World kv → Bool
  is_taken none w = true
  is_taken (some env) w =
      not (is_positive env.expires_at) || leb_ℤ (pos (w.now / 1000000)) env.expires_at

  abbrev pub take_over : Bytes → Bytes → ℕ → Result (Option Envelope) → Act (World kv) Bool
  take_over key body revision (err e) w = (err e, w)
  take_over key body revision (ok o) w =
      let update = ask kv (kv.update key body revision) (created kv s) w in
      if is_taken o w then (ok false, w) else update

  -- LockAcquire from the answer of its Get on.
  abbrev pub acquire_from : Bytes → Bytes → Answer Entry → Act (World kv) Bool
  acquire_from key body (failed x) =
      if is_miss x then ask kv (kv.create key body) (created kv s) else fail x.error
  acquire_from key body (answered entry) =
      take_over key body entry.revision (decode_envelope s.unmarshal entry.value)

  unfoldable pub lock_acquire : Bytes → Bytes → ℤ → Act (World kv) Bool
  unfolding encode_envelope decode_envelope cache_key
  lock_acquire key owner ttl = connected kv s (λ w.
      let body = encode_envelope kv s owner ttl w in
      let in_bucket = ask kv (kv.create (cache_key kv s key) owner) (created kv s) w in
      let in_envelope =
        ask kv (kv.get (cache_key kv s key)) (acquire_from (cache_key kv s key) body) w in
      if s.bucket_ttl then in_bucket else in_envelope)

  abbrev deleted : Answer (Unit {0}) → Act (World kv) Bool
  deleted (answered u) = pure true
  deleted (failed x) = if is_miss x || is_exists x then pure false else fail x.error

  -- The owner that a body names: none where its envelope is past its end.
  abbrev owner_in : Bytes → Result (Option Envelope) → World kv → Result (Option Bytes)
  owner_in raw (err e) w = err e
  owner_in raw (ok none) w = ok (some raw)
  owner_in raw (ok (some env)) w = ok (if is_expired kv s env w then none else some env.value)

  abbrev pub owner_of : Entry → World kv → Result (Option Bytes)
  owner_of entry w =
      if s.bucket_ttl
      then ok (some entry.value)
      else owner_in entry.value (decode_envelope s.unmarshal entry.value) w

  abbrev delete_owned : Bytes → Bytes → ℕ → Result (Option Bytes) → Act (World kv) Bool
  delete_owned key owner revision (err e) = fail e
  delete_owned key owner revision (ok none) = pure false
  delete_owned key owner revision (ok (some body)) =
      if equal body owner then ask kv (kv.delete key (some revision)) deleted else pure false

  abbrev pub release_from : Bytes → Bytes → Answer Entry → Act (World kv) Bool
  release_from key owner (failed x) w = if is_miss x then (ok false, w) else (err x.error, w)
  release_from key owner (answered entry) w =
      delete_owned key owner entry.revision (owner_of entry w) w

  unfoldable pub lock_release : Bytes → Bytes → Act (World kv) Bool
  unfolding decode_envelope cache_key
  lock_release key owner =
      connected kv s
        (ask kv (kv.get (cache_key kv s key)) (release_from (cache_key kv s key) owner))
