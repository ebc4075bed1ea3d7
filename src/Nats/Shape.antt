-- ===== src/Nats/Shape.antt =====
-- What an entry of the bucket holds for the store of driver/natscache/store.go, and what its reads
-- and writes make of the entries of a table, where no other client acts.
use cache.Prelude.{
  ℕ, ◌<◌, ◌≡◌, ◌≢◌, inl, inr, refl, ap, ◌∙◌, All, true, false, Option, none, some, [], arith, Bytes,
  equal, equal_iff, ℤ, pos_part, two63, Bool-cases, Option-cases,
}
use cache.Base64.{IsByte}
use cache.Store.{Error, Result, ok, err, Result-cases, ttl_or}
use cache.Store.Spec.{Table, assign}
use cache.Nats.Bucket.{Answer, key_value_put, Entry, KeyValue, World, Puts, Removes}
use cache.Nats.{NatsStore, Envelope, decode_envelope, body_of, cache_key, is_expired}
use cache.Nats.Locks.{owner_of}
use cache.Nats.Records.{equal-cache_key, decode_envelope-encode_envelope}

module _ (kv : KeyValue) (live : kv.State → Bytes → Option Entry) (s : NatsStore) where
  -- A bucket between whose calls nothing happens.
  abbrev pub at : kv.State → ℕ → World kv
  at b now = record { bucket = b; interludes = []; now = now }

  abbrev pub IsKey : Bytes → Type 0
  IsKey k = All IsByte k

  pub data Shape (e : Entry) (b : kv.State) (now : ℕ) : Type 0 where
    in_bucket : s.bucket_ttl ≡ true → Shape e b now
    plain : s.bucket_ttl ≡ false → decode_envelope s.unmarshal e.value ≡ ok none → Shape e b now
    current :
        (env : Envelope)
        → s.bucket_ttl ≡ false
        → decode_envelope s.unmarshal e.value ≡ ok (some env)
        → is_expired kv s env (at b now) ≡ false
        → Shape e b now
    expired :
        (env : Envelope)
        → s.bucket_ttl ≡ false
        → decode_envelope s.unmarshal e.value ≡ ok (some env)
        → is_expired kv s env (at b now) ≡ true
        → Shape e b now
    broken :
        (x : Error)
        → s.bucket_ttl ≡ false
        → decode_envelope s.unmarshal e.value ≡ err x
        → Shape e b now

  pub shape_of : (e : Entry) (b : kv.State) (now : ℕ) → Shape e b now
  shape_of e b now = elim (Bool-cases s.bucket_ttl) [
    | inl kept ↦ in_bucket kept
    | inr own ↦ elim (Result-cases (decode_envelope s.unmarshal e.value)) [
      | inr (x, bad) ↦ broken x own bad
      | inl (o, good) ↦ elim (Option-cases o) [
        | inl bare ↦ plain own (good ∙ ap ok bare)
        | inr (env, is_env) ↦ elim (Bool-cases (is_expired kv s env (at b now))) [
          | inl gone ↦ expired env own (good ∙ ap ok is_env) gone
          | inr alive ↦ current env own (good ∙ ap ok is_env) alive
        ]
      ]
    ]
  ]

  abbrev content : Option Entry → kv.State → ℕ → Result (Option Bytes)
  content none b now = ok none
  content (some e) b now = owner_of kv s e (at b now)

  -- The bucket holds the entries of a table under their names; no counter is empty.
  pub record Holds (b : kv.State) (now : ℕ) (m : Table) : Type 0 where
    pub at_key : (j : Bytes) → IsKey j → content (live b (cache_key kv s j)) b now ≡ ok (m j)
    pub full : (j : Bytes) → m j ≢ some []

  body-content :
      (v : Bytes) (t : ℤ) (b c : kv.State) (now n : ℕ)
      → now < two63
      → pos_part (ttl_or t s.ttl) < two63
      → content
          (some (record {
            value = body_of kv s v t (at b now);
            revision = n;
            operation = key_value_put;
          }))
          c
          now
        ≡ ok (some v)
  unfolding body_of
  body-content v t b c now n time fits = elim (Bool-cases s.bucket_ttl) [
    | inl kept ↦ ground arith
    | inr own ↦ ground (arith, decode_envelope-encode_envelope kv s v t (at b now) time fits)
  ]

  -- What an entry holds does not depend on the bucket around it.
  content-bucket : (o : Option Entry) (b c : kv.State) (now : ℕ) → content o b now ≡ content o c now
  content-bucket none b c now = refl
  content-bucket (some e) b c now = elim (shape_of e b now) [
    | in_bucket kept ↦ ground arith
    | plain own d ↦ ground arith
    | current env own d alive ↦ ground arith
    | expired env own d gone ↦ ground arith
    | broken x own d ↦ ground arith
  ]

  module _ (now : ℕ) (time : now < two63) where
    pub put-Holds :
        (k v : Bytes) (t : ℤ) (b : kv.State) (m : Table) (r : Answer ℕ × kv.State)
        → pos_part (ttl_or t s.ttl) < two63
        → IsKey k
        → v ≢ []
        → Holds b now m
        → Puts kv live (cache_key kv s k) (body_of kv s v t (at b now)) b r
        → Holds r.1 now (assign k (some v) m)
    put-Holds k v t b m r fits key full h (n, done, put) = record {
      at_key = λ j key'. elim (Bool-cases (equal k j)) [
        | inl same ↦ ground (
          arith,
          put (cache_key kv s j),
          equal-cache_key kv s k j key key',
          body-content v t b r.1 now n time fits,
        )
        | inr other ↦ ground (
          arith,
          put (cache_key kv s j),
          equal-cache_key kv s k j key key',
          content-bucket (live b (cache_key kv s j)) b r.1 now,
          h.at_key j key',
        )
      ];
      full = λ j. ground (arith, h.full j);
    }

    pub remove-Holds :
        (k : Bytes) (b : kv.State) (m : Table) (r : Answer (Unit {0}) × kv.State)
        → IsKey k
        → Holds b now m
        → Removes kv live (cache_key kv s k) b r
        → Holds r.1 now (assign k none m)
    remove-Holds k b m r key h (done, gone) = record {
      at_key = λ j key'. ground (
        arith,
        gone (cache_key kv s j),
        equal-cache_key kv s k j key key',
        content-bucket (live b (cache_key kv s j)) b r.1 now,
        h.at_key j key',
      );
      full = λ j. ground (arith, h.full j);
    }

    -- Removing what is not there.
    pub absent-Holds :
        (k : Bytes) (b : kv.State) (m : Table)
        → m k ≡ none
        → Holds b now (assign k none m)
        → Holds b now m
    absent-Holds k b m absent h = record {
      at_key = λ j key. ground (arith, h.at_key j key, equal_iff k j, absent);
      full = λ j. ground (arith, h.full j, equal_iff k j, absent);
    }
