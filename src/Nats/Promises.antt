-- ===== src/Nats/Promises.antt =====
-- What a command of a client gets from the store of driver/natscache/store.go where it is the only
-- client of a bucket that answers every call: reads and writes.
use cache.Prelude.{
  ℕ, ◌<◌, ◌≡◌, ◌≢◌, inl, inr, refl, true, false, Option, none, some, [], arith, Bytes, equal_refl,
  ℤ, pos_part, two63, Option-cases,
}
use cache.Store.{Result, ok, ttl_or}
use cache.Store.Contract.{Command, Reply, found, done, flag, exec}
use cache.Store.Spec.{Table, assign, spec_step}
use cache.Nats.Bucket.{KeyValue, World, Entry, ServiceLaws}
use cache.Nats.{NatsStore, cache_key, body_of, get, set, add, delete}
use cache.Nats.Listing.{nats_store}
use cache.Nats.Shape.{
  at, IsKey, shape_of, in_bucket, plain, current, expired, broken, Holds, put-Holds, remove-Holds,
  absent-Holds,
}

module _ (kv : KeyValue) (live : kv.State → Bytes → Option Entry) (laws : ServiceLaws kv live)
    (s : NatsStore) (up : s.connected ≡ true) (now : ℕ) (time : now < two63) where
  abbrev pub here : kv.State → World kv
  here b = at kv live s b now

  abbrev pub Keeps : kv.State → Table → Type 0
  Keeps b m = Holds kv live s b now m

  -- A Get; afterwards nothing that is past its end is left under the key.
  pub record Got (k : Bytes) (b : kv.State) (m : Table) : Type 0 where
    pub bucket : kv.State
    pub gets : get kv s k (here b) ≡ (ok (m k), here bucket)
    pub keeps : Keeps bucket m
    pub gone : m k ≡ none → live bucket (cache_key kv s k) ≡ none

  pub get_lem : (k : Bytes) (b : kv.State) (m : Table) → IsKey kv live s k → Keeps b m → Got k b m
  unfolding get
  get_lem k b m key h = elim (Option-cases (live b (cache_key kv s k))) [
    | inl absent ↦
        let (x, missed, kind) = laws.get-absent (cache_key kv s k) b absent in
        record {
          bucket = b;
          gets = ground (arith, missed, kind, h.at_key k key);
          keeps = h;
          gone = λ nothing. absent;
        }
    | inr (e, there) ↦
        let (got, op, positive) = laws.get-present (cache_key kv s k) b e there in
        elim (shape_of kv live s e b now) [
          | in_bucket kept ↦ record {
            bucket = b;
            gets = ground (arith, got, op, h.at_key k key);
            keeps = h;
            gone = λ nothing. absurd (ground (arith, h.at_key k key));
          }
          | plain own d ↦ record {
            bucket = b;
            gets = ground (arith, got, op, h.at_key k key);
            keeps = h;
            gone = λ nothing. absurd (ground (arith, h.at_key k key));
          }
          | current env own d alive ↦ record {
            bucket = b;
            gets = ground (arith, got, op, h.at_key k key);
            keeps = h;
            gone = λ nothing. absurd (ground (arith, h.at_key k key));
          }
          | expired env own d past ↦
              let removes = laws.purge-any (cache_key kv s k) b in
              let nothing : m k ≡ none = ground (arith, h.at_key k key) in
              record {
                bucket = (kv.purge (cache_key kv s k) b).1;
                gets = ground (arith, got, op, removes.0);
                keeps =
                    absent-Holds kv live s now time k (kv.purge (cache_key kv s k) b).1 m nothing (
                      remove-Holds kv live s now time k b m (kv.purge (cache_key kv s k) b) key h
                        removes);
                gone = λ same.
                    ground (arith, removes.1 (cache_key kv s k), equal_refl (cache_key kv s k));
              }
          | broken x own d ↦ absurd (ground (arith, h.at_key k key))
        ]
  ]

  -- A command gives the reply of the abstract store, and the bucket then holds its table.
  pub record Refines (c : Command) (b : kv.State) (m : Table) : Type 0 where
    pub reply : Result Reply
    pub table : Table
    pub bucket : kv.State
    pub promised : spec_step c m ≡ (reply, table)
    pub does : exec (nats_store kv s) c (here b) ≡ (reply, here bucket)
    pub keeps : Keeps bucket table

  pub set-Refines :
      (k v : Bytes) (t : ℤ) (b : kv.State) (m : Table)
      → IsKey kv live s k
      → v ≢ []
      → pos_part (ttl_or t s.ttl) < two63
      → Keeps b m
      → Refines (Command.set k v t) b m
  unfolding exec nats_store set spec_step
  set-Refines k v t b m key full fits h =
      let body = body_of kv s v t (here b) in
      let puts = laws.put-lem (cache_key kv s k) body b in
      record {
        reply = ok done;
        table = assign k (some v) m;
        bucket = (kv.put (cache_key kv s k) body b).1;
        promised = refl;
        does = ground (arith, puts.1);
        keeps =
            put-Holds kv live s now time k v t b m (kv.put (cache_key kv s k) body b) fits key full
              h puts;
      }

  pub add-Refines :
      (k v : Bytes) (t : ℤ) (b : kv.State) (m : Table)
      → IsKey kv live s k
      → v ≢ []
      → pos_part (ttl_or t s.ttl) < two63
      → Keeps b m
      → Refines (Command.add k v t) b m
  unfolding exec nats_store add spec_step
  add-Refines k v t b m key full fits h =
      let got = get_lem k b m key h in
      let body = body_of kv s v t (here got.bucket) in
      let gets = got.gets in
      elim (Option-cases (m k)) [
        | inl absent ↦
            let puts = laws.create-absent (cache_key kv s k) body got.bucket (got.gone absent) in
            record {
              reply = ok (flag true);
              table = assign k (some v) m;
              bucket = (kv.create (cache_key kv s k) body got.bucket).1;
              promised = ground (arith, absent);
              does = ground (arith, gets, absent, puts.1);
              keeps =
                  put-Holds kv live s now time k v t got.bucket m
                    (kv.create (cache_key kv s k) body got.bucket) fits key full got.keeps puts;
            }
        | inr (old, present) ↦ record {
          reply = ok (flag false);
          table = m;
          bucket = got.bucket;
          promised = ground (arith, present);
          does = ground (arith, gets, present);
          keeps = got.keeps;
        }
      ]

  pub delete-Refines :
      (k : Bytes) (b : kv.State) (m : Table)
      → IsKey kv live s k
      → Keeps b m
      → Refines (Command.delete k) b m
  unfolding exec nats_store delete spec_step
  delete-Refines k b m key h =
      let removes = laws.delete-any (cache_key kv s k) b in
      record {
        reply = ok done;
        table = assign k none m;
        bucket = (kv.delete (cache_key kv s k) none b).1;
        promised = refl;
        does = ground (arith, removes.0);
        keeps =
            remove-Holds kv live s now time k b m (kv.delete (cache_key kv s k) none b) key h
              removes;
      }

  pub get-Refines :
      (k : Bytes) (b : kv.State) (m : Table)
      → IsKey kv live s k
      → Keeps b m
      → Refines (Command.get k) b m
  unfolding exec nats_store spec_step
  get-Refines k b m key h =
      let got = get_lem k b m key h in
      let gets = got.gets in
      record {
        reply = ok (found (m k));
        table = m;
        bucket = got.bucket;
        promised = refl;
        does = ground (arith, gets);
        keeps = got.keeps;
      }
