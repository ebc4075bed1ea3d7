-- ===== src/Nats/Refines.antt =====
-- The store of driver/natscache/store.go implements the abstract store where it is the only client
-- of a bucket that answers every call.
use cache.Prelude.{
  ℕ, ◌<◌, ◌≡◌, ◌≢◌, refl, ap, All, true, Option, none, List, [], ◌∷◌, arith, Bytes, ℤ, pos_part,
  two63, neg64, has_prefix-append,
}
use cache.Base64.{IsByte}
use cache.Store.{ok, ttl_or}
use cache.Store.Contract.{Command, done, exec, run}
use cache.Store.Spec.{Table, assign_none, spec_step, spec_run}
use cache.Nats.Bucket.{KeyValue, Entry, ServiceLaws}
use cache.Nats.{encode_key_part, NatsStore, cache_key}
use cache.Nats.Counter.{decrement}
use cache.Nats.Listing.{nats_store}
use cache.Nats.Shape.{at, Holds}
use cache.Nats.Promises.{Keeps, Refines, set-Refines, add-Refines, delete-Refines, get-Refines}
use cache.Nats.Owners.{lock_acquire-Refines, lock_release-Refines}
use cache.Nats.Counts.{increment-Refines}
use cache.Nats.Flushes.{delete_many_lem, flush-Flushed}

-- What a client may send: keys of bytes, durations that an int64 holds, and no empty values, for
-- which the counters differ.
module _ (s : NatsStore) where
  abbrev InRange : ℤ → Type 0
  InRange t = pos_part (ttl_or t s.ttl) < two63

  abbrev pub Fits : Command → Type 0
  Fits (Command.get k) = All IsByte k
  Fits (Command.set k v t) = All IsByte k × (v ≢ []) × InRange t
  Fits (Command.add k v t) = All IsByte k × (v ≢ []) × InRange t
  Fits (Command.increment k d t) = All IsByte k × InRange t
  Fits (Command.decrement k d t) = All IsByte k × InRange t
  Fits (Command.delete k) = All IsByte k
  Fits (Command.delete_many ks) = All (All IsByte) ks
  Fits Command.flush = Unit
  Fits (Command.lock_acquire k o t) = All IsByte k × (o ≢ []) × InRange t
  Fits (Command.lock_release k o) = All IsByte k

module _ (kv : KeyValue) (live : kv.State → Bytes → Option Entry) (laws : ServiceLaws kv live)
    (s : NatsStore) (up : s.connected ≡ true) (now : ℕ) (time : now < two63) where
  delete_many-Refines :
      (ks : List Bytes) (b : kv.State) (m : Table)
      → All (All IsByte) ks
      → Keeps kv live laws s up now time b m
      → Refines kv live laws s up now time (Command.delete_many ks) b m
  unfolding exec nats_store spec_step
  delete_many-Refines ks b m keys h =
      let rest = delete_many_lem kv live laws s up now time ks b m keys h in
      let does = rest.does in
      record {
        reply = ok done;
        table = assign_none ks m;
        bucket = rest.bucket;
        promised = refl;
        does = ground (arith, does);
        keeps = rest.keeps;
      }

  flush-Refines :
      (b : kv.State) (m : Table)
      → Keeps kv live laws s up now time b m
      → Refines kv live laws s up now time Command.flush b m
  unfolding exec nats_store spec_step cache_key
  flush-Refines b m h =
      let rest = flush-Flushed kv live laws s up now time b in
      let does = rest.does in
      record {
        reply = ok done;
        table = λ j. none;
        bucket = rest.bucket;
        promised = refl;
        does = ground (arith, does);
        keeps = record {
          at_key = λ j key.
              rw
                (rest.gone (cache_key kv s j)
                  (has_prefix-append s.scope_prefix (encode_key_part j)))
                refl;
          full = λ j h. ground (arith, h);
        };
      }

  decrement-Refines :
      (k : Bytes) (d t : ℤ) (b : kv.State) (m : Table)
      → Refines kv live laws s up now time (Command.increment k (neg64 d) t) b m
      → Refines kv live laws s up now time (Command.decrement k d t) b m
  unfolding exec nats_store decrement spec_step
  decrement-Refines k d t b m r = record {
    reply = r.reply;
    table = r.table;
    bucket = r.bucket;
    promised = r.promised;
    does = r.does;
    keeps = r.keeps;
  }

  exec-Refines :
      (c : Command) (b : kv.State) (m : Table)
      → Fits s c
      → Keeps kv live laws s up now time b m
      → Refines kv live laws s up now time c b m
  exec-Refines (Command.get k) b m f h = get-Refines kv live laws s up now time k b m f h
  exec-Refines (Command.set k v t) b m (key, full, t_fits) h =
      set-Refines kv live laws s up now time k v t b m key full t_fits h
  exec-Refines (Command.add k v t) b m (key, full, t_fits) h =
      add-Refines kv live laws s up now time k v t b m key full t_fits h
  exec-Refines (Command.increment k d t) b m (key, t_fits) h =
      increment-Refines kv live laws s up now time k d t b m key t_fits h
  exec-Refines (Command.decrement k d t) b m (key, t_fits) h =
      decrement-Refines k d t b m
        (increment-Refines kv live laws s up now time k (neg64 d) t b m key t_fits h)
  exec-Refines (Command.delete k) b m f h = delete-Refines kv live laws s up now time k b m f h
  exec-Refines (Command.delete_many ks) b m f h = delete_many-Refines ks b m f h
  exec-Refines Command.flush b m f h = flush-Refines b m h
  exec-Refines (Command.lock_acquire k o t) b m (key, full, t_fits) h =
      lock_acquire-Refines kv live laws s up now time k o t b m key full t_fits h
  exec-Refines (Command.lock_release k o) b m f h =
      lock_release-Refines kv live laws s up now time k o b m f h

  -- Over a bucket that answers every call and that no other client acts on, at one time below 2^63
  -- nanoseconds: commands on keys of bytes, with durations that an int64 holds and with values that
  -- are not empty, get from the store exactly the replies of the abstract store, errors included,
  -- and the bucket then holds exactly the entries of the abstract store under their names.
  pub run-nats_store :
      (cs : List Command) (b : kv.State) (m : Table)
      → All (Fits s) cs
      → Holds kv live s b now m
      → ((run (nats_store kv s) cs (at kv live s b now)).0 ≡ (spec_run cs m).0)
        × (c : kv.State) × ((run (nats_store kv s) cs (at kv live s b now)).1 ≡ at kv live s c now)
        × Holds kv live s c now (spec_run cs m).1
  unfolding run spec_run
  run-nats_store [] b m fits h = (refl, b, refl, h)
  run-nats_store (c ∷ cs) b m (fits, rest) h =
      let r = exec-Refines c b m fits h in
      let (replies, b', ends, h') = run-nats_store cs r.bucket r.table rest r.keeps in
      let does = r.does in
      let promised = r.promised in
      (rw (does, promised) (ap (◌∷◌ r.reply) replies), b', rw does ends, rw promised h')
