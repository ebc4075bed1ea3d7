-- ===== src/Nats/Owners.antt =====
-- The locks of driver/natscache/store.go where it is the only client of a bucket that answers every
-- call.
use cache.Prelude.{
  ℕ, ◌<◌, ◌≡◌, ◌≢◌, inl, inr, refl, Bool, true, false, Option, none, some, [], arith, Bytes, equal,
  ℤ, pos_part, two63, if◌then◌else◌, Bool-cases, Option-cases,
}
use cache.Store.{ok, ttl_or}
use cache.Store.Contract.{Command, flag, exec}
use cache.Store.Spec.{Table, assign, spec_step}
use cache.Nats.Bucket.{KeyValue, Puts, Answer, Entry, ServiceLaws}
use cache.Nats.{NatsStore, cache_key, body_of}
use cache.Nats.Locks.{lock_acquire, lock_release}
use cache.Nats.Listing.{nats_store}
use cache.Nats.Shape.{
  IsKey, shape_of, in_bucket, plain, current, expired, broken, put-Holds, remove-Holds,
}
use cache.Nats.Promises.{here, Keeps, Refines}

abbrev is_owner : Bytes → Option Bytes → Bool
is_owner o none = false
is_owner o (some v) = equal v o

module _ (kv : KeyValue) (live : kv.State → Bytes → Option Entry) (laws : ServiceLaws kv live)
    (s : NatsStore) (up : s.connected ≡ true) (now : ℕ) (time : now < two63) where
  -- What an acquire puts under the key.
  taken-Refines :
      (k o : Bytes) (t : ℤ) (b : kv.State) (m : Table) (r : Answer ℕ × kv.State)
      → IsKey kv live s k
      → o ≢ []
      → pos_part (ttl_or t s.ttl) < two63
      → Keeps kv live laws s up now time b m
      → m k ≡ none
      → Puts kv live (cache_key kv s k) (body_of kv s o t (here kv live laws s up now time b)) b r
      → exec (nats_store kv s) (Command.lock_acquire k o t) (here kv live laws s up now time b)
        ≡ (ok (flag true), here kv live laws s up now time r.1)
      → Refines kv live laws s up now time (Command.lock_acquire k o t) b m
  unfolding spec_step
  taken-Refines k o t b m r key full fits h absent puts does = record {
    reply = ok (flag true);
    table = assign k (some o) m;
    bucket = r.1;
    promised = ground (arith, absent);
    does = does;
    keeps = put-Holds kv live s now time k o t b m r fits key full h puts;
  }

  refused-Refines :
      (k o old : Bytes) (t : ℤ) (b : kv.State) (m : Table)
      → Keeps kv live laws s up now time b m
      → m k ≡ some old
      → exec (nats_store kv s) (Command.lock_acquire k o t) (here kv live laws s up now time b)
        ≡ (ok (flag false), here kv live laws s up now time b)
      → Refines kv live laws s up now time (Command.lock_acquire k o t) b m
  unfolding spec_step
  refused-Refines k o old t b m h present does = record {
    reply = ok (flag false);
    table = m;
    bucket = b;
    promised = ground (arith, present);
    does = does;
    keeps = h;
  }

  pub lock_acquire-Refines :
      (k o : Bytes) (t : ℤ) (b : kv.State) (m : Table)
      → IsKey kv live s k
      → o ≢ []
      → pos_part (ttl_or t s.ttl) < two63
      → Keeps kv live laws s up now time b m
      → Refines kv live laws s up now time (Command.lock_acquire k o t) b m
  unfolding exec nats_store lock_acquire body_of
  lock_acquire-Refines k o t b m key full fits h =
      let name = cache_key kv s k in
      let body = body_of kv s o t (here kv live laws s up now time b) in
      elim (Option-cases (live b name)) [
        | inl absent ↦
            let (x, missed, kind) = laws.get-absent name b absent in
            let puts = laws.create-absent name body b absent in
            taken-Refines k o t b m (kv.create name body b) key full fits h
              (ground (arith, h.at_key k key)) puts
              (elim (Bool-cases s.bucket_ttl) [
                | inl kept ↦ ground (arith, missed, kind, puts.1)
                | inr own ↦ ground (arith, missed, kind, puts.1)
              ])
        | inr (e, there) ↦
            let (got, op, positive) = laws.get-present name b e there in
            elim (shape_of kv live s e b now) [
              | in_bucket kept ↦
                  let (x, refused, kind) = laws.create-present name body b e there in
                  refused-Refines k o e.value t b m h (ground (arith, h.at_key k key))
                    (ground (arith, refused, kind))
              | plain own d ↦
                  refused-Refines k o e.value t b m h (ground (arith, h.at_key k key))
                    (ground (arith, got))
              | current env own d alive ↦
                  refused-Refines k o env.value t b m h (ground (arith, h.at_key k key))
                    (ground (arith, got))
              | expired env own d past ↦
                  let puts = laws.update-present name body b e there in
                  taken-Refines k o t b m (kv.update name body e.revision b) key full fits h
                    (ground (arith, h.at_key k key)) puts (ground (arith, got, puts.1))
              | broken x own d ↦ absurd (ground (arith, h.at_key k key))
            ]
      ]

  -- A release by one who is not the owner of the lock.
  kept-Refines :
      (k o : Bytes) (b : kv.State) (m : Table) (held : Option Bytes)
      → Keeps kv live laws s up now time b m
      → m k ≡ held
      → is_owner o held ≡ false
      → exec (nats_store kv s) (Command.lock_release k o) (here kv live laws s up now time b)
        ≡ (ok (flag false), here kv live laws s up now time b)
      → Refines kv live laws s up now time (Command.lock_release k o) b m
  unfolding spec_step
  kept-Refines k o b m none h is nobody does = record {
    reply = ok (flag false);
    table = m;
    bucket = b;
    promised = ground (arith, is);
    does = does;
    keeps = h;
  }
  kept-Refines k o b m (some v) h is nobody does = record {
    reply = ok (flag false);
    table = m;
    bucket = b;
    promised = ground (arith, is, nobody);
    does = does;
    keeps = h;
  }

  -- A release of a lock that is there, from its deletion by revision on.
  release_owned :
      (k o v : Bytes) (b : kv.State) (m : Table) (e : Entry)
      → IsKey kv live s k
      → Keeps kv live laws s up now time b m
      → live b (cache_key kv s k) ≡ some e
      → m k ≡ some v
      → exec (nats_store kv s) (Command.lock_release k o) (here kv live laws s up now time b) ≡ (
          if equal v o
          then (
            ok (flag true),
            here kv live laws s up now time (kv.delete (cache_key kv s k) (some e.revision) b).1,
          )
          else (ok (flag false), here kv live laws s up now time b))
      → Refines kv live laws s up now time (Command.lock_release k o) b m
  unfolding spec_step
  release_owned k o v b m e key h there is does = elim (Bool-cases (equal v o)) [
    | inr other ↦ kept-Refines k o b m (some v) h is other (ground (arith, does, other))
    | inl mine ↦ record {
      reply = ok (flag true);
      table = assign k none m;
      bucket = (kv.delete (cache_key kv s k) (some e.revision) b).1;
      promised = ground (arith, is, mine);
      does = ground (arith, does, mine);
      keeps =
          remove-Holds kv live s now time k b m (kv.delete (cache_key kv s k) (some e.revision) b)
            key h (laws.delete-present (cache_key kv s k) b e there);
    }
  ]

  pub lock_release-Refines :
      (k o : Bytes) (b : kv.State) (m : Table)
      → IsKey kv live s k
      → Keeps kv live laws s up now time b m
      → Refines kv live laws s up now time (Command.lock_release k o) b m
  unfolding exec nats_store lock_release
  lock_release-Refines k o b m key h =
      let name = cache_key kv s k in
      elim (Option-cases (live b name)) [
        | inl absent ↦
            let (x, missed, kind) = laws.get-absent name b absent in
            kept-Refines k o b m none h (ground (arith, h.at_key k key)) refl
              (ground (arith, missed, kind))
        | inr (e, there) ↦
            let (got, op, positive) = laws.get-present name b e there in
            elim (shape_of kv live s e b now) [
              | in_bucket kept ↦
                  release_owned k o e.value b m e key h there (ground (arith, h.at_key k key))
                    (ground (arith, got, (laws.delete-present name b e there).0))
              | plain own d ↦
                  release_owned k o e.value b m e key h there (ground (arith, h.at_key k key))
                    (ground (arith, got, (laws.delete-present name b e there).0))
              | current env own d alive ↦
                  release_owned k o env.value b m e key h there (ground (arith, h.at_key k key))
                    (ground (arith, got, (laws.delete-present name b e there).0))
              | expired env own d past ↦
                  kept-Refines k o b m none h (ground (arith, h.at_key k key)) refl
                    (ground (arith, got, (laws.delete-present name b e there).0))
              | broken x own d ↦ absurd (ground (arith, h.at_key k key))
            ]
      ]
