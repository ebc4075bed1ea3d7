-- ===== src/Nats/Counts.antt =====
-- Increment of driver/natscache/store.go where it is the only client of a bucket that answers every
-- call: the first turn of its loop is the last.
use cache.Prelude.{
  ℕ, ◌<◌, ◌≡◌, ◌≢◌, inl, inr, refl, ap, ◌∙◌, true, Option, none, some, [], ◌∷◌, arith, Bytes,
  equal_refl, ℤ, pos, negsuc, pos_part, two63, add64, Option-cases,
}
use cache.Decimal.{parse_int, format_int, format_int-ne_nil}
use cache.Store.{not_numeric, Result, ok, err, ttl_or}
use cache.Store.Contract.{Command, number, exec}
use cache.Store.Spec.{Table, assign, spec_step}
use cache.Nats.Bucket.{KeyValue, Entry, ServiceLaws}
use cache.Nats.{NatsStore, cache_key, body_of}
use cache.Nats.Counter.{increment, decrement}
use cache.Nats.Listing.{nats_store}
use cache.Nats.Shape.{
  IsKey, shape_of, in_bucket, plain, current, expired, broken, put-Holds, remove-Holds,
  absent-Holds,
}
use cache.Nats.Promises.{here, Keeps, Refines}
use cache.Nats.Counter.{number_in, store_count, attempt_increment, increment_loop}
use cache.Nats.Counter
use cache.Nats.Bucket.{ask}

abbrev attempted : Result ℤ → Result (Option ℤ)
attempted (ok n) = ok (some n)
attempted (err e) = err e

format_int-full : (n : ℤ) → format_int n ≢ []
unfolding format_int
format_int-full (pos n) h = format_int-ne_nil n h
format_int-full (negsuc n) h = ground (arith, h)

number_in-full :
    (kv : KeyValue) (s : NatsStore) (key raw : Bytes)
    → raw ≢ []
    → number_in kv s key raw ≡ elim (parse_int raw) [ none ↦ err (not_numeric key) | some n ↦ ok n ]
number_in-full kv s key [] h = absurd (h refl)
number_in-full kv s key (c ∷ raw) h = refl

module _ (kv : KeyValue) (live : kv.State → Bytes → Option Entry) (laws : ServiceLaws kv live)
    (s : NatsStore) (up : s.connected ≡ true) (now : ℕ) (time : now < two63) where
  first_turn :
      (k : Bytes) (d t : ℤ) (b c : kv.State) (r : Result ℤ)
      → attempt_increment kv s k d t (here kv live laws s up now time b)
        ≡ (attempted r, here kv live laws s up now time c)
      → increment kv s k d t (here kv live laws s up now time b)
        ≡ (r, here kv live laws s up now time c)
  unfolding increment increment_loop
  first_turn k d t b c (ok n) h = ground (arith, h)
  first_turn k d t b c (err e) h = ground (arith, h)

  -- kv live laws s up now time turn from what it read on.
  turn :
      (k : Bytes) (d t c : ℤ) (n : ℕ) (b b' : kv.State)
      → ask kv
          (kv.get (cache_key kv s k))
          (Counter.current kv s k (cache_key kv s k))
          (here kv live laws s up now time b)
        ≡ (ok (c, n), here kv live laws s up now time b')
      → attempt_increment kv s k d t (here kv live laws s up now time b)
        ≡ store_count kv s (cache_key kv s k) (add64 c d) t n (here kv live laws s up now time b')
  unfolding attempt_increment
  turn k d t c n b b' h = rw (h, attempt_increment) refl

  -- Where nothing is there to count from.
  from_zero :
      (k : Bytes) (d t : ℤ) (b b' : kv.State) (m : Table)
      → IsKey kv live s k
      → pos_part (ttl_or t s.ttl) < two63
      → Keeps kv live laws s up now time b' m
      → m k ≡ none
      → live b' (cache_key kv s k) ≡ none
      → ask kv
          (kv.get (cache_key kv s k))
          (Counter.current kv s k (cache_key kv s k))
          (here kv live laws s up now time b)
        ≡ (ok (pos 0, 0), here kv live laws s up now time b')
      → Refines kv live laws s up now time (Command.increment k d t) b m
  unfolding exec nats_store store_count spec_step
  from_zero k d t b b' m key fits h absent gone reads =
      let text = format_int (add64 (pos 0) d) in
      let body = body_of kv s text t (here kv live laws s up now time b') in
      let puts = laws.create-absent (cache_key kv s k) body b' gone in
      let c = (kv.create (cache_key kv s k) body b').1 in
      let counts : increment kv s k d t (here kv live laws s up now time b)
          ≡ (ok (add64 (pos 0) d), here kv live laws s up now time c) =
        first_turn k d t b c (ok (add64 (pos 0) d))
          (turn k d t (pos 0) 0 b b' reads ∙ ground (arith, puts.1)) in
      record {
        reply = ok (number (add64 (pos 0) d));
        table = assign k (some text) m;
        bucket = c;
        promised = ground (arith, absent);
        does = ground (arith, counts);
        keeps =
            put-Holds kv live s now time k text t b' m (kv.create (cache_key kv s k) body b') fits
              key (format_int-full (add64 (pos 0) d)) h puts;
      }

  -- Where an entry with this content is there.
  from_entry :
      (k : Bytes) (d t : ℤ) (raw : Bytes) (b : kv.State) (m : Table) (e : Entry)
      → IsKey kv live s k
      → pos_part (ttl_or t s.ttl) < two63
      → Keeps kv live laws s up now time b m
      → m k ≡ some raw
      → live b (cache_key kv s k) ≡ some e
      → e.revision ≢ 0
      → ask kv
          (kv.get (cache_key kv s k))
          (Counter.current kv s k (cache_key kv s k))
          (here kv live laws s up now time b)
        ≡ (
          Counter.with_revision kv s e.revision (number_in kv s k raw),
          here kv live laws s up now time b,
        )
      → Refines kv live laws s up now time (Command.increment k d t) b m
  unfolding exec nats_store store_count spec_step attempt_increment
  from_entry k d t raw b m e key fits h present there positive reads =
      let full : raw ≢ [] = λ empty. h.full k (present ∙ ap some empty) in
      let name = cache_key kv s k in
      elim (Option-cases (parse_int raw)) [
        | inl bad ↦
            let fails : increment kv s k d t (here kv live laws s up now time b)
                ≡ (err (not_numeric k), here kv live laws s up now time b) =
              first_turn k d t b b (err (not_numeric k))
                (ground (arith, reads, number_in-full kv s k raw full, bad)) in
            record {
              reply = err (not_numeric k);
              table = m;
              bucket = b;
              promised = ground (arith, present, bad);
              does = ground (arith, fails);
              keeps = h;
            }
        | inr (n, good) ↦
            let text = format_int (add64 n d) in
            let body = body_of kv s text t (here kv live laws s up now time b) in
            let puts = laws.update-present name body b e there in
            let c = (kv.update name body e.revision b).1 in
            let reads' : ask kv (kv.get name) (Counter.current kv s k name)
                  (here kv live laws s up now time b)
                ≡ (ok (n, e.revision), here kv live laws s up now time b) =
              reads ∙ ground (arith, number_in-full kv s k raw full, good) in
            let counts : increment kv s k d t (here kv live laws s up now time b)
                ≡ (ok (add64 n d), here kv live laws s up now time c) =
              first_turn k d t b c (ok (add64 n d))
                (turn k d t n e.revision b b reads' ∙ ground (arith, puts.1, positive)) in
            record {
              reply = ok (number (add64 n d));
              table = assign k (some text) m;
              bucket = c;
              promised = ground (arith, present, good);
              does = ground (arith, counts);
              keeps =
                  put-Holds kv live s now time k text t b m (kv.update name body e.revision b) fits
                    key (format_int-full (add64 n d)) h puts;
            }
      ]

  pub increment-Refines :
      (k : Bytes) (d t : ℤ) (b : kv.State) (m : Table)
      → IsKey kv live s k
      → pos_part (ttl_or t s.ttl) < two63
      → Keeps kv live laws s up now time b m
      → Refines kv live laws s up now time (Command.increment k d t) b m
  increment-Refines k d t b m key fits h =
      let name = cache_key kv s k in
      elim (Option-cases (live b name)) [
        | inl absent ↦
            let (x, missed, kind) = laws.get-absent name b absent in
            from_zero k d t b b m key fits h (ground (arith, h.at_key k key)) absent
              (ground (arith, missed, kind))
        | inr (e, there) ↦
            let (got, op, positive) = laws.get-present name b e there in
            elim (shape_of kv live s e b now) [
              | in_bucket kept ↦
                  from_entry k d t e.value b m e key fits h (ground (arith, h.at_key k key)) there
                    positive (ground (arith, got, op))
              | plain own d ↦
                  from_entry k _ t e.value b m e key fits h (ground (arith, h.at_key k key)) there
                    positive (ground (arith, got, op))
              | current env own d alive ↦
                  from_entry k _ t env.value b m e key fits h (ground (arith, h.at_key k key)) there
                    positive (ground (arith, got, op))
              | expired env own d past ↦
                  let removes = laws.purge-any name b in
                  let nothing : m k ≡ none = ground (arith, h.at_key k key) in
                  from_zero k _ t b (kv.purge name b).1 m key fits
                    (absent-Holds kv live s now time k (kv.purge name b).1 m nothing
                      (remove-Holds kv live s now time k b m (kv.purge name b) key h removes))
                    nothing (ground (arith, removes.1 name, equal_refl name))
                    (ground (arith, got, op, removes.0))
              | broken x own d ↦ absurd (ground (arith, h.at_key k key))
            ]
      ]
