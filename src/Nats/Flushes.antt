-- ===== src/Nats/Flushes.antt =====
-- DeleteMany and Flush of driver/natscache/store.go where it is the only client of a bucket that
-- answers every call.
use cache.Prelude.{
  ℕ, ◌<◌, ◌≡◌, inl, inr, refl, ◌∙◌, All, true, false, Option, none, some, List, [], ◌∷◌, arith,
  Bytes, equal, equal_iff, two63, Bool-cases, has_prefix,
}
use cache.Base64.{IsByte}
use cache.Store.{Error, ok}
use cache.Store.Contract.{member}
use cache.Store.Spec.{Table, assign, assign_none}
use cache.Nats.Bucket.{KeyValue, World, Entry, ServiceLaws}
use cache.Nats.{NatsStore, cache_key, delete, delete_many}
use cache.Nats.Listing.{first_error, flush, purge_each}
use cache.Nats.Shape.{remove-Holds}
use cache.Nats.Promises.{here, Keeps}

module _ (kv : KeyValue) (live : kv.State → Bytes → Option Entry) (laws : ServiceLaws kv live)
    (s : NatsStore) (up : s.connected ≡ true) (now : ℕ) (time : now < two63) where
  pub record Deleted (ks : List Bytes) (b : kv.State) (m : Table) : Type 0 where
    pub bucket : kv.State
    pub does :
        delete_many kv s ks (here kv live laws s up now time b)
        ≡ (ok tt, here kv live laws s up now time bucket)
    pub keeps : Keeps kv live laws s up now time bucket (assign_none ks m)

  pub delete_many_lem :
      (ks : List Bytes) (b : kv.State) (m : Table)
      → All (All IsByte) ks
      → Keeps kv live laws s up now time b m
      → Deleted ks b m
  unfolding delete_many delete
  delete_many_lem [] b m keys h = record { bucket = b; does = refl; keeps = h }
  delete_many_lem (k ∷ ks) b m keys h =
      let removes = laws.delete-any (cache_key kv s k) b in
      let c = (kv.delete (cache_key kv s k) none b).1 in
      let rest = delete_many_lem ks c (assign k none m) keys.1 (
        remove-Holds kv live s now time k b m (kv.delete (cache_key kv s k) none b) keys.0 h
          removes) in
      let does = rest.does in
      record { bucket = rest.bucket; does = ground (arith, removes.0, does); keeps = rest.keeps }

  -- The loop of Flush: no name of this store that it meets is left, and none comes back.
  record Purged (names : List Bytes) (b : kv.State) : Type 0 where
    bucket : kv.State
    does :
        purge_each kv s names (here kv live laws s up now time b)
        ≡ (ok tt, here kv live laws s up now time bucket)
    gone :
        (n : Bytes)
        → has_prefix n s.scope_prefix ≡ true
        → member n names ≡ true
        → live bucket n ≡ none
    others : (n : Bytes) → has_prefix n s.scope_prefix ≡ false → live bucket n ≡ live b n
    stays : (n : Bytes) → live b n ≡ none → live bucket n ≡ none

  purge_each_lem : (names : List Bytes) (b : kv.State) → Purged names b
  unfolding purge_each
  purge_each_lem [] b = record {
    bucket = b;
    does = refl;
    gone = λ n own no_member. absurd (ground (arith, no_member));
    others = λ n other. refl;
    stays = λ n absent. absent;
  }
  purge_each_lem (name ∷ names) b = elim (Bool-cases (has_prefix name s.scope_prefix)) [
    | inl own ↦
        let removes = laws.purge-any name b in
        let c = (kv.purge name b).1 in
        let rest = purge_each_lem names c in
        let does = rest.does in
        record {
          bucket = rest.bucket;
          does = ground (arith, own, removes.0, does);
          gone = λ n is_own is_member. elim (Bool-cases (equal name n)) [
            | inl same ↦ rest.stays n (ground (arith, removes.1 n))
            | inr other ↦ rest.gone n is_own (ground (arith, is_member))
          ];
          others = λ n other. rest.others n other ∙ ground (arith, removes.1 n, equal_iff name n);
          stays = λ n absent. rest.stays n (ground (arith, removes.1 n));
        }
    | inr other ↦
        let rest = purge_each_lem names b in
        let does = rest.does in
        record {
          bucket = rest.bucket;
          does = ground (arith, other, does);
          gone = λ n is_own is_member. rest.gone n is_own (ground (arith, equal_iff name n));
          others = rest.others;
          stays = rest.stays;
        }
  ]

  none_reported :
      (errors : List (Option Error)) (w : World kv)
      → All (λ o. o ≡ none) errors
      → first_error kv s errors w ≡ (ok tt, w)
  none_reported [] w h = refl
  none_reported (none ∷ errors) w h = none_reported errors w h.1
  none_reported (some e ∷ errors) w h = absurd (ground (arith, h.0))

  pub record Flushed (b : kv.State) : Type 0 where
    pub bucket : kv.State
    pub does :
        flush kv s (here kv live laws s up now time b)
        ≡ (ok tt, here kv live laws s up now time bucket)
    pub gone : (n : Bytes) → has_prefix n s.scope_prefix ≡ true → live bucket n ≡ none
    pub others : (n : Bytes) → has_prefix n s.scope_prefix ≡ false → live bucket n ≡ live b n

  -- Over a bucket that answers every call and that no other client acts on, a Flush succeeds,
  -- leaves no value under a name with the prefix of the store, and leaves every other name of the
  -- bucket as it was.
  pub flush-Flushed : (b : kv.State) → Flushed b
  unfolding flush
  flush-Flushed b = elim (laws.list-any b) [
    | inr (x, listed, kind, empty) ↦ record {
      bucket = b;
      does = ground (arith, listed, kind);
      gone = λ n own. empty n;
      others = λ n other. refl;
    }
    | inl (names, errors, listed, fine, rest) ↦
        let purged = purge_each_lem names b in
        let does = purged.does in
        record {
          bucket = purged.bucket;
          does = ground (
            arith,
            listed,
            does,
            none_reported errors (here kv live laws s up now time purged.bucket) fine,
          );
          gone = λ n own. elim (Bool-cases (member n names)) [
            | inl there ↦ purged.gone n own there
            | inr absent ↦ purged.stays n (rest n absent)
          ];
          others = purged.others;
        }
  ]
