-- ===== src/Tests/Nats.antt =====
-- driver/natscache/store.go at concrete inputs, over a bucket that is a log of its writes.
use cache.Prelude.{
  ℕ, suc, ◌≤◌, ◌≡◌, ◌≢◌, inl, inr, refl, true, false, Option, none, some, List, [], ◌∷◌, ◌++◌,
  arith, Bytes, codes, equal, equal_refl, length, length-append, add64, All, ◌==◌, pos,
  if◌then◌else◌, Option-cases, Bool-cases,
}
use mathlib.Core.List.{append_assoc}
use cache.Base64.{encode}
use cache.Decimal.{parse_int, format_int}
use cache.Store.{ok, err, text}
use cache.Store.Contract.{Command, get, set, increment, lock_acquire, lock_release, member, run}
use cache.Store.Spec.{spec_run}
use cache.Nats.Bucket.{
  Failure, key_not_found, key_exists, Fault, Answer, answered, failed, key_value_put, Entry,
  KeyValue, World, RevisionLaws, ServiceLaws,
}
use cache.Nats.{
  NatsStore, scope_prefix_of, decode_cache_key, encode_key_part, cache_key, decode_envelope,
  body_of,
}
use cache.Nats.Counter
use cache.Nats.Listing.{nats_store}
use cache.Nats.Shape.{Holds, at}
use cache.Nats.Refines.{Fits, run-nats_store}
use cache.Nats.Updates.{Counts, increment-Counts}
use cache.Nats.Flushes.{Flushed, flush-Flushed}
use cache.Nats.Records.{decode_cache_key-encode_key_part}

-- Newest first; a deletion writes no value. The revision is the position in the log.
abbrev Log : Type 0
Log = List (Bytes × Option Bytes)

abbrev written : ℕ → Option Bytes → Option Entry
written n none = none
written n (some v) = some (record { value = v; revision = n; operation = key_value_put })

abbrev live : Log → Bytes → Option Entry
live [] k = none
live ((j, v) ∷ log) k = if equal j k then written (suc (length log)) v else live log k

abbrev fault : Failure → Fault
fault f = record { failure = f; error = text "nats" }

abbrev found : Option Entry → Answer Entry
found none = failed (fault key_not_found)
found (some e) = answered e

abbrev write : Bytes → Option Bytes → Log → Log
write k v s = (k, v) ∷ s

abbrev put : Bytes → Bytes → Log → Answer ℕ × Log
put k v s = (answered (suc (length s)), write k (some v) s)

abbrev create_over : Option Entry → Bytes → Bytes → Log → Answer ℕ × Log
create_over none k v s = put k v s
create_over (some e) k v s = (failed (fault key_exists), s)

abbrev update_over : Option Entry → Bytes → Bytes → ℕ → Log → Answer ℕ × Log
update_over none k v r s = (failed (fault key_exists), s)
update_over (some e) k v r s = if e.revision == r then put k v s else (failed (fault key_exists), s)

abbrev delete_over : Option Entry → Bytes → Option ℕ → Log → Answer (Unit {0}) × Log
delete_over o k none s = (answered tt, write k none s)
delete_over none k (some r) s = (failed (fault key_exists), s)
delete_over (some e) k (some r) s =
    if e.revision == r then (answered tt, write k none s) else (failed (fault key_exists), s)

abbrev names : Log → List Bytes
names [] = []
names ((j, v) ∷ log) = j ∷ names log

abbrev bucket : KeyValue
bucket = record {
  State = Log;
  status = λ s. (answered tt, s);
  get = λ k s. (found (live s k), s);
  put = put;
  create = λ k v s. create_over (live s k) k v s;
  update = λ k v r s. update_over (live s k) k v r s;
  delete = λ k r s. delete_over (live s k) k r s;
  purge = λ k s. (answered tt, write k none s);
  list_keys = λ s. (answered (names s, []), s);
}

abbrev Later : Log → Log → Type 0
Later s t = (more : Log) × (t ≡ more ++ s)

live_bounds :
    (s : Log) (k : Bytes) (e : Entry)
    → live s k ≡ some e
    → (e.revision ≢ 0) × (e.revision ≤ length s)
live_bounds [] k e h = absurd (ground (arith, h))
live_bounds ((j, none) ∷ log) k e h = elim (Bool-cases (equal j k)) [
  | inl same ↦ absurd (ground (arith, h))
  | inr other ↦
      let rest = live_bounds log k e (ground (arith, h)) in (rest.0, omega (arith, rest.1))
]
live_bounds ((j, some v) ∷ log) k e h = elim (Bool-cases (equal j k)) [
  | inl same ↦
      let r : e.revision ≡ suc (length log) = ground (arith, h) in
      (λ none. absurd (omega (arith, r, none)), omega (arith, r))
  | inr other ↦
      let rest = live_bounds log k e (ground (arith, h)) in (rest.0, omega (arith, rest.1))
]

names_lem : (s : Log) (k : Bytes) → member k (names s) ≡ false → live s k ≡ none
names_lem [] k h = refl
names_lem ((j, v) ∷ log) k h = ground (arith, names_lem log k)

one_write :
    (s more : Log) (k : Bytes) (e f : Entry)
    → live s k ≡ some e
    → live (more ++ s) k ≡ some f
    → e.revision ≡ f.revision
    → e ≡ f
one_write s [] k e f h h' same = ground (arith, h, h')
one_write s ((j, v) ∷ more) k e f h h' same = elim (Bool-cases (equal j k)) [
  | inr other ↦ one_write s more k e f h (ground (arith, h')) same
  | inl mine ↦ elim (Option-cases v) [
    | inl gone ↦ absurd (ground (arith, h', gone))
    | inr (x, there) ↦
        let r : f.revision ≡ suc (length (more ++ s)) = ground (arith, h', there) in
        absurd (omega (arith, r, same, (live_bounds s k e h).1, length-append more s))
  ]
]

revision_laws : RevisionLaws bucket live Later
revision_laws = record {
  later_refl = λ s. ([], refl);
  later_trans = λ s t u a b. (b.0 ++ a.0, ground (arith, a.1, b.1, append_assoc b.0 a.0 s));
  get-later = λ k s. ([], refl);
  purge-later = λ k s. ((k, none) ∷ [], refl);
  create-later = λ k v s. elim (Option-cases (live s k)) [
    | inl free ↦ ((k, some v) ∷ [], ground (arith, free))
    | inr (e, there) ↦ ([], ground (arith, there))
  ];
  update-later = λ k v r s. elim (Option-cases (live s k)) [
    | inl free ↦ ([], ground (arith, free))
    | inr (e, there) ↦ elim (Bool-cases (e.revision == r)) [
      | inl same ↦ ((k, some v) ∷ [], ground (arith, there, same))
      | inr other ↦ ([], ground (arith, there, other))
    ]
  ];
  live-positive = λ s k e h. (live_bounds s k e h).0;
  one_write = λ s t k e f a h h' same. one_write s a.0 k e f h (ground (arith, h', a.1)) same;
  get-live = λ k s e h. ground (arith, h);
  create-live = λ k v s n h. elim (Option-cases (live s k)) [
    | inl free ↦ (free, ground (arith, h, free, equal_refl k))
    | inr (e, there) ↦ absurd (ground (arith, h, there))
  ];
  update-live = λ k v e n s t is_live later h. elim (Option-cases (live t k)) [
    | inl free ↦ absurd (ground (arith, h, free))
    | inr (f, there) ↦
        let same : e ≡ f =
          one_write s later.0 k e f is_live (ground (arith, there, later.1))
            (ground (arith, h, there)) in
        (ground (arith, there, same), ground (arith, h, there, equal_refl k))
  ];
}

service_laws : ServiceLaws bucket live
service_laws = record {
  get-absent = λ k s h. (fault key_not_found, ground (arith, h), inl refl);
  get-present = λ k s e h. (ground (arith, h), is_put s k e h, (live_bounds s k e h).0);
  put-lem = λ k v s. (suc (length s), refl, λ j. refl);
  create-absent = λ k v s h. (suc (length s), ground (arith, h), λ j. ground (arith, h));
  create-present = λ k v s e h. (fault key_exists, ground (arith, h), refl);
  update-present = λ k v s e h. (suc (length s), ground (arith, h), λ j. ground (arith, h));
  delete-any = λ k s. (refl, λ j. refl);
  delete-present = λ k s e h. (ground (arith, h), λ j. ground (arith, h));
  purge-any = λ k s. (refl, λ j. refl);
  list-any = λ s. inl (names s, [], refl, tt, names_lem s);
}
  where
    is_put : (s : Log) (k : Bytes) (e : Entry) → live s k ≡ some e → e.operation ≡ key_value_put
    is_put [] k e h = absurd (ground (arith, h))
    is_put ((j, none) ∷ log) k e h = ground (arith, h, is_put log k e)
    is_put ((j, some v) ∷ log) k e h = ground (arith, h, is_put log k e)

abbrev store : NatsStore
store = record {
  connected = true;
  ttl = pos 60000000000;
  scope_prefix = scope_prefix_of (codes "app");
  bucket_ttl = false;
  unmarshal = λ body. err (text "no JSON");
}

empty-Holds : Holds bucket live store [] 1000 (λ k. none)
empty-Holds = record { at_key = λ j key. refl; full = λ j h. ground (arith, h) }

abbrev script : List Command
script =
    set (codes "n") (codes "41") (pos 5)
    ∷ increment (codes "n") (pos 1) (pos 0)
    ∷ get (codes "n")
    ∷ lock_acquire (codes "l") (codes "me") (pos 5)
    ∷ lock_release (codes "l") (codes "you")
    ∷ Command.flush
    ∷ []

script-Fits : All (Fits store) script
script-Fits = (
  ((omega arith, tt), λ e. ground (arith, e), omega arith),
  (
    ((omega arith, tt), omega arith),
    (
      (omega arith, tt),
      (((omega arith, tt), λ e. ground (arith, e), omega arith), ((omega arith, tt), (tt, tt))),
    ),
  ),
)

run-nats_store_example :
    ((run (nats_store bucket store) script (at bucket live store [] 1000)).0
      ≡ (spec_run script (λ k. none)).0)
    × (c : Log) × ((run (nats_store bucket store) script (at bucket live store [] 1000)).1
        ≡ at bucket live store c 1000)
    × Holds bucket live store c 1000 (spec_run script (λ k. none)).1
run-nats_store_example =
    run-nats_store bucket live service_laws store refl 1000 (omega arith) script [] (λ k. none)
      script-Fits empty-Holds

decode_cache_key-encode_key_part_example :
    decode_cache_key (encode_key_part (codes "a/b")) ≡ some (codes "a/b")
decode_cache_key-encode_key_part_example =
    decode_cache_key-encode_key_part (codes "a/b") (omega arith, (omega arith, (omega arith, tt)))

-- An entry of the store, and one of another store in the same bucket.
abbrev shared : Log
shared =
    (scope_prefix_of (codes "web") ++ codes "YQ", some (codes "theirs"))
    ∷ (scope_prefix_of (codes "app") ++ codes "YQ", some (codes "ours"))
    ∷ []

flush-Flushed_example : Flushed bucket live service_laws store refl 1000 (omega arith) shared
flush-Flushed_example = flush-Flushed bucket live service_laws store refl 1000 (omega arith) shared

-- Before the Create of an increment, another client counts to 5.
abbrev counted : Bytes
counted = scope_prefix_of (codes "app") ++ codes "bg"

abbrev contended : World bucket
contended = record {
  bucket = [];
  interludes =
      record { elapsed = 1; others = λ s. s }
      ∷ record { elapsed = 1; others = write counted (some (codes "5")) }
      ∷ [];
  now = 1000;
}

contended-count :
    (Counter.increment bucket store (codes "n") (pos 1) (pos 0) contended).0 ≡ ok (pos 6)
unfolding Counter.increment encode parse_int format_int scope_prefix_of cache_key decode_envelope
    body_of equal add64
contended-count = refl

increment-Counts_example :
    Counts bucket live Later revision_laws store
      (codes "n")
      (pos 1)
      (pos 0)
      contended
      (Counter.increment bucket store (codes "n") (pos 1) (pos 0) contended).1
      (pos 6)
increment-Counts_example =
    increment-Counts bucket live Later revision_laws store (codes "n") (pos 1) (pos 0) (pos 6)
      contended (λ s. ([], refl), (λ s. ((counted, some (codes "5")) ∷ [], refl), tt))
      contended-count
