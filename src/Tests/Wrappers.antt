-- ===== src/Tests/Wrappers.antt =====
-- store_memo.go and cachecore/shaping.go at concrete inputs.
use cache.Prelude.{
  ◌≡◌, refl, ◌⊎◌, inl, inr, true, false, not, ◌&&◌, ◌||◌, Option, none, some, List, [], ◌∷◌, arith,
  Bytes, codes, equal, length, pos, lookup, put, without, if◌then◌else◌,
}
use cache.Store.{Error, Store, ok, err, unsupported_codec, BaseConfig, compression_none, unset}
use cache.Store.Contract.{Command, get, set, add, exec, run}
use cache.Memo
use cache.Memo.{Memoized, memo_store, publish}
use cache.Memo.Transparent.{IsFresh, run-memo_store}
use cache.Memo.Race.{
  Shared, idle, reading, fetched, written, one, move, settle, begin, fetch, finish, write, fail,
  drop, covers, many, Mutation, here, next, Reach, Pending,
}
use cache.Memo.Race.Current.{Reach-hit_is_current}
use cache.Memory.{World, memory_store}
use cache.Memory.Framed.{view, memory_store-IsFramed, memory_store-Recalls}
use cache.Memory.Backend.{Object}
use cache.Shaping.Value.{encode_value, decode_value, exceeds, is_marked}
use cache.Shaping.Envelope.{encrypt}
use cache.Shaping.Wrap.{validate_base_config, shaping_store, wrap_store, encrypting_store}
use cache.Shaping.Stores.{IsInvalid, wrap_store-get_set, wrap_store-fails_closed}
use cache.Shaping.Limits.{
  shaping_store-writes, shaping_store-get_within, shaping_store-marked_value_lost,
}
use cache.Tests.Fixtures.{
  start, base, engine, engine_laws, gzip, gzip_laws, crypto, crypto_laws, read_zeros, full_reads,
  zeros,
}

abbrev memoized : Memoized (World engine)
memoized = record { inner = start; memo = Memo.empty }

abbrev script : List Command
script =
    set (codes "a") (codes "1") (pos 5)
    ∷ get (codes "a")
    ∷ get (codes "a")
    ∷ set (codes "a") (codes "2") (pos 5)
    ∷ get (codes "a")
    ∷ add (codes "a") (codes "3") (pos 5)
    ∷ []

start-IsFresh : IsFresh (view engine engine_laws (pos 60) refl) memoized
unfolding lookup
start-IsFresh = record { fresh = λ k v h. absurd (ground arith) }

run-memo_store_example :
    ((run (memo_store base) script memoized).0 ≡ (run base script start).0)
    × ((run (memo_store base) script memoized).1.inner ≡ (run base script start).1)
    × IsFresh (view engine engine_laws (pos 60) refl) (run (memo_store base) script memoized).1
run-memo_store_example =
    run-memo_store base (view engine engine_laws (pos 60) refl)
      (memory_store-IsFramed engine engine_laws (pos 60) refl) script memoized start-IsFresh

-- One caller writes a key and forgets it, then another reads it, and a third fails to delete others.
abbrev calm : Shared
calm = record { backing = λ k. none; memo = Memo.empty; phases = λ t. idle; torn = λ k. false }

abbrev changed : Bytes → Option Bytes
changed j = if equal (codes "a") j then some (codes "1") else none

abbrev after_write : Shared
after_write = record calm {
  backing = changed;
  phases = move 1 (written (one (codes "a"))) calm.phases;
}

abbrev after_drop : Shared
after_drop = record after_write {
  memo = settle (one (codes "a")) after_write.memo;
  phases = move 1 idle after_write.phases;
  torn = λ j. not (covers (one (codes "a")) j) && false;
}

abbrev after_begin : Shared
after_begin = record after_drop {
  phases = move 0 (reading (codes "a") after_drop.memo.generation) after_drop.phases;
}

abbrev after_fetch : Shared
after_fetch = record after_begin {
  phases =
      move 0 (fetched (codes "a") after_drop.memo.generation (changed (codes "a")))
        after_begin.phases;
}

abbrev after_finish : Shared
after_finish = record after_fetch {
  memo = publish (codes "a") after_drop.memo.generation (changed (codes "a")) after_fetch.memo;
  phases = move 0 idle after_fetch.phases;
}

abbrev others : Mutation
others = many (codes "b" ∷ [])

abbrev after_fail : Shared
after_fail = record after_finish { torn = λ j. covers others j || after_finish.torn j }

reached : Reach calm after_fail
unfolding move settle lookup equal without
reached =
    next
      (next
        (next
          (next
            (next (next here (write calm 1 (one (codes "a")) changed refl (λ j h. ground arith)))
              (drop after_write 1 (one (codes "a")) refl (omega arith)))
            (begin after_drop 0 (codes "a") refl refl))
          (fetch after_begin 0 (codes "a") after_drop.memo.generation refl))
        (finish after_fetch 0 (codes "a") after_drop.memo.generation (changed (codes "a")) refl))
      (fail after_finish 2 others changed refl (λ j h. refl))

nothing-Pending : ¬ Pending after_fail (codes "a")
unfolding move
nothing-Pending (t, m, at, covered) = ground arith

Reach-hit_is_current_example : changed (codes "a") ≡ after_fail.backing (codes "a")
unfolding publish settle lookup put equal
Reach-hit_is_current_example =
    Reach-hit_is_current {s = calm} {u = after_fail} (codes "a") (changed (codes "a"))
      (refl, (λ t. refl), λ k. refl) reached nothing-Pending refl refl

abbrev encrypted : BaseConfig
encrypted = record {
  default_ttl = pos 60;
  prefix = [];
  compression = unset;
  max_value_bytes = pos 64;
  encryption_key = zeros 16;
}

abbrev wrapped : Store (World engine)
wrapped = (wrap_store read_zeros gzip crypto base encrypted).0

wrap_store-get_set_example :
    (wrapped.get (codes "k") (wrapped.set (codes "k") (codes "CMP1x") (pos 5) start).1).0
    ≡ ok (some (codes "CMP1x"))
unfolding wrap_store validate_base_config memory_store encrypting_store shaping_store encode_value
    encrypt
wrap_store-get_set_example =
    wrap_store-get_set gzip crypto read_zeros gzip_laws crypto_laws full_reads base encrypted
      (codes "k") (codes "CMP1x") (pos 5) start
      (memory_store-Recalls engine engine_laws (pos 60) refl) refl (inl (omega arith)) refl

abbrev bad_key : BaseConfig
bad_key = record encrypted { encryption_key = zeros 15 }

bad_key-IsInvalid : IsInvalid bad_key
bad_key-IsInvalid = inr (inr (omega arith, omega arith, omega arith, omega arith))

wrap_store-fails_closed_example :
    (e : Error) × ((wrap_store read_zeros gzip crypto base bad_key).1 ≡ some e)
    × ((wrap_store read_zeros gzip crypto base bad_key).0.driver ≡ base.driver)
    × ((c : Command) (w : World engine)
        → exec (wrap_store read_zeros gzip crypto base bad_key).0 c w ≡ (err e, w))
wrap_store-fails_closed_example =
    wrap_store-fails_closed gzip crypto read_zeros base bad_key bad_key-IsInvalid

abbrev limited : Store (World engine)
limited = shaping_store gzip base compression_none (pos 6)

shaping_store-writes_example :
    ((e : Error) × (limited.set (codes "k") (codes "1234567") (pos 5) start ≡ (err e, start))
      × (limited.add (codes "k") (codes "1234567") (pos 5) start ≡ (err e, start))
      × (compression_none ≡ compression_none → exceeds (pos 6) 7 ≡ true))
    ⊎ ((b : Bytes) × (limited.set (codes "k") (codes "1234567") (pos 5) start
          ≡ base.set (codes "k") b (pos 5) start)
        × (limited.add (codes "k") (codes "1234567") (pos 5) start
            ≡ base.add (codes "k") b (pos 5) start)
        × (exceeds (pos 6) 7 ≡ false)
        × (exceeds (pos 6) (length b) ≡ false)
        × (decode_value gzip b (pos 6) ≡ ok (codes "1234567")))
unfolding is_marked equal
shaping_store-writes_example =
    shaping_store-writes gzip base compression_none (pos 6) (codes "k") (codes "1234567") (pos 5)
      start gzip_laws (inr refl)

abbrev holding_one : World engine
holding_one = record start { state = (codes "k", (Object.bytes (codes "v"), 5000)) ∷ [] }

shaping_store-get_within_example : exceeds (pos 6) (length (codes "v")) ≡ false
unfolding shaping_store memory_store lookup equal decode_value
shaping_store-get_within_example =
    shaping_store-get_within gzip base compression_none (pos 6) (codes "k") (codes "v") holding_one
      refl

shaping_store-marked_value_lost_example :
    (limited.get (codes "k") (limited.set (codes "k") (codes "CMP1x") (pos 5) start).1).0
    ≡ err unsupported_codec
unfolding shaping_store encode_value memory_store
shaping_store-marked_value_lost_example =
    shaping_store-marked_value_lost gzip base (pos 6) (codes "k") [] b'x' (pos 5) start
      (memory_store-Recalls engine engine_laws (pos 60) refl) (omega arith) refl
