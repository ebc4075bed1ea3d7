-- ===== src/Fake.antt =====
-- cachefake/fake.go: a store that counts the calls of the store under it, for tests.
pub mod Counts
pub mod Runs
use cache.Prelude.{
  ℕ, ◌+◌, Bool, true, false, Option, none, some, List, [], ◌∷◌, Bytes, codes, ◌==◌, lookup, put,
  Map, ℤ, if◌then◌else◌,
}
use cache.Store.{Result, Act, ◌>>=◌, ◌>>◌, Store}
use cache.Memory.{World, new_memory_store}
use cache.Memory.Backend.{Engine}

pub data Op : Type 0 where
  op_get op_set op_add op_inc op_dec op_delete op_delete_many op_flush : Op

-- The text of an operation, by which the operations are compared.
abbrev pub name : Op → Bytes
name op_get = codes "get"
name op_set = codes "set"
name op_add = codes "add"
name op_inc = codes "inc"
name op_dec = codes "dec"
name op_delete = codes "delete"
name op_delete_many = codes "delete_many"
name op_flush = codes "flush"

-- The store under the fake, and the counts by operation and key; an operation without a map has an
-- empty one.
pub record Fake (W : Type 0) : Type 0 where
  pub inner : W
  pub counts : Map (Map ℕ)

abbrev pub map_or_empty : Option (Map ℕ) → Map ℕ
map_or_empty none = []
map_or_empty (some m) = m

abbrev pub count_or_zero : Option ℕ → ℕ
count_or_zero none = 0
count_or_zero (some n) = n

abbrev pub sum : Map ℕ → ℕ
sum [] = 0
sum ((key, n) ∷ m) = n + sum m

module _ {W : Type 0} where
  abbrev pub counts_of : Op → Fake W → Map ℕ
  counts_of op f = map_or_empty (lookup (name op) f.counts)

  unfoldable pub count : Op → Bytes → Fake W → ℕ
  count op key f = count_or_zero (lookup key (counts_of op f))

  unfoldable pub total : Op → Fake W → ℕ
  total op f = sum (counts_of op f)

  unfoldable pub reset : Fake W → Fake W
  reset f = record f { counts = [] }

  -- record
  unfoldable pub record_call : Op → Bytes → Fake W → Fake W
  record_call op key f =
      let m = counts_of op f in
      record f { counts = put (name op) (put key (count_or_zero (lookup key m) + 1) m) f.counts }

  -- A call of the store under the fake, after what bump recorded.
  abbrev pub counted : {A : Type 0} → Op → Bytes → Act W A → Act (Fake W) A
  unfolding record_call
  counted op key act f =
      let f' = record_call op key f in ((act f'.inner).0, record f' { inner = (act f'.inner).1 })

  unfoldable pub record_each : List Bytes → Fake W → Fake W
  unfolding record_call
  record_each [] f = f
  record_each (key ∷ keys) f = record_each keys (record_call op_delete_many key f)

  abbrev pub counted_many : {A : Type 0} → List Bytes → Act W A → Act (Fake W) A
  unfolding record_each
  counted_many keys act f =
      let f' = record_each keys f in ((act f'.inner).0, record f' { inner = (act f'.inner).1 })

  abbrev passed : {A : Type 0} → Act W A → Act (Fake W) A
  passed act f = ((act f.inner).0, record f { inner = (act f.inner).1 })

  -- It has neither of the optional interfaces.
  unfoldable pub counting_store : Store W → Store (Fake W)
  unfolding record_call record_each
  counting_store store = record {
    driver = store.driver;
    ready = passed store.ready;
    get = λ key. counted op_get key (store.get key);
    set = λ key value ttl. counted op_set key (store.set key value ttl);
    add = λ key value ttl. counted op_add key (store.add key value ttl);
    increment = λ key delta ttl. counted op_inc key (store.increment key delta ttl);
    decrement = λ key delta ttl. counted op_dec key (store.decrement key delta ttl);
    delete = λ key. counted op_delete key (store.delete key);
    delete_many = λ keys. counted_many keys (store.delete_many keys);
    flush = counted op_flush [] store.flush;
    lock_store = none;
    inspector = none;
  }

-- New, with the process store of an engine under it; the clock is at `now`.
unfoldable pub new_fake :
    (engine : Engine) → ℤ → ℤ → ℕ → Store (Fake (World engine)) × Fake (World engine)
unfolding counting_store
new_fake engine default_ttl cleanup_interval now =
    let (store, state) = new_memory_store engine default_ttl cleanup_interval in
    (counting_store store, record { inner = record { state = state; now = now }; counts = [] })
