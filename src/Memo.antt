-- ===== src/Memo.antt =====
-- store_memo.go: the decorator that memoizes reads of a backing store in the process. A Get is
-- two critical sections round a call of the backing store, `recall` and `publish`.
pub mod Transparent
pub mod Race
use cache.Prelude.{
  ℕ, ◌+◌, ◌%◌, ◌==◌, Bool, true, false, Option, none, some, List, [], ◌∷◌, Bytes, Map, lookup, put,
  without, ℤ, two64, if◌then◌else◌,
}
use cache.Store.{
  Store, Result, ok, err, inspector_unsupported, Act, pure, fail, continue, ◌>>=◌, ◌>>◌, LockStore,
  Inspector, no_capabilities,
}

-- An entry records the last read of its key, a miss included.
pub record MemoState : Type 0 where
  pub items : Map (Option Bytes)
  pub generation : ℕ

pub record Memoized (W : Type 0) : Type 0 where
  pub inner : W
  pub memo : MemoState

abbrev pub empty : MemoState
empty = record { items = []; generation = 0 }

unfoldable pub forget : Bytes → MemoState → MemoState
forget key m = record { items = without key m.items; generation = (m.generation + 1) % two64 }

-- The second critical section of Get: keep what was read only if nothing was written meanwhile.
unfoldable pub publish : Bytes → ℕ → Option Bytes → MemoState → MemoState
publish key generation value m =
    if m.generation == generation then record m { items = put key value m.items } else m

-- The loop of DeleteMany over the memo, and its new generation.
abbrev pub without_all : List Bytes → Map (Option Bytes) → Map (Option Bytes)
without_all [] items = items
without_all (k ∷ ks) items = without_all ks (without k items)

unfoldable pub forget_many : List Bytes → MemoState → MemoState
forget_many keys m = record {
  items = without_all keys m.items;
  generation = (m.generation + 1) % two64;
}

unfoldable pub forget_all : MemoState → MemoState
forget_all m = record { items = []; generation = (m.generation + 1) % two64 }

module _ {W : Type 0} where
  -- A call of the backing store.
  abbrev pub delegate : {A : Type 0} → Act W A → Act (Memoized W) A
  delegate m s = ((m s.inner).0, record s { inner = (m s.inner).1 })

  abbrev pub update : (MemoState → MemoState) → Act (Memoized W) (Unit {0})
  update f s = (ok tt, record s { memo = f s.memo })

  unfoldable pub get : Store W → Bytes → Act (Memoized W) (Option Bytes)
  unfolding publish
  get store key s = elim (lookup key s.memo.items) [
    | some entry ↦ (ok entry, s)
    | none ↦
        (do
          value ← delegate (store.get key)
          update (publish key s.memo.generation value)
          pure value)
          s
  ]

  unfoldable pub set : Store W → Bytes → Bytes → ℤ → Act (Memoized W) (Unit {0})
  unfolding forget
  set store key value ttl = do delegate (store.set key value ttl); update (forget key)

  unfoldable pub add : Store W → Bytes → Bytes → ℤ → Act (Memoized W) Bool
  unfolding forget
  add store key value ttl = do
    created ← delegate (store.add key value ttl)
    if created then update (forget key) else pure tt
    pure created

  unfoldable pub lock_acquire : Store W → Bytes → Bytes → ℤ → Act (Memoized W) Bool
  unfolding forget add
  lock_acquire store key owner ttl = elim store.lock_store [
    | none ↦ add store key owner ttl
    | some l ↦ do
      created ← delegate (l.lock_acquire key owner ttl)
      if created then update (forget key) else pure tt
      pure created
  ]

  unfoldable pub delete : Store W → Bytes → Act (Memoized W) (Unit {0})
  unfolding forget
  delete store key = do delegate (store.delete key); update (forget key)

  unfoldable pub lock_release : Store W → Bytes → Bytes → Act (Memoized W) Bool
  unfolding forget delete
  lock_release store key owner = elim store.lock_store [
    | none ↦ do delete store key; pure true
    | some l ↦ do
      released ← delegate (l.lock_release key owner)
      if released then update (forget key) else pure tt
      pure released
  ]

  unfoldable pub increment : Store W → Bytes → ℤ → ℤ → Act (Memoized W) ℤ
  unfolding forget
  increment store key delta ttl = do
    value ← delegate (store.increment key delta ttl)
    update (forget key)
    pure value

  unfoldable pub decrement : Store W → Bytes → ℤ → ℤ → Act (Memoized W) ℤ
  unfolding forget
  decrement store key delta ttl = do
    value ← delegate (store.decrement key delta ttl)
    update (forget key)
    pure value

  unfoldable pub delete_many : Store W → List Bytes → Act (Memoized W) (Unit {0})
  unfolding forget_many
  delete_many store keys = do delegate (store.delete_many keys); update (forget_many keys)

  unfoldable pub flush : Store W → Act (Memoized W) (Unit {0})
  unfolding forget_all
  flush store = do delegate store.flush; update forget_all

  -- Capabilities and ListPage pass through; a store without them lists nothing.
  unfoldable pub inspector : Store W → Inspector (Memoized W)
  inspector store = record {
    capabilities =
        λ s. elim store.inspector [ none ↦ no_capabilities | some i ↦ i.capabilities s.inner ];
    list_page = λ opts. elim store.inspector [
      | none ↦ fail inspector_unsupported
      | some i ↦ delegate (i.list_page opts)
    ];
  }

  unfoldable pub memo_store : Store W → Store (Memoized W)
  unfolding get set add lock_acquire lock_release increment decrement delete delete_many flush
      inspector
  memo_store store = record {
    driver = store.driver;
    ready = delegate store.ready;
    get = get store;
    set = set store;
    add = add store;
    increment = increment store;
    decrement = decrement store;
    delete = delete store;
    delete_many = delete_many store;
    flush = flush store;
    lock_store =
        some (record { lock_acquire = lock_acquire store; lock_release = lock_release store });
    inspector = some (inspector store);
  }
