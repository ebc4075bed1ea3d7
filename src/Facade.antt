-- ===== src/Facade.antt =====
-- cache.go: the Cache type over a store, with its observer. Contexts and durations of calls are not
-- modelled; the clock and the random source are parts of the world of the store.
pub mod Values
pub mod Remember
pub mod RateLimit
pub mod Refresh
pub mod Locks
use cache.Prelude.{
  ℕ, String, Bool, true, false, Option, none, some, List, [], ◌∷◌, ◌++◌, Bytes, Map, put, ℤ, pos,
  if◌then◌else◌,
}
use cache.Store.{
  Error, Result, ok, err, Driver, Act, pure, fail, lift, continue, attempt, ◌>>=◌, ◌>>◌, Store,
  ttl_or,
}
use cache.Memory.{default_cache_ttl}

pub record CacheOpEvent : Type 0 where
  pub operation : String
  pub key : Bytes
  pub hit : Bool
  pub err : Option Error
  pub driver : Driver

pub data DirectLockStatus : Type 0 where
  acquiring held releasing : DirectLockStatus

-- What a Cache and its clones share: the world of the store, what the observer was told, the owner
-- token once it is made, and the locks taken directly.
pub record Session (W : Type 0) : Type 0 where
  pub inner : W
  pub events : List CacheOpEvent
  pub owner : Option (Result Bytes)
  pub direct_locks : Map DirectLockStatus

-- `observed` is whether an observer is set. `read_random` is a full read of crypto/rand, and
-- `clock` is time.Now() in nanoseconds.
pub record Cache (W : Type 0) : Type 0 where
  pub store : Store W
  pub default_ttl : ℤ
  pub observed : Bool
  pub read_random : ℕ → Act W Bytes
  pub clock : W → ℕ

abbrev pub error_of : {A : Type 0} → Result A → Option Error
error_of (ok a) = none
error_of (err e) = some e

abbrev pub is_ok : {A : Type 0} → Result A → Bool
is_ok (ok a) = true
is_ok (err e) = false

abbrev pub is_hit : {A : Type 0} → Result (Option A) → Bool
is_hit (ok (some a)) = true
is_hit (ok none) = false
is_hit (err e) = false

abbrev pub is_true : Result Bool → Bool
is_true (ok b) = b
is_true (err e) = false

module _ {W : Type 0} where
  abbrev pub call : {A : Type 0} → Act W A → Act (Session W) A
  call m s = ((m s.inner).0, record s { inner = (m s.inner).1 })

  unfoldable pub observe :
      Cache W → String → Bytes → Bool → Option Error → Act (Session W) (Unit {0})
  observe c operation key hit e s =
      if c.observed
      then (
        ok tt,
        record s {
          events =
              s.events
              ++ record {
                operation = operation;
                key = key;
                hit = hit;
                err = e;
                driver = c.store.driver;
              }
                ∷ [];
        },
      )
      else (ok tt, s)

  -- An observer that is told of an outcome, and the outcome.
  abbrev pub report : {A : Type 0} → Cache W → String → Bytes → Bool → Result A → Act (Session W) A
  report c operation key hit r = do observe c operation key hit (error_of r); lift r

  unfoldable pub new_cache_with_ttl : Store W → ℤ → (ℕ → Act W Bytes) → (W → ℕ) → Cache W
  new_cache_with_ttl store default_ttl read_random clock = record {
    store = store;
    default_ttl = ttl_or default_ttl default_cache_ttl;
    observed = false;
    read_random = read_random;
    clock = clock;
  }

  unfoldable pub with_observer : Cache W → Cache W
  with_observer c = record c { observed = true }

  unfoldable pub resolve_ttl : Cache W → ℤ → ℤ
  resolve_ttl c ttl = ttl_or ttl c.default_ttl

  unfoldable pub get_bytes : Cache W → Bytes → Act (Session W) (Option Bytes)
  unfolding observe
  get_bytes c key = attempt (call (c.store.get key)) λ r. report c "get" key (is_hit r) r

  unfoldable pub set_bytes : Cache W → Bytes → Bytes → ℤ → Act (Session W) (Unit {0})
  unfolding observe resolve_ttl
  set_bytes c key value ttl =
      attempt (call (c.store.set key value (resolve_ttl c ttl))) λ r. report c "set" key false r

  unfoldable pub add : Cache W → Bytes → Bytes → ℤ → Act (Session W) Bool
  unfolding observe resolve_ttl
  add c key value ttl =
      attempt (call (c.store.add key value (resolve_ttl c ttl)))
        λ r. report c "add" key (is_true r) r

  unfoldable pub increment : Cache W → Bytes → ℤ → ℤ → Act (Session W) ℤ
  unfolding observe resolve_ttl
  increment c key delta ttl =
      attempt (call (c.store.increment key delta (resolve_ttl c ttl)))
        λ r. report c "increment" key (is_ok r) r

  unfoldable pub decrement : Cache W → Bytes → ℤ → ℤ → Act (Session W) ℤ
  unfolding observe resolve_ttl
  decrement c key delta ttl =
      attempt (call (c.store.decrement key delta (resolve_ttl c ttl)))
        λ r. report c "decrement" key (is_ok r) r

  unfoldable pub delete : Cache W → Bytes → Act (Session W) (Unit {0})
  unfolding observe
  delete c key = attempt (call (c.store.delete key)) λ r. report c "delete" key (is_ok r) r

  abbrev report_each : Cache W → List Bytes → Result (Unit {0}) → Act (Session W) (Unit {0})
  report_each c [] r = lift r
  report_each c (key ∷ keys) r = do
    observe c "delete_many" key (is_ok r) (error_of r)
    report_each c keys r

  unfoldable pub delete_many : Cache W → List Bytes → Act (Session W) (Unit {0})
  unfolding observe
  delete_many c keys = attempt (call (c.store.delete_many keys)) (report_each c keys)

  unfoldable pub flush : Cache W → Act (Session W) (Unit {0})
  unfolding observe
  flush c = attempt (call c.store.flush) λ r. report c "flush" [] (is_ok r) r

  -- The loop of BatchGetBytes over the keys, with the map that it fills.
  unfoldable pub batch_get_into : Cache W → List Bytes → Map Bytes → Act (Session W) (Map Bytes)
  unfolding get_bytes
  batch_get_into c [] out = pure out
  batch_get_into c (key ∷ keys) out = do
    o ← get_bytes c key
    batch_get_into c keys (elim o [ none ↦ out | some body ↦ put key body out ])

  -- BatchSetBytes over the entries in the order in which the map yields them.
  unfoldable pub batch_set_bytes : Cache W → Map Bytes → ℤ → Act (Session W) (Unit {0})
  unfolding set_bytes
  batch_set_bytes c [] ttl = pure tt
  batch_set_bytes c ((key, value) ∷ values) ttl = do
    set_bytes c key value ttl
    batch_set_bytes c values ttl

  unfoldable pub pull_bytes : Cache W → Bytes → Act (Session W) (Option Bytes)
  unfolding get_bytes delete
  pull_bytes c key = attempt (get_bytes c key) λ r. elim r [
    | err e ↦ report c "pull" key false (err e)
    | ok none ↦ report c "pull" key false (ok none)
    | ok (some body) ↦ attempt (delete c key) λ d. elim d [
      | err e ↦ report c "pull" key false (err e)
      | ok done ↦ report c "pull" key true (ok (some body))
    ]
  ]
