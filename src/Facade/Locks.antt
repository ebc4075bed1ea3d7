-- ===== src/Facade/Locks.antt =====
-- The locks of cache.go: owner tokens, the status of locks taken directly, and waiting. A Cache is
-- shared by callers, and other processes share the store: what they do while a caller waits is a
-- step of its waiting.
pub mod Handle
pub mod Exclusion
pub mod Ownership
pub mod Lifecycle
use cache.Prelude.{
  ℕ, Bool, true, false, not, Option, none, some, List, [], ◌∷◌, ◌++◌, Bytes, codes, Map, lookup,
  put, without, ℤ, is_positive, if◌then◌else◌,
}
use cache.Store.{
  Error, Result, ok, err, text, join, Driver, null, Act, pure, fail, lift, continue, attempt, ◌>>=◌,
  ◌>>◌,
}
use cache.Store.Contract.{acquire, release}
use cache.Facade.{
  Cache, Session, DirectLockStatus, acquiring, held, releasing, call, observe, report, error_of,
  is_ok, is_true,
}

abbrev pub lock_prefix : Bytes
lock_prefix = codes "__lock:"

-- The four critical sections of cacheDirectLocks. A begin answers whether it may go on.
unfoldable pub begin_acquire : Bytes → Map DirectLockStatus → Bool × Map DirectLockStatus
begin_acquire key locks = elim (lookup key locks) [
  | some status ↦ (false, locks)
  | none ↦ (true, put key acquiring locks)
]

unfoldable pub finish_acquire : Bytes → Bool → Map DirectLockStatus → Map DirectLockStatus
finish_acquire key acquired locks = if acquired then put key held locks else without key locks

abbrev is_held : Option DirectLockStatus → Bool
is_held (some held) = true
is_held _ = false

unfoldable pub begin_release : Bytes → Map DirectLockStatus → Bool × Map DirectLockStatus
begin_release key locks =
    if is_held (lookup key locks) then (true, put key releasing locks) else (false, locks)

unfoldable pub finish_release : Bytes → Bool → Map DirectLockStatus → Map DirectLockStatus
finish_release key succeeded locks = if succeeded then without key locks else put key held locks

abbrev is_null : Driver → Bool
is_null null = true
is_null _ = false

module _ {W : Type 0} where
  -- One critical section of the direct locks.
  abbrev pub locks_begin :
      (Map DirectLockStatus → Bool × Map DirectLockStatus) → Act (Session W) Bool
  locks_begin f s = (ok (f s.direct_locks).0, record s { direct_locks = (f s.direct_locks).1 })

  abbrev pub locks_finish :
      (Map DirectLockStatus → Map DirectLockStatus) → Act (Session W) (Unit {0})
  locks_finish f s = (ok tt, record s { direct_locks = f s.direct_locks })

  unfoldable pub uses_direct_lock_lifecycle : Cache W → Bool
  uses_direct_lock_lifecycle c = not (is_null c.store.driver)

  -- 32 random bytes, or the wrapped error of the random source.
  unfoldable pub new_lock_owner_token : Cache W → Act W Bytes
  new_lock_owner_token c =
      attempt (c.read_random 32) λ r. elim r [
        | ok token ↦ pure token
        | err e ↦ fail (join (text "create cache lock owner") e)
      ]

  -- The token is made once, and so is the error.
  unfoldable pub lock_owner_token : Cache W → Act (Session W) Bytes
  unfolding new_lock_owner_token
  lock_owner_token c s = elim s.owner [
    | some r ↦ (r, s)
    | none ↦
        let (r, w) = new_lock_owner_token c s.inner in (r, record s { inner = w; owner = some r })
  ]

  unfoldable pub try_lock_owned : Cache W → Bytes → Bytes → ℤ → Act (Session W) Bool
  unfolding observe acquire
  try_lock_owned c key owner ttl =
      if not (is_positive ttl)
      then fail (text "cache try lock requires ttl > 0")
      else attempt (call (acquire c.store (lock_prefix ++ key) owner ttl))
          λ r. report c "try_lock" key (is_true r) r

  -- What follows a successful begin_acquire.
  abbrev pub finish_locking : Bytes → Act (Session W) Bool → Act (Session W) Bool
  finish_locking key m = attempt m λ r. do locks_finish (finish_acquire key (is_true r)); lift r

  -- The part of tryLock that goes through the direct locks.
  unfoldable pub try_lock_direct : Cache W → Bytes → Bytes → ℤ → Act (Session W) Bool
  unfolding begin_acquire finish_acquire try_lock_owned
  try_lock_direct c key owner ttl = do
    began ← locks_begin (begin_acquire key)
    if began
        then finish_locking key (try_lock_owned c key owner ttl)
        else report c "try_lock" key false (ok false)

  unfoldable pub try_lock : Cache W → Bytes → ℤ → Act (Session W) Bool
  unfolding try_lock_direct lock_owner_token uses_direct_lock_lifecycle
  try_lock c key ttl = do
    owner ← lock_owner_token c
    if not (uses_direct_lock_lifecycle c)
        then try_lock_owned c key owner ttl
        else try_lock_direct c key owner ttl

  -- Waits for the retry interval, in each of which others change the session; at the end of the
  -- list the context is done.
  unfoldable pub lock_owned_since :
      Cache W → Bytes → Bytes → ℤ → Error → List (Session W → Session W) → Act (Session W) Bool
  unfolding try_lock_owned
  lock_owned_since c key owner ttl ctx_err [] = attempt (try_lock_owned c key owner ttl) λ r.
      elim r [
        | err e ↦ report c "lock" key false (err e)
        | ok true ↦ report c "lock" key true (ok true)
        | ok false ↦ report c "lock" key false (err ctx_err)
      ]
  lock_owned_since c key owner ttl ctx_err (others ∷ waits) =
      let again = lock_owned_since c key owner ttl ctx_err waits in
      attempt (try_lock_owned c key owner ttl) λ r. elim r [
        | err e ↦ report c "lock" key false (err e)
        | ok true ↦ report c "lock" key true (ok true)
        | ok false ↦ λ s. again (others s)
      ]

  -- The first loop of lock: until no caller of the same Cache has the key.
  unfoldable pub lock_direct :
      Cache W → Bytes → Bytes → ℤ → Error → List (Session W → Session W) → Act (Session W) Bool
  unfolding begin_acquire finish_acquire lock_owned_since
  lock_direct c key owner ttl ctx_err [] = do
    began ← locks_begin (begin_acquire key)
    if began
        then finish_locking key (lock_owned_since c key owner ttl ctx_err [])
        else report c "lock" key false (err ctx_err)
  lock_direct c key owner ttl ctx_err (others ∷ waits) =
      let again = lock_direct c key owner ttl ctx_err waits in
      do
        began ← locks_begin (begin_acquire key)
        if began
            then finish_locking key (lock_owned_since c key owner ttl ctx_err (others ∷ waits))
            else λ s. again (others s)

  unfoldable pub lock :
      Cache W → Bytes → ℤ → Error → List (Session W → Session W) → Act (Session W) Bool
  unfolding lock_owner_token lock_direct uses_direct_lock_lifecycle
  lock c key ttl ctx_err waits = do
    owner ← lock_owner_token c
    if not (uses_direct_lock_lifecycle c)
        then lock_owned_since c key owner ttl ctx_err waits
        else lock_direct c key owner ttl ctx_err waits

  unfoldable pub unlock_owned : Cache W → Bytes → Bytes → Act (Session W) (Unit {0})
  unfolding observe release
  unlock_owned c key owner = attempt (call (release c.store (lock_prefix ++ key) owner)) λ r.
      elim r [
        | ok released ↦ report c "unlock" key released (ok tt)
        | err e ↦ report c "unlock" key false (err e)
      ]

  unfoldable pub unlock : Cache W → Bytes → Act (Session W) (Unit {0})
  unfolding begin_release finish_release lock_owner_token unlock_owned uses_direct_lock_lifecycle
  unlock c key =
      if not (uses_direct_lock_lifecycle c)
      then (do owner ← lock_owner_token c; unlock_owned c key owner)
      else do
        began ← locks_begin (begin_release key)
        if not began
            then report c "unlock" key false (ok tt)
            else attempt (lock_owner_token c) λ t. elim t [
              | err e ↦ do locks_finish (finish_release key false); fail e
              | ok owner ↦
                  attempt (unlock_owned c key owner)
                    λ r. do locks_finish (finish_release key (is_ok r)); lift r
            ]
