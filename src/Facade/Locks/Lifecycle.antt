-- ===== src/Facade/Locks/Lifecycle.antt =====
-- tryLock and unlock of cache.go on one Cache: the direct locks guard the store.
use cache.Prelude.{
  ◌≡◌, true, false, Option, none, some, arith, Bytes, ◌++◌, equal_refl, ℤ, is_positive, lookup,
  lookup-put, lookup-without, put, subst, sym, ap, ◌∙◌,
}
use cache.Store.{ok}
use cache.Facade.{DirectLockStatus, Cache, Session, acquiring, held, releasing, observe}
use cache.Facade.Locks.{
  lock_prefix, begin_acquire, finish_acquire, begin_release, finish_release, lock_owner_token,
  try_lock, try_lock_direct, try_lock_owned, unlock, unlock_owned, uses_direct_lock_lifecycle,
}
use cache.Facade.Locks.Ownership.{IsLocking, lock_entry, try_lock_owned_free, unlock_owned_own}

module _ {W : Type 0} (c : Cache W) (key owner : Bytes) where
  token_made : (s : Session W) → s.owner ≡ some (ok owner) → lock_owner_token c s ≡ (ok owner, s)
  unfolding lock_owner_token
  token_made s made = ground (arith, made)

  -- What goes through the store alone keeps the direct locks and the token.
  try_lock_owned-keeps :
      (ttl : ℤ) (s : Session W)
      → ((try_lock_owned c key owner ttl s).1.direct_locks ≡ s.direct_locks)
        × ((try_lock_owned c key owner ttl s).1.owner ≡ s.owner)
  unfolding try_lock_owned observe
  try_lock_owned-keeps ttl s = ground arith

  unlock_owned-keeps :
      (s : Session W)
      → ((unlock_owned c key owner s).1.direct_locks ≡ s.direct_locks)
        × ((unlock_owned c key owner s).1.owner ≡ s.owner)
  unfolding unlock_owned observe
  unlock_owned-keeps s = ground arith

  pub try_lock-direct :
      uses_direct_lock_lifecycle c ≡ true
      → (ttl : ℤ) (s : Session W) → s.owner ≡ some (ok owner)
      → try_lock c key ttl s ≡ try_lock_direct c key owner ttl s
  unfolding try_lock uses_direct_lock_lifecycle
  try_lock-direct direct ttl s made = ground (arith, token_made s made, direct)

  -- A key of any status is refused without a call of the store.
  pub try_lock_direct-refused :
      (p : DirectLockStatus) (ttl : ℤ) (s : Session W)
      → lookup key s.direct_locks ≡ some p
      → ((try_lock_direct c key owner ttl s).0 ≡ ok false)
        × ((try_lock_direct c key owner ttl s).1.inner ≡ s.inner)
        × ((try_lock_direct c key owner ttl s).1.direct_locks ≡ s.direct_locks)
        × ((try_lock_direct c key owner ttl s).1.owner ≡ s.owner)
  unfolding try_lock_direct begin_acquire observe
  try_lock_direct-refused p ttl s h = ground (arith, h)

module _ {W V : Type 0} (view : W → Bytes → Option V) (stored : Bytes → V) (c : Cache W)
    (locking : IsLocking c.store view stored) (direct : uses_direct_lock_lifecycle c ≡ true)
    (key : Bytes) where
  -- The session in which a Cache holds the lock of the key.
  abbrev pub Holding : Bytes → Session W → Type 0
  Holding owner s =
      (s.owner ≡ some (ok owner))
      × (lookup key s.direct_locks ≡ some held)
      × (lock_entry view stored key s ≡ some (stored owner))

  try_lock_direct-free :
      (owner : Bytes) (ttl : ℤ) (s : Session W)
      → is_positive ttl ≡ true
      → s.owner ≡ some (ok owner)
      → lookup key s.direct_locks ≡ none
      → lock_entry view stored key s ≡ none
      → ((try_lock_direct c key owner ttl s).0 ≡ ok true)
        × Holding owner (try_lock_direct c key owner ttl s).1
  unfolding try_lock_direct begin_acquire finish_acquire
  try_lock_direct-free owner ttl s positive made unheld free =
      let s' : Session W = record s { direct_locks = put key acquiring s.direct_locks } in
      ground (
        arith,
        equal_refl key,
        try_lock_owned_free view stored c locking key owner ttl s' positive free,
        try_lock_owned-keeps c key owner ttl s',
        lookup-put key key held (put key acquiring s.direct_locks),
      )

  unlock-Holding :
      (owner : Bytes) (s : Session W)
      → Holding owner s
      → ((unlock c key s).0 ≡ ok tt)
        × (lookup key (unlock c key s).1.direct_locks ≡ none)
        × (lock_entry view stored key (unlock c key s).1 ≡ none)
  unfolding unlock begin_release finish_release uses_direct_lock_lifecycle
  unlock-Holding owner s (made, is_held, mine) =
      let s' : Session W = record s { direct_locks = put key releasing s.direct_locks } in
      ground (
        arith,
        equal_refl key,
        direct,
        is_held,
        token_made c key owner s' made,
        unlock_owned_own view stored c locking key owner s' mine,
        unlock_owned-keeps c key owner s',
        lookup-without key key (put key releasing s.direct_locks),
      )

  -- Over a store whose lock operations compare owners and whose driver is not the null one, a
  -- Cache with its token made takes a lock that is free and that it does not hold, with a positive
  -- TTL; a second TryLock of the same Cache is refused without a call of the store; and its Unlock
  -- then frees the lock, in the store and for the Cache.
  pub try_lock_cycle :
      (owner : Bytes) (ttl ttl' : ℤ) (s : Session W)
      → is_positive ttl ≡ true
      → s.owner ≡ some (ok owner)
      → lookup key s.direct_locks ≡ none
      → lock_entry view stored key s ≡ none
      → let s1 = (try_lock c key ttl s).1 in
        let s2 = (try_lock c key ttl' s1).1 in
        ((try_lock c key ttl s).0 ≡ ok true)
        × (lock_entry view stored key s1 ≡ some (stored owner))
        × ((try_lock c key ttl' s1).0 ≡ ok false)
        × (s2.inner ≡ s1.inner)
        × ((unlock c key s2).0 ≡ ok tt)
        × (lookup key (unlock c key s2).1.direct_locks ≡ none)
        × (lock_entry view stored key (unlock c key s2).1 ≡ none)
  try_lock_cycle owner ttl ttl' s positive made unheld free =
      let s1 = (try_lock c key ttl s).1 in
      let s2 = (try_lock c key ttl' s1).1 in
      let (locked, (owned, is_held, mine)) =
        subst (λ r. (r.0 ≡ ok true) × Holding owner r.1)
          (sym (try_lock-direct c key owner direct ttl s made))
          (try_lock_direct-free owner ttl s positive made unheld free) in
      let (refused, same, still, token) =
        subst
          (λ r.
            (r.0 ≡ ok false)
            × (r.1.inner ≡ s1.inner)
            × (r.1.direct_locks ≡ s1.direct_locks)
            × (r.1.owner ≡ s1.owner))
          (sym (try_lock-direct c key owner direct ttl' s1 owned))
          (try_lock_direct-refused c key owner held ttl' s1 is_held) in
      let (unlocked, unrecorded, freed) = unlock-Holding owner s2 (
        token ∙ owned,
        ap (lookup key) still ∙ is_held,
        ap (λ (w : W). view w (lock_prefix ++ key)) same ∙ mine,
      ) in
      (locked, mine, refused, same, unlocked, unrecorded, freed)
