-- ===== src/Facade/Locks/Ownership.antt =====
-- Lock ownership through cache.go and lock_handle.go, over a store whose lock operations compare
-- owners.
use cache.Prelude.{
  ◌≡◌, ◌≢◌, ◌∙◌, true, false, Option, none, some, ◌++◌, arith, Bytes, ℤ, is_positive,
}
use cache.Store.{ok, Act, Store}
use cache.Store.Contract.{acquire, release}
use cache.Facade.{Cache, Session, observe, error_of}
use cache.Facade.Locks.{lock_prefix, try_lock_owned, unlock_owned}
use cache.Facade.Locks.Handle
use cache.Facade.Locks.Handle.{LockHandle, HandleState}

-- LockAcquire records the owner where the key is absent and refuses where it is present, and
-- LockRelease removes the key only while it belongs to the owner. `view` is the entry of a key, and
-- `stored` what the store makes of an owner token.
pub record IsLocking {W V : Type 0} (s : Store W) (view : W → Bytes → Option V) (stored : Bytes → V)
    : Type 0 where
  pub absent :
      (k o : Bytes) (t : ℤ) (w : W)
      → view w k ≡ none
      → is_positive t ≡ true
      → ((acquire s k o t w).0 ≡ ok true) × (view (acquire s k o t w).1 k ≡ some (stored o))
  pub present :
      (k o : Bytes) (v : V) (t : ℤ) (w : W)
      → view w k ≡ some v
      → ((acquire s k o t w).0 ≡ ok false) × (view (acquire s k o t w).1 k ≡ some v)
  pub own :
      (k o : Bytes) (w : W)
      → view w k ≡ some (stored o)
      → ((release s k o w).0 ≡ ok true) × (view (release s k o w).1 k ≡ none)
  pub other :
      (k o : Bytes) (w : W)
      → view w k ≢ some (stored o)
      → ((release s k o w).0 ≡ ok false) × (view (release s k o w).1 k ≡ view w k)

module _ {W V : Type 0} (view : W → Bytes → Option V) (stored : Bytes → V) where
  abbrev pub lock_entry : Bytes → Session W → Option V
  lock_entry key s = view s.inner (lock_prefix ++ key)

  module _ (c : Cache W) (locking : IsLocking c.store view stored) (key : Bytes) where
    pub try_lock_owned_free :
        (owner : Bytes) (ttl : ℤ) (s : Session W)
        → is_positive ttl ≡ true
        → lock_entry key s ≡ none
        → ((try_lock_owned c key owner ttl s).0 ≡ ok true)
          × (lock_entry key (try_lock_owned c key owner ttl s).1 ≡ some (stored owner))
    unfolding try_lock_owned observe
    try_lock_owned_free owner ttl s positive free =
        ground (arith, locking.absent (lock_prefix ++ key) owner ttl s.inner free positive)

    try_lock_owned_taken :
        (owner : Bytes) (holder : V) (ttl : ℤ) (s : Session W)
        → is_positive ttl ≡ true
        → lock_entry key s ≡ some holder
        → ((try_lock_owned c key owner ttl s).0 ≡ ok false)
          × (lock_entry key (try_lock_owned c key owner ttl s).1 ≡ some holder)
    unfolding try_lock_owned observe
    try_lock_owned_taken owner holder ttl s positive taken =
        ground (arith, locking.present (lock_prefix ++ key) owner holder ttl s.inner taken)

    pub unlock_owned_own :
        (owner : Bytes) (s : Session W)
        → lock_entry key s ≡ some (stored owner)
        → ((unlock_owned c key owner s).0 ≡ ok tt)
          × (lock_entry key (unlock_owned c key owner s).1 ≡ none)
    unfolding unlock_owned observe
    unlock_owned_own owner s mine =
        ground (arith, locking.own (lock_prefix ++ key) owner s.inner mine)

    unlock_owned_other :
        (owner : Bytes) (s : Session W)
        → lock_entry key s ≢ some (stored owner)
        → ((unlock_owned c key owner s).0 ≡ ok tt)
          × (lock_entry key (unlock_owned c key owner s).1 ≡ lock_entry key s)
    unfolding unlock_owned observe
    unlock_owned_other owner s theirs =
        ground (arith, locking.other (lock_prefix ++ key) owner s.inner theirs)

    -- Over a store whose lock operations compare owners, an owner takes a free lock, with a
    -- positive TTL; another owner, whose token differs, that tries the lock and then unlocks it is
    -- refused and frees nothing; and the owner's unlock then frees the lock.
    pub owner_excludes_others :
        (owner rival : Bytes) (ttl ttl' : ℤ) (s : Session W)
        → is_positive ttl ≡ true
        → is_positive ttl' ≡ true
        → stored owner ≢ stored rival
        → lock_entry key s ≡ none
        → let s1 = (try_lock_owned c key owner ttl s).1 in
          let s2 = (try_lock_owned c key rival ttl' s1).1 in
          let s3 = (unlock_owned c key rival s2).1 in
          ((try_lock_owned c key owner ttl s).0 ≡ ok true)
          × ((try_lock_owned c key rival ttl' s1).0 ≡ ok false)
          × ((unlock_owned c key rival s2).0 ≡ ok tt)
          × (lock_entry key s3 ≡ some (stored owner))
          × (lock_entry key (unlock_owned c key owner s3).1 ≡ none)
    owner_excludes_others owner rival ttl ttl' s positive positive' differ free =
        let s1 = (try_lock_owned c key owner ttl s).1 in
        let s2 = (try_lock_owned c key rival ttl' s1).1 in
        let s3 = (unlock_owned c key rival s2).1 in
        let (locked, mine) = try_lock_owned_free owner ttl s positive free in
        let (refused, kept) = try_lock_owned_taken rival (stored owner) ttl' s1 positive' mine in
        let (unlocked, still) = unlock_owned_other rival s2 (λ e. differ (cc (kept, e))) in
        let entry : lock_entry key s3 ≡ some (stored owner) = still ∙ kept in
        (locked, refused, unlocked, entry, (unlock_owned_own owner s3 entry).1)

  module _ (h : LockHandle W) (locking : IsLocking h.cache_of.store view stored) (owner : Bytes)
      (made : h.owner ≡ ok owner) where
    -- Over a store whose lock operations compare owners, releasing a held handle whose lock has
    -- expired and was taken by another owner, or is free, succeeds, leaves the lock as it is, and
    -- the handle is no longer held.
    pub release_keeps_successor :
        (s : HandleState W)
        → s.held ≡ true
        → lock_entry h.key s.session ≢ some (stored owner)
        → ((Handle.release h s).0 ≡ ok tt)
          × (lock_entry h.key (Handle.release h s).1.session ≡ lock_entry h.key s.session)
          × ((Handle.release h s).1.held ≡ false)
    unfolding Handle.release
    release_keeps_successor s is_held theirs =
        ground (arith, made, unlock_owned_other h.cache_of locking h.key owner s.session theirs)

    -- Over a store whose lock operations compare owners, get of a handle that is not held, on a
    -- free lock and with a positive TTL, calls back under the lock and gives its error back with
    -- the flag set; if the callback leaves the entry of the lock alone, the lock is free and the
    -- handle not held afterwards, whether the callback failed or not.
    pub get_under_lock :
        (fn : Act (Session W) (Unit {0})) (s : HandleState W)
        → s.held ≡ false
        → is_positive h.ttl ≡ true
        → lock_entry h.key s.session ≡ none
        → ((u : Session W) → lock_entry h.key (fn u).1 ≡ lock_entry h.key u)
        → ((Handle.get h (some fn) s).0
            ≡ (true, error_of (fn (try_lock_owned h.cache_of h.key owner h.ttl s.session).1).0))
          × (lock_entry h.key (Handle.get h (some fn) s).1.session ≡ none)
          × ((Handle.get h (some fn) s).1.held ≡ false)
    unfolding Handle.get
    get_under_lock fn s not_held positive free alone = ground (
      arith,
      made,
      try_lock_owned_free h.cache_of locking h.key owner h.ttl s.session positive free,
      alone (try_lock_owned h.cache_of h.key owner h.ttl s.session).1,
      unlock_owned_own h.cache_of locking h.key owner
          (fn (try_lock_owned h.cache_of h.key owner h.ttl s.session).1).1,
    )
