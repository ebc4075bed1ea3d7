-- ===== src/Facade/Locks/Handle.antt =====
-- lock_handle.go: a handle with an owner token of its own, and callbacks under its lock.
use cache.Prelude.{Bool, true, false, Option, none, some, List, Bytes, ℤ, if◌then◌else◌}
use cache.Store.{Error, Result, ok, err, text, Act}
use cache.Facade.{Cache, Session, error_of}
use cache.Facade.Locks.{try_lock_owned, lock_owned_since, unlock_owned}

-- `owner` is the token, or the error of making it.
pub record LockHandle (W : Type 0) : Type 0 where
  pub cache_of : Cache W
  pub key : Bytes
  pub ttl : ℤ
  pub owner : Result Bytes

-- The session of the Cache, and the flag `held` that the clones of a handle share.
pub record HandleState (W : Type 0) : Type 0 where
  pub session : Session W
  pub held : Bool

module _ {W : Type 0} where
  -- The token is tried only if there is one and the handle is not held already.
  abbrev take_owned : (Bytes → Act (Session W) Bool) → Result Bytes → Act (HandleState W) Bool
  take_owned take (err e) s = (err e, s)
  take_owned take (ok owner) s =
      let (r, session) = take owner s.session in
      let tried : Result Bool × HandleState W =
        (r, record { session = session; held = elim r [ ok b ↦ b | err e ↦ false ] }) in
      if s.held then (ok false, s) else tried

  unfoldable pub acquire : LockHandle W → Act (HandleState W) Bool
  unfolding try_lock_owned
  acquire h = take_owned (λ owner. try_lock_owned h.cache_of h.key owner h.ttl) h.owner

  abbrev release_owned : LockHandle W → Result Bytes → Act (HandleState W) (Unit {0})
  release_owned h (err e) s = (ok tt, s)
  release_owned h (ok owner) s =
      let (r, session) = unlock_owned h.cache_of h.key owner s.session in
      (r, record { session = session; held = elim r [ ok done ↦ false | err e ↦ true ] })

  -- A handle that made no token was never held.
  unfoldable pub release : LockHandle W → Act (HandleState W) (Unit {0})
  unfolding unlock_owned
  release h s = let r = release_owned h h.owner s in if s.held then r else (ok tt, s)

  abbrev called : Option (Act (Session W) (Unit {0})) → Session W → Option Error × Session W
  called none s = (some (text "cache lock handle requires a callback"), s)
  called (some f) s = (error_of (f s).0, (f s).1)

  -- The shared sequence of get and block: take the lock, call back, release.
  abbrev guarded :
      LockHandle W
      → Option (Act (Session W) (Unit {0}))
      → Result Bool
      → HandleState W
      → (Bool × Option Error) × HandleState W
  guarded h fn (err e) s = ((false, some e), s)
  guarded h fn (ok false) s = ((false, none), s)
  guarded h fn (ok true) s =
      let (e, session) = called fn s.session in
      ((true, e), (release h (record s { session = session })).1)

  -- `(locked, err)` and the state; the flag stands beside an error too.
  unfoldable pub get :
      LockHandle W
      → Option (Act (Session W) (Unit {0}))
      → HandleState W
      → (Bool × Option Error) × HandleState W
  unfolding acquire release
  get h fn s = let (r, s') = acquire h s in guarded h fn r s'

  unfoldable pub block :
      LockHandle W
      → Error
      → List (Session W → Session W)
      → Option (Act (Session W) (Unit {0}))
      → HandleState W
      → (Bool × Option Error) × HandleState W
  unfolding lock_owned_since release
  block h ctx_err waits fn s =
      let (r, s') =
        take_owned (λ owner. lock_owned_since h.cache_of h.key owner h.ttl ctx_err waits) h.owner
          s in
      guarded h fn r s'
