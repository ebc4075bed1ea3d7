-- ===== src/Store/Contract.antt =====
-- What a client may call on a store, and the contract that the wrappers rely on.
use cache.Prelude.{◌≡◌, Bool, true, false, ◌||◌, Option, none, some, List, [], ◌∷◌, Bytes, equal, ℤ}
use cache.Store.{Store, Result, ok, err, Act, pure, ◌>>=◌, ◌>>◌}

pub data Command : Type 0 where
  get : Bytes → Command
  set add : Bytes → Bytes → ℤ → Command
  increment decrement : Bytes → ℤ → ℤ → Command
  delete : Bytes → Command
  delete_many : List Bytes → Command
  flush : Command
  lock_acquire : Bytes → Bytes → ℤ → Command
  lock_release : Bytes → Bytes → Command

pub data Reply : Type 0 where
  found : Option Bytes → Reply
  done : Reply
  flag : Bool → Reply
  number : ℤ → Reply

module _ {W : Type 0} (s : Store W) where
  -- LockAcquire of the optional interface, or Add where the store has none.
  unfoldable pub acquire : Bytes → Bytes → ℤ → Act W Bool
  acquire key owner ttl = elim s.lock_store [
    | none ↦ s.add key owner ttl
    | some l ↦ l.lock_acquire key owner ttl
  ]

  -- LockRelease of the optional interface, or Delete where the store has none.
  unfoldable pub release : Bytes → Bytes → Act W Bool
  release key owner = elim s.lock_store [
    | none ↦ do s.delete key; pure true
    | some l ↦ l.lock_release key owner
  ]

module _ {W : Type 0} where
  unfoldable pub exec : Store W → Command → Act W Reply
  unfolding acquire release
  exec s (get k) = do o ← s.get k; pure (found o)
  exec s (set k v ttl) = do s.set k v ttl; pure done
  exec s (add k v ttl) = do b ← s.add k v ttl; pure (flag b)
  exec s (increment k d ttl) = do n ← s.increment k d ttl; pure (number n)
  exec s (decrement k d ttl) = do n ← s.decrement k d ttl; pure (number n)
  exec s (delete k) = do s.delete k; pure done
  exec s (delete_many ks) = do s.delete_many ks; pure done
  exec s flush = do s.flush; pure done
  exec s (lock_acquire k owner ttl) = do b ← acquire s k owner ttl; pure (flag b)
  exec s (lock_release k owner) = do b ← release s k owner; pure (flag b)

  -- The replies of a run of commands, errors included.
  unfoldable pub run : Store W → List Command → W → List (Result Reply) × W
  run s [] w = ([], w)
  run s (c ∷ cs) w = let rest = run s cs (exec s c w).1 in ((exec s c w).0 ∷ rest.0, rest.1)

abbrev pub member : Bytes → List Bytes → Bool
member j [] = false
member j (k ∷ ks) = equal k j || member j ks

-- Whether a command that was answered by this reply may have changed the key. An error, a refused
-- Add or lock operation, and a read change nothing.
abbrev pub touches : Command → Result Reply → Bytes → Bool
touches c (err e) j = false
touches (get k) (ok r) j = false
touches (add k v ttl) (ok (flag false)) j = false
touches (lock_acquire k o ttl) (ok (flag false)) j = false
touches (lock_release k o) (ok (flag false)) j = false
touches (set k v ttl) (ok r) j = equal k j
touches (add k v ttl) (ok r) j = equal k j
touches (increment k d ttl) (ok r) j = equal k j
touches (decrement k d ttl) (ok r) j = equal k j
touches (delete k) (ok r) j = equal k j
touches (delete_many ks) (ok r) j = member j ks
touches flush (ok r) j = true
touches (lock_acquire k o ttl) (ok r) j = equal k j
touches (lock_release k o) (ok r) j = equal k j

-- Reads are pure, and a command changes only what it touches. `view` is what a Get returns.
pub record IsFramed {W : Type 0} (s : Store W) (view : W → Bytes → Option Bytes) : Type 0 where
  pub reads : (k : Bytes) (w : W) → s.get k w ≡ (ok (view w k), w)
  pub frames :
      (c : Command) (w : W) (j : Bytes)
      → touches c (exec s c w).0 j ≡ false
      → view (exec s c w).1 j ≡ view w j

-- A value of the kind `P` that a Set stored without an error is what a Get of the key returns next.
abbrev pub Recalls : {W : Type 0} → (Bytes → Type 0) → Store W → Type 0
Recalls {W} P s =
    (k v : Bytes) (ttl : ℤ) (w : W)
    → P v
    → (s.set k v ttl w).0 ≡ ok tt
    → (s.get k (s.set k v ttl w).1).0 ≡ ok (some v)
