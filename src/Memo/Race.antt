-- ===== src/Memo/Race.antt =====
-- store_memo.go with any number of concurrent callers. A critical section under `s.mu` is one
-- step, and so is the effect of a call of the backing store; between those the callers interleave
-- in any order. The backing store is a map that only its mutations change.
pub mod Current
use cache.Prelude.{
  ℕ, ◌+◌, ◌≤◌, ◌<◌, ◌≡◌, sym, ◌∙◌, ◌⊎◌, inl, inr, Bool, true, false, not, ◌&&◌, ◌||◌, Option, none,
  some, List, arith, Bytes, equal, equal_iff, lookup, lookup-put, lookup-without, ◌==◌, two64,
  if◌then◌else◌, Bool-cases,
}
use cache.Store.Contract.{member}
use cache.Memo.{MemoState, empty, forget, forget_many, forget_all, publish}
use cache.Memo.Transparent.{lookup-without_all}

-- Which keys a mutation of the backing store may change: Set, Add, Increment, Decrement, Delete,
-- LockAcquire and LockRelease one, DeleteMany some, Flush all.
pub data Mutation : Type 0 where
  one : Bytes → Mutation
  many : List Bytes → Mutation
  all : Mutation

abbrev pub covers : Mutation → Bytes → Bool
covers (one k) j = equal k j
covers (many ks) j = member j ks
covers all j = true

-- The critical section that follows a mutation which succeeded.
unfoldable pub settle : Mutation → MemoState → MemoState
unfolding forget forget_many forget_all
settle (one k) m = forget k m
settle (many ks) m = forget_many ks m
settle all m = forget_all m

-- Where a caller stands: before its call, in a Get between the two critical sections, without and
-- with the answer of the backing store, or in a mutation that has changed the backing store.
pub data Phase : Type 0 where
  idle : Phase
  reading : Bytes → ℕ → Phase
  fetched : Bytes → ℕ → Option Bytes → Phase
  written : Mutation → Phase

-- `torn` tells the keys that a mutation which then failed may have changed since they were last
-- forgotten.
pub record Shared : Type 0 where
  pub backing : Bytes → Option Bytes
  pub memo : MemoState
  pub phases : ℕ → Phase
  pub torn : Bytes → Bool

unfoldable pub move : ℕ → Phase → (ℕ → Phase) → ℕ → Phase
move t p phases u = if u == t then p else phases u

pub data Step : Shared → Shared → Type 0 where
  -- A Get that misses the memo notes the generation.
  begin :
      (s : Shared) (t : ℕ) (k : Bytes)
      → s.phases t ≡ idle
      → lookup k s.memo.items ≡ none
      → Step s (record s { phases = move t (reading k s.memo.generation) s.phases })
  fetch :
      (s : Shared) (t : ℕ) (k : Bytes) (g : ℕ)
      → s.phases t ≡ reading k g
      → Step s (record s { phases = move t (fetched k g (s.backing k)) s.phases })
  -- The backing store failed, and Get returns the error.
  abandon :
      (s : Shared) (t : ℕ) (k : Bytes) (g : ℕ)
      → s.phases t ≡ reading k g
      → Step s (record s { phases = move t idle s.phases })
  finish :
      (s : Shared) (t : ℕ) (k : Bytes) (g : ℕ) (v : Option Bytes)
      → s.phases t ≡ fetched k g v
      → Step s (record s { memo = publish k g v s.memo; phases = move t idle s.phases })
  -- The backing store is changed, at covered keys only.
  write :
      (s : Shared) (t : ℕ) (m : Mutation) (changed : Bytes → Option Bytes)
      → s.phases t ≡ idle
      → ((j : Bytes) → covers m j ≡ false → changed j ≡ s.backing j)
      → Step s (record s { backing = changed; phases = move t (written m) s.phases })
  -- The backing store fails after it has changed some of the covered keys, and the error is returned
  -- without a critical section.
  fail :
      (s : Shared) (t : ℕ) (m : Mutation) (changed : Bytes → Option Bytes)
      → s.phases t ≡ idle
      → ((j : Bytes) → covers m j ≡ false → changed j ≡ s.backing j)
      → Step s (record s { backing = changed; torn = λ j. covers m j || s.torn j })
  -- The memo forgets. The counter of generations has not come full circle.
  drop :
      (s : Shared) (t : ℕ) (m : Mutation)
      → s.phases t ≡ written m
      → s.memo.generation + 1 < two64
      → Step s (record s {
        memo = settle m s.memo;
        phases = move t idle s.phases;
        torn = λ j. not (covers m j) && s.torn j;
      })

pub data Reach (s : Shared) : Shared → Type 0 where
  here : Reach s s
  next : {t u : Shared} → Reach s t → Step t u → Reach s u

-- A mutation of the key has changed the backing store and has not yet reached the memo.
abbrev pub Pending : Shared → Bytes → Type 0
Pending s k = (t : ℕ) × (m : Mutation) × (s.phases t ≡ written m) × (covers m k ≡ true)

-- Every caller idle, nothing memoized and nothing torn.
abbrev pub IsFreshStart : Shared → Type 0
IsFreshStart s = (s.memo ≡ empty) × ((t : ℕ) → s.phases t ≡ idle) × ((k : Bytes) → s.torn k ≡ false)
