-- ===== src/Memory/Backend.antt =====
-- The interface of github.com/patrickmn/go-cache that store_memory.go calls, and what its
-- documentation promises. Times and durations are nanoseconds.
use cache.Store.Timed.{alive}
use cache.Prelude.{
  ℕ, ◌+◌, ◌<◌, ◌≡◌, true, Option, none, some, List, Bytes, codes, contains, equal, ℤ, pos_part,
  is_positive, two63, if◌then◌else◌,
}

-- The dynamic type of a cached object, as the type switches of the store tell them apart:
-- `signed` is int, int64, int32, int16 or int8, `small_unsigned` is uint32, uint16 or uint8, and
-- `opaque` any other.
pub data Object : Type 0 where
  bytes string : Bytes → Object
  signed : ℤ → Object
  uint uint64 small_unsigned : ℕ → Object
  opaque : ℕ → Object

-- The clock is an argument; Add answers with the text of its error.
pub record Engine : Type 1 where
  pub State : Type 0
  pub new : ℤ → ℤ → State
  pub get : Bytes → ℕ → State → Option Object
  pub set : Bytes → Object → ℤ → ℕ → State → State
  pub add : Bytes → Object → ℤ → ℕ → State → Option Bytes × State
  pub delete : Bytes → State → State
  pub flush : State → State
  pub items : ℕ → State → List (Bytes × Object × ℤ)

pub record EngineLaws (engine : Engine) : Type 0 where
  pub get-new : (d i : ℤ) (j : Bytes) (now : ℕ) → engine.get j now (engine.new d i) ≡ none
  pub get-set :
      (k j : Bytes) (o : Object) (d : ℤ) (now : ℕ) (c : engine.State)
      → is_positive d ≡ true
      → engine.get j now (engine.set k o d now c)
        ≡ (if equal k j then some o else engine.get j now c)
  pub add-absent :
      (k : Bytes) (o : Object) (d : ℤ) (now : ℕ) (c : engine.State)
      → engine.get k now c ≡ none
      → engine.add k o d now c ≡ (none, engine.set k o d now c)
  pub add-present :
      (k : Bytes) (o p : Object) (d : ℤ) (now : ℕ) (c : engine.State)
      → engine.get k now c ≡ some p
      → (e : Bytes) × (engine.add k o d now c ≡ (some e, c))
        × (contains e (codes "already exists") ≡ true)
  pub get-delete :
      (k j : Bytes) (now : ℕ) (c : engine.State)
      → engine.get j now (engine.delete k c) ≡ (if equal k j then none else engine.get j now c)
  pub get-flush :
      (j : Bytes) (now : ℕ) (c : engine.State) → engine.get j now (engine.flush c) ≡ none

-- The objects that were written with their ends, of which a Get sees those that are not past it. The
-- end of an entry is a time that int64 holds.
pub record Expires (engine : Engine) (stored : engine.State → Bytes → Option (Object × ℕ))
    : Type 0 where
  pub get-stored :
      (k : Bytes) (now : ℕ) (c : engine.State) → engine.get k now c ≡ alive now (stored c k)
  pub stored-set :
      (k j : Bytes) (o : Object) (d : ℤ) (now : ℕ) (c : engine.State)
      → is_positive d ≡ true
      → now + pos_part d < two63
      → stored (engine.set k o d now c) j
        ≡ (if equal k j then some (o, now + pos_part d) else stored c j)
  pub stored-delete :
      (k j : Bytes) (c : engine.State)
      → stored (engine.delete k c) j ≡ (if equal k j then none else stored c j)
  pub stored-flush : (j : Bytes) (c : engine.State) → stored (engine.flush c) j ≡ none
