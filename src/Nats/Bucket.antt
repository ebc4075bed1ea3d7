-- ===== src/Nats/Bucket.antt =====
-- The interface KeyValue of driver/natscache/store.go, the part of github.com/nats-io/nats.go that
-- the store calls, and what the documentation of JetStream promises of it.
use cache.Prelude.{
  ℕ, ◌≡◌, ◌≢◌, ◌⊎◌, refl, inl, inr, false, Option, none, some, List, [], ◌∷◌, Bytes, equal, All,
  ◌+◌, if◌then◌else◌,
}
use cache.Store.{Error, Act}
use cache.Store.Contract.{member}

-- The errors that the store tells apart by errors.Is.
pub data Failure : Type 0 where
  key_not_found key_deleted key_exists no_keys_found another : Failure

pub record Fault : Type 0 where
  pub failure : Failure
  pub error : Error

pub data Answer (A : Type 0) : Type 0 where
  answered : A → Answer A
  failed : Fault → Answer A

pub Answer-cases :
    {A : Type 0} (r : Answer A) → ((a : A) × (r ≡ answered a)) ⊎ ((x : Fault) × (r ≡ failed x))
Answer-cases (answered a) = inl (a, refl)
Answer-cases (failed x) = inr (x, refl)

pub data Operation : Type 0 where
  key_value_put key_value_delete key_value_purge : Operation

pub record Entry : Type 0 where
  pub value : Bytes
  pub revision : ℕ
  pub operation : Operation

-- The options of a Delete are the revision of LastRevision, and list_keys gives what the lister
-- hands out, the keys and then the errors.
pub record KeyValue : Type 1 where
  pub State : Type 0
  pub status : State → Answer (Unit {0}) × State
  pub get : Bytes → State → Answer Entry × State
  pub put : Bytes → Bytes → State → Answer ℕ × State
  pub create : Bytes → Bytes → State → Answer ℕ × State
  pub update : Bytes → Bytes → ℕ → State → Answer ℕ × State
  pub delete : Bytes → Option ℕ → State → Answer (Unit {0}) × State
  pub purge : Bytes → State → Answer (Unit {0}) × State
  pub list_keys : State → Answer (List Bytes × List (Option Error)) × State

-- What happens between two calls: time passes and other clients act on the bucket.
pub record Interlude (kv : KeyValue) : Type 0 where
  pub elapsed : ℕ
  pub others : kv.State → kv.State

-- The bucket, the interludes before the calls to come, and the clock in nanoseconds. Past the list
-- nothing happens between calls.
pub record World (kv : KeyValue) : Type 0 where
  pub bucket : kv.State
  pub interludes : List (Interlude kv)
  pub now : ℕ

module _ (kv : KeyValue) where
  abbrev pub after : List (Interlude kv) → World kv → World kv
  after [] w = record w { interludes = [] }
  after (i ∷ rest) w = record {
    bucket = i.others w.bucket;
    interludes = rest;
    now = w.now + i.elapsed;
  }

  abbrev pub ask :
      {A B : Type 0}
      → (kv.State → Answer A × kv.State)
      → (Answer A → Act (World kv) B)
      → Act (World kv) B
  ask f next w =
      let w' = after w.interludes w in next (f w'.bucket).0 (record w' { bucket = (f w'.bucket).1 })

  -- `live` is the last value that was put under a key, where it is not deleted. `Later` holds of
  -- two states where the second came from the first by calls of any clients. A revision is given
  -- to one write only, and a conditional write that is answered and names the revision of a value
  -- of the key, of this or of an earlier state, found that value.
  pub record RevisionLaws (live : kv.State → Bytes → Option Entry)
      (Later : kv.State → kv.State → Type 0) : Type 0 where
    pub later_refl : (s : kv.State) → Later s s
    pub later_trans : (s t u : kv.State) → Later s t → Later t u → Later s u
    pub get-later : (k : Bytes) (s : kv.State) → Later s (kv.get k s).1
    pub purge-later : (k : Bytes) (s : kv.State) → Later s (kv.purge k s).1
    pub create-later : (k v : Bytes) (s : kv.State) → Later s (kv.create k v s).1
    pub update-later : (k v : Bytes) (r : ℕ) (s : kv.State) → Later s (kv.update k v r s).1
    pub live-positive : (s : kv.State) (k : Bytes) (e : Entry) → live s k ≡ some e → e.revision ≢ 0
    pub one_write :
        (s t : kv.State) (k : Bytes) (e f : Entry)
        → Later s t
        → live s k ≡ some e
        → live t k ≡ some f
        → e.revision ≡ f.revision
        → e ≡ f
    pub get-live :
        (k : Bytes) (s : kv.State) (e : Entry) → (kv.get k s).0 ≡ answered e → live s k ≡ some e
    pub create-live :
        (k v : Bytes) (s : kv.State) (n : ℕ)
        → (kv.create k v s).0 ≡ answered n
        → (live s k ≡ none)
          × (live (kv.create k v s).1 k
              ≡ some (record { value = v; revision = n; operation = key_value_put }))
    pub update-live :
        (k v : Bytes) (e : Entry) (n : ℕ) (read s : kv.State)
        → live read k ≡ some e
        → Later read s
        → (kv.update k v e.revision s).0 ≡ answered n
        → (live s k ≡ some e)
          × (live (kv.update k v e.revision s).1 k
              ≡ some (record { value = v; revision = n; operation = key_value_put }))

  abbrev pub Puts :
      (kv.State → Bytes → Option Entry) → Bytes → Bytes → kv.State → Answer ℕ × kv.State → Type 0
  Puts live k v s r =
      (n : ℕ) × (r.0 ≡ answered n)
      × ((j : Bytes)
          → live r.1 j ≡ (
              if equal k j
              then some (record { value = v; revision = n; operation = key_value_put })
              else live s j))

  abbrev pub Removes :
      (kv.State → Bytes → Option Entry) → Bytes → kv.State → Answer (Unit {0}) × kv.State → Type 0
  Removes live k s r =
      (r.0 ≡ answered tt) × ((j : Bytes) → live r.1 j ≡ (if equal k j then none else live s j))

  abbrev pub Misses : kv.State → Answer Entry × kv.State → Type 0
  Misses s r =
      (x : Fault) × (r ≡ (failed x, s)) × ((x.failure ≡ key_not_found) ⊎ (x.failure ≡ key_deleted))

  abbrev pub Refuses : kv.State → Answer ℕ × kv.State → Type 0
  Refuses s r = (x : Fault) × (r ≡ (failed x, s)) × (x.failure ≡ key_exists)

  -- The keys with a value are listed, or there is none.
  abbrev pub Lists :
      (kv.State → Bytes → Option Entry)
      → kv.State
      → Answer (List Bytes × List (Option Error)) × kv.State
      → Type 0
  Lists live s r =
      ((keys : List Bytes) × (errors : List (Option Error)) × (r ≡ (answered (keys, errors), s))
        × All (λ o. o ≡ none) errors
        × ((k : Bytes) → member k keys ≡ false → live s k ≡ none))
      ⊎ ((x : Fault) × (r ≡ (failed x, s))
          × (x.failure ≡ no_keys_found)
          × ((k : Bytes) → live s k ≡ none))

  -- A bucket that answers every call.
  pub record ServiceLaws (live : kv.State → Bytes → Option Entry) : Type 0 where
    pub get-absent : (k : Bytes) (s : kv.State) → live s k ≡ none → Misses s (kv.get k s)
    pub get-present :
        (k : Bytes) (s : kv.State) (e : Entry)
        → live s k ≡ some e
        → (kv.get k s ≡ (answered e, s)) × (e.operation ≡ key_value_put) × (e.revision ≢ 0)
    pub put-lem : (k v : Bytes) (s : kv.State) → Puts live k v s (kv.put k v s)
    pub create-absent :
        (k v : Bytes) (s : kv.State) → live s k ≡ none → Puts live k v s (kv.create k v s)
    pub create-present :
        (k v : Bytes) (s : kv.State) (e : Entry) → live s k ≡ some e → Refuses s (kv.create k v s)
    pub update-present :
        (k v : Bytes) (s : kv.State) (e : Entry)
        → live s k ≡ some e
        → Puts live k v s (kv.update k v e.revision s)
    pub delete-any : (k : Bytes) (s : kv.State) → Removes live k s (kv.delete k none s)
    pub delete-present :
        (k : Bytes) (s : kv.State) (e : Entry)
        → live s k ≡ some e
        → Removes live k s (kv.delete k (some e.revision) s)
    pub purge-any : (k : Bytes) (s : kv.State) → Removes live k s (kv.purge k s)
    pub list-any : (s : kv.State) → Lists live s (kv.list_keys s)
