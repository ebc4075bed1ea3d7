-- ===== src/Redis/Table.antt =====
-- What a reply of driver/rediscache/store.go has in common with one of the abstract store, and when
-- the server holds the entries of a table.
use cache.Prelude.{
  ℕ, ◌≡◌, ◌⊎◌, ◌∙◌, Bool, true, Option, none, some, List, [], ◌∷◌, ◌++◌, arith, Bytes, codes, equal,
  equal-append, ℤ, is_positive, IsInt64, ◌+ℤ◌, neg64,
}
use cache.Decimal.{parse_int, format_int}
use cache.Store.{Result, ok, err}
use cache.Store.Contract.{Command, Reply, exec}
use cache.Store.Spec
use cache.Store.Spec.{assign, assign_none, counter, spec_step, spec_run}
use cache.Redis.Server.{Client, Leaves, with_value, ServerLaws}
use cache.Redis.{RedisStore, cache_key, redis_store}

-- The same reply, or two errors: the texts of the server's errors are its own.
abbrev pub Agrees : Result Reply → Result Reply → Type 0
Agrees (ok a) (ok b) = a ≡ b
Agrees (err e) (err f) = Unit
Agrees r q = ⊥

abbrev pub AllAgree : List (Result Reply) → List (Result Reply) → Type 0
AllAgree [] [] = Unit
AllAgree (r ∷ rs) (q ∷ qs) = Agrees r q × AllAgree rs qs
AllAgree rs qs = ⊥

-- Where Redis and the abstract store count alike: from nothing, or from a number as it is printed,
-- without an overflow; and both refuse what is no number.
abbrev pub Counts : Option Bytes → ℤ → Type 0
Counts value d =
    ((value ≡ none) × IsInt64 d)
    ⊎ (((n : ℤ) × (value ≡ some (format_int n)) × IsInt64 n × IsInt64 (n +ℤ d))
        ⊎ ((v : Bytes) × (value ≡ some v) × (parse_int v ≡ none)))

abbrev pub Fits : Spec.Table → Command → Type 0
Fits m (Command.increment k d t) = Counts (m k) d
Fits m (Command.decrement k d t) = Counts (m k) (neg64 d)
Fits m c = Unit

abbrev pub AllFit : Spec.Table → List Command → Type 0
AllFit m [] = Unit
AllFit m (c ∷ cs) = Fits m c × AllFit (spec_step c m).1 cs

pub equal-cache_key :
    (client : Client) (s : RedisStore) (k j : Bytes)
    → equal (cache_key client s k) (cache_key client s j) ≡ equal k j
unfolding cache_key
equal-cache_key client s k j =
    equal-append s.prefix (codes ":" ++ k) (codes ":" ++ j) ∙ equal-append (codes ":") k j

module _ (client : Client) (live : client.State → Bytes → Option Bytes) (pending : ℕ → Bytes → Bool)
    (turns : ℕ → ℕ) (laws : ServerLaws client live pending turns) (s : RedisStore)
    (up : s.connected ≡ true) (positive : is_positive s.ttl ≡ true) where
  -- The server holds the entries of a table under their names.
  pub record Holds (st : client.State) (m : Spec.Table) : Type 0 where
    pub at_key : (k : Bytes) → live st (cache_key client s k) ≡ m k

  pub change-Holds :
      {A : Type 0} (a : A) (k : Bytes) (o : Option Bytes) (st : client.State) (m : Spec.Table)
      (r : Result A × client.State)
      → Holds st m
      → Leaves client live a (with_value client live (cache_key client s k) o (live st)) r
      → Holds r.1 (assign k o m)
  change-Holds a k o st m r h (answer, leaves) = record {
    at_key = λ j.
        ground (arith, leaves (cache_key client s j), equal-cache_key client s k j, h.at_key j);
  }

  pub same-Holds :
      (st st' : client.State) (m : Spec.Table)
      → ((j : Bytes) → live st' j ≡ live st j)
      → Holds st m
      → Holds st' m
  same-Holds st st' m same h = record { at_key = λ j. same (cache_key client s j) ∙ h.at_key j }

  pub record Refines (c : Command) (st : client.State) (m : Spec.Table) : Type 0 where
    pub reply : Result Reply
    pub promised : Result Reply
    pub table : Spec.Table
    pub state : client.State
    pub spec : spec_step c m ≡ (promised, table)
    pub does : exec (redis_store client s) c st ≡ (reply, state)
    pub agrees : Agrees reply promised
    pub keeps : Holds state table
