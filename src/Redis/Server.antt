-- ===== src/Redis/Server.antt =====
-- The interfaces Client and lockClient of driver/rediscache/store.go, the part of
-- github.com/redis/go-redis/v9 that the store calls, and what the documentation of Redis promises.
use cache.Prelude.{
  ℕ, ◌<◌, ◌≡◌, ◌≢◌, All, Bool, true, false, Option, none, some, List, [], ◌∷◌, ◌++◌, Bytes, codes,
  equal, has_prefix, ℤ, pos, is_positive, IsInt64, ◌+ℤ◌, if◌then◌else◌, ◌||◌, ◌==◌,
}
use cache.Decimal.{parse_int, format_int}
use cache.Store.{Error, Result, ok, err, Act}
use cache.Store.Contract.{member}

-- redis.Nil is `none`. A script has its keys and its arguments, and gives a number. A Scan gives keys
-- and the next cursor.
pub record Client : Type 1 where
  pub State : Type 0
  pub ping : Act State (Unit {0})
  pub get : Bytes → Act State (Option Bytes)
  pub set : Bytes → Bytes → ℤ → Act State (Unit {0})
  pub set_nx : Bytes → Bytes → ℤ → Act State Bool
  pub incr_by : Bytes → ℤ → Act State ℤ
  pub expire : Bytes → ℤ → Act State Bool
  pub del : List Bytes → Act State ℤ
  pub scan : ℕ → Bytes → ℕ → Act State (List Bytes × ℕ)
  pub eval : Option (Bytes → List Bytes → List Bytes → Act State ℤ)

-- A text without the special characters of a pattern.
abbrev is_special : ℕ → Bool
is_special c = c == b'*' || c == b'?' || c == b'[' || c == b'\\'

abbrev pub IsLiteral : Bytes → Type 0
IsLiteral = All (λ c. is_special c ≡ false)

-- The script that deletes a key if it holds the argument, as the server reads it.
abbrev pub compare_and_delete : Bytes
compare_and_delete =
    codes "\nif redis.call(\"get\", KEYS[1]) == ARGV[1] then\n"
    ++ codes "  return redis.call(\"del\", KEYS[1])\nend\nreturn 0\n"

module _ (client : Client) (live : client.State → Bytes → Option Bytes) where
  abbrev pub Table : Type 0
  Table = Bytes → Option Bytes

  abbrev pub Leaves : {A : Type 0} → A → Table → Result A × client.State → Type 0
  Leaves a after r = (r.0 ≡ ok a) × ((j : Bytes) → live r.1 j ≡ after j)

  abbrev pub with_value : Bytes → Option Bytes → Table → Table
  with_value k o m j = if equal k j then o else m j

  -- A server that answers, with no other client. `live` is what a Get finds. In a full iteration of
  -- Scan, `pending c k` tells that the place of the key k is at the cursor c or behind it, and
  -- `turns` how many calls are left.
  pub record ServerLaws (pending : ℕ → Bytes → Bool) (turns : ℕ → ℕ) : Type 0 where
    pub get-live : (k : Bytes) (s : client.State) → client.get k s ≡ (ok (live s k), s)
    pub set-lem :
        (k v : Bytes) (t : ℤ) (s : client.State)
        → is_positive t ≡ true
        → Leaves tt (with_value k (some v) (live s)) (client.set k v t s)
    pub set_nx-absent :
        (k v : Bytes) (t : ℤ) (s : client.State)
        → is_positive t ≡ true
        → live s k ≡ none
        → Leaves true (with_value k (some v) (live s)) (client.set_nx k v t s)
    pub set_nx-present :
        (k v old : Bytes) (t : ℤ) (s : client.State)
        → live s k ≡ some old
        → Leaves false (live s) (client.set_nx k v t s)
    -- A counter is a number as Redis prints it, and counts within the range of int64.
    pub incr_by-absent :
        (k : Bytes) (d : ℤ) (s : client.State)
        → live s k ≡ none
        → IsInt64 d
        → Leaves d (with_value k (some (format_int d)) (live s)) (client.incr_by k d s)
    pub incr_by-number :
        (k : Bytes) (n d : ℤ) (s : client.State)
        → live s k ≡ some (format_int n)
        → IsInt64 n
        → IsInt64 (n +ℤ d)
        → Leaves
            (n +ℤ d)
            (with_value k (some (format_int (n +ℤ d))) (live s))
            (client.incr_by k d s)
    pub incr_by-text :
        (k v : Bytes) (d : ℤ) (s : client.State)
        → live s k ≡ some v
        → parse_int v ≡ none
        → (x : Error) × (client.incr_by k d s ≡ (err x, s))
    pub expire-present :
        (k v : Bytes) (t : ℤ) (s : client.State)
        → is_positive t ≡ true
        → live s k ≡ some v
        → Leaves true (live s) (client.expire k t s)
    pub del-lem :
        (ks : List Bytes) (s : client.State)
        → (n : ℤ) × Leaves n (λ j. if member j ks then none else live s j) (client.del ks s)
    pub starts : (k : Bytes) → pending 0 k ≡ true
    pub scan-lem :
        (c : ℕ) (p : Bytes) (s : client.State)
        → IsLiteral p
        → (ks : List Bytes) × (next : ℕ) × (client.scan c (p ++ codes "*") 200 s
            ≡ (ok (ks, next), s))
          × ((k : Bytes) → member k ks ≡ true → has_prefix k p ≡ true)
          × ((k v : Bytes)
              → live s k ≡ some v
              → has_prefix k p ≡ true
              → pending c k ≡ true
              → member k ks ≡ false
              → (next ≢ 0) × (pending next k ≡ true))
          × (next ≢ 0 → turns next < turns c)
    pub script :
        (f : Bytes → List Bytes → List Bytes → Act client.State ℤ)
        → client.eval ≡ some f
        → (k o : Bytes) (s : client.State)
        → (live s k ≡ some o
            → Leaves
                (pos 1)
                (with_value k none (live s))
                (f compare_and_delete (k ∷ []) (o ∷ []) s))
          × (live s k ≢ some o → Leaves (pos 0) (live s) (f compare_and_delete (k ∷ []) (o ∷ []) s))
