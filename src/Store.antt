-- ===== src/Store.antt =====
-- cachecore/store.go, driver.go, config.go, inspect.go and the errors of cachecore/shaping.go: the
-- store interface that every backend and wrapper implements, over the state `W` of a backend.
-- A Go result (v, err) is `ok v` or `err e`; the zero value that stands beside an error is dropped.
-- ([]byte, bool, error) is `Result (Option Bytes)`. A type assertion to an optional interface is
-- an `Option` field.
pub mod Contract
pub mod Spec
pub mod Timed
use cache.Prelude.{
  ℕ, ◌≡◌, refl, ◌⊎◌, inl, inr, arith, String, Bool, true, false, Option, none, some, List, Bytes, ℤ,
  pos, is_positive, if◌then◌else◌,
}

-- `external` is an error of code outside the repository, `message` one of which the text is read,
-- and `text` one made by errors.New.
pub data Error : Type 0 where
  value_too_large invalid_max_value_bytes unsupported_codec corrupt_compression : Error
  encryption_key decrypt_failed inspector_unsupported : Error
  not_numeric overflows_int64 invalid_cursor : Bytes → Error
  text : String → Error
  message : Bytes → Error
  external : ℕ → Error
  join : Error → Error → Error

pub data Result {ℓ} (A : Type ℓ) : Type ℓ where
  ok : A → Result A
  err : Error → Result A

pub Result-cases {ℓ} :
    {A : Type ℓ} (r : Result A) → ((a : A) × (r ≡ ok a)) ⊎ ((e : Error) × (r ≡ err e))
Result-cases (ok a) = inl (a, refl)
Result-cases (err e) = inr (e, refl)

-- A method on a state `W`. What was written before an error stays written.
abbrev pub Act : Type 0 → Type 0 → Type 0
Act W A = W → Result A × W

module _ {W A : Type 0} where
  abbrev pub pure : A → Act W A
  pure a w = (ok a, w)

  abbrev pub fail : Error → Act W A
  fail e w = (err e, w)

  abbrev pub lift : Result A → Act W A
  lift r w = (r, w)

module _ {W A B : Type 0} where
  abbrev pub continue : Result A → (A → Act W B) → Act W B
  continue (ok a) f w = f a w
  continue (err e) f w = (err e, w)

  infixl 10 ◌>>=◌ ◌>>◌
  abbrev pub ◌>>=◌ : Act W A → (A → Act W B) → Act W B
  ◌>>=◌ m f w = continue (m w).0 f (m w).1

  abbrev pub ◌>>◌ : Act W A → Act W B → Act W B
  m >> n = m >>= λ _. n

  -- `value, err := m`, where the code goes on by itself after an error.
  abbrev pub attempt : Act W A → (Result A → Act W B) → Act W B
  attempt m f w = f (m w).0 (m w).1

pub data Driver : Type 0 where
  null file memory memcached dynamo sql redis nats : Driver
  other : String → Driver

pub data CompressionCodec : Type 0 where
  unset compression_none compression_gzip compression_snappy : CompressionCodec
  named : String → CompressionCodec

pub record BaseConfig : Type 0 where
  pub default_ttl : ℤ
  pub prefix : Bytes
  pub compression : CompressionCodec
  pub max_value_bytes : ℤ
  pub encryption_key : Bytes

pub record InspectorCapabilities : Type 0 where
  pub can_list : Bool
  pub can_read : Bool
  pub can_delete : Bool
  pub can_ttl : Bool

pub record ListPageOptions : Type 0 where
  pub query : Bytes
  pub prefix : Bytes
  pub cursor : Bytes
  pub limit : ℤ

pub record CacheEntry : Type 0 where
  pub key : Bytes
  pub size_bytes : ℕ
  pub expires_at : Option ℤ

pub record ListPageResult : Type 0 where
  pub entries : List CacheEntry
  pub next_cursor : Bytes
  pub has_more : Bool

pub record LockStore (W : Type 0) : Type 0 where
  pub lock_acquire : Bytes → Bytes → ℤ → Act W Bool
  pub lock_release : Bytes → Bytes → Act W Bool

pub record Inspector (W : Type 0) : Type 0 where
  pub capabilities : W → InspectorCapabilities
  pub list_page : ListPageOptions → Act W ListPageResult

pub record Store (W : Type 0) : Type 0 where
  pub driver : Driver
  pub ready : Act W (Unit {0})
  pub get : Bytes → Act W (Option Bytes)
  pub set : Bytes → Bytes → ℤ → Act W (Unit {0})
  pub add : Bytes → Bytes → ℤ → Act W Bool
  pub increment : Bytes → ℤ → ℤ → Act W ℤ
  pub decrement : Bytes → ℤ → ℤ → Act W ℤ
  pub delete : Bytes → Act W (Unit {0})
  pub delete_many : List Bytes → Act W (Unit {0})
  pub flush : Act W (Unit {0})
  pub lock_store : Option (LockStore W)
  pub inspector : Option (Inspector W)

abbrev pub no_capabilities : InspectorCapabilities
no_capabilities = record { can_list = false; can_read = false; can_delete = false; can_ttl = false }

abbrev pub all_capabilities : InspectorCapabilities
all_capabilities = record { can_list = true; can_read = true; can_delete = true; can_ttl = true }

-- `if ttl <= 0 { ttl = fallback }`
abbrev pub ttl_or : ℤ → ℤ → ℤ
ttl_or ttl fallback = if is_positive ttl then ttl else fallback

pub ttl_or-positive : (t d : ℤ) → is_positive d ≡ true → is_positive (ttl_or t d) ≡ true
ttl_or-positive t d h = ground arith
