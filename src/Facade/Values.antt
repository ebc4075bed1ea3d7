-- ===== src/Facade/Values.antt =====
-- The typed and text helpers of cache.go over a value codec.
use cache.Prelude.{Option, none, some, Bytes, ℤ, true, false}
use cache.Store.{Result, ok, err, Act, pure, lift, attempt, ◌>>=◌}
use cache.Facade.{Cache, Session, report, is_hit, get_bytes, set_bytes, pull_bytes}

pub record ValueCodec (T : Type 0) : Type 0 where
  pub encode : T → Result Bytes
  pub decode : Bytes → Result T

module _ {W : Type 0} where
  -- A Go string has the bytes of its value.
  unfoldable pub get_string : Cache W → Bytes → Act (Session W) (Option Bytes)
  unfolding get_bytes
  get_string c key = attempt (get_bytes c key) λ r. report c "get_string" key (is_hit r) r

  unfoldable pub set_string : Cache W → Bytes → Bytes → ℤ → Act (Session W) (Unit {0})
  unfolding set_bytes
  set_string c key value ttl =
      attempt (set_bytes c key value ttl) λ r. report c "set_string" key false r

module _ {W T : Type 0} (codec : ValueCodec T) where
  abbrev decode_found : Option Bytes → Act (Session W) (Option T)
  decode_found none = pure none
  decode_found (some body) = do value ← lift (codec.decode body); pure (some value)

  unfoldable pub get_value : Cache W → Bytes → Act (Session W) (Option T)
  unfolding get_bytes
  get_value c key = do o ← get_bytes c key; decode_found o

  unfoldable pub set_value : Cache W → Bytes → T → ℤ → Act (Session W) (Unit {0})
  unfolding set_bytes
  set_value c key value ttl = do body ← lift (codec.encode value); set_bytes c key body ttl

  unfoldable pub get_json : Cache W → Bytes → Act (Session W) (Option T)
  unfolding get_bytes
  get_json c key = attempt (get_bytes c key) λ r. elim r [
    | err e ↦ report c "get_json" key false (err e)
    | ok none ↦ report c "get_json" key false (ok none)
    | ok (some body) ↦ elim (codec.decode body) [
      | err e ↦ report c "get_json" key false (err e)
      | ok value ↦ report c "get_json" key true (ok (some value))
    ]
  ]

  unfoldable pub set_json : Cache W → Bytes → T → ℤ → Act (Session W) (Unit {0})
  unfolding set_bytes
  set_json c key value ttl = elim (codec.encode value) [
    | err e ↦ report c "set_json" key false (err e)
    | ok body ↦ attempt (set_bytes c key body ttl) λ r. report c "set_json" key false r
  ]

  unfoldable pub pull_value : Cache W → Bytes → Act (Session W) (Option T)
  unfolding pull_bytes
  pull_value c key = do o ← pull_bytes c key; decode_found o
