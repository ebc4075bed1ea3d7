-- ===== src/File.antt =====
-- store_file.go: the store in a directory of files. crypto/sha256 is a parameter, and so is
-- json.Unmarshal of the records of the first versions.
pub mod Record
pub mod Calls
pub mod Atomic
pub mod Directory
pub mod Reads
use cache.Prelude.{
  ℕ, ◌+◌, ◌/◌, ◌%◌, Bool, true, false, not, ◌&&◌, ◌||◌, Option, none, some, List, [], ◌∷◌, ◌++◌,
  Bytes, codes, equal, ltb, ltb_ℤ, ℤ, pos, is_positive, wrap64, ◌+ℤ◌, add64, neg64, Map,
  if◌then◌else◌,
}
use cache.Decimal.{format_int, parse_int}
use cache.Store.{
  Error, Result, ok, err, text, not_numeric, Driver, file, Act, pure, fail, lift, continue, attempt,
  ◌>>=◌, ◌>>◌, Store, LockStore, ttl_or,
}
use Record.{file_record_header, decode_file_record}
use Calls.{Disk, read_file, remove_file, create_temp, write, call, rename_file}

-- hex.EncodeToString
abbrev pub hex_digit : ℕ → ℕ
hex_digit n = if ltb n 10 then 48 + n else 87 + n

unfoldable pub hex : Bytes → Bytes
hex [] = []
hex (b ∷ bs) = hex_digit (b / 16) ∷ hex_digit (b % 16) ∷ hex bs

-- What a fileStore stands on.
pub record FileStore : Type 0 where
  pub sha256 : Bytes → Bytes
  pub unmarshal : Bytes → Result (Bytes × ℤ × Bytes)
  pub temp_name : Map Bytes → Bytes
  pub default_ttl : ℤ

module _ (s : FileStore) where
  -- The name of the file of a key within the directory.
  unfoldable pub path : Bytes → Bytes
  unfolding hex
  path key = hex (s.sha256 key) ++ codes ".cache"

  -- After a failure: the file is closed and removed, and the failures of that are ignored.
  abbrev pub abandon : {A : Type 0} → Bytes → Error → Act Disk A
  abandon tmp e = attempt (remove_file tmp) λ ignored. fail e

  abbrev pub abandon_open : Bytes → Error → Act Disk (Unit {0})
  abandon_open tmp e = attempt call λ ignored. abandon tmp e

  abbrev pub or_else :
      Result (Unit {0}) → (Error → Act Disk (Unit {0})) → Act Disk (Unit {0}) → Act Disk (Unit {0})
  or_else (err e) handle next = handle e
  or_else (ok done) handle next = next

  -- set from its rename on, from its Sync on, and from its first Write on.
  unfoldable pub commit : Bytes → Bytes → Act Disk (Unit {0})
  commit tmp key = attempt (rename_file tmp (path key)) λ r. or_else r (abandon tmp) (pure tt)

  unfoldable pub flush_file : Bytes → Bytes → Act Disk (Unit {0})
  unfolding commit
  flush_file tmp key =
      attempt call λ r.
        or_else r (abandon_open tmp) (attempt call λ q. or_else q (abandon tmp) (commit tmp key))

  unfoldable pub fill : Bytes → Bytes → Bytes → Bytes → Act Disk (Unit {0})
  unfolding flush_file
  fill tmp key header value = attempt (write tmp header) λ r.
      or_else r (abandon_open tmp)
        (attempt (write tmp value) λ q. or_else q (abandon_open tmp) (flush_file tmp key))

  -- The end of a record that is written now.
  abbrev pub expiry : ℤ → Disk → ℤ
  expiry ttl d = wrap64 (pos d.now +ℤ ttl_or ttl s.default_ttl)

  unfoldable pub set : Bytes → Bytes → ℤ → Act Disk (Unit {0})
  unfolding fill create_temp
  set key value ttl d =
      (do tmp ← create_temp s.temp_name; fill tmp key (file_record_header (expiry ttl d) key) value)
        d

  unfoldable pub get : Bytes → Act Disk (Option Bytes)
  unfolding decode_file_record
  get key = attempt (read_file (path key)) λ r. elim r [
    | err e ↦ fail e
    | ok none ↦ pure none
    | ok (some body) ↦ elim (decode_file_record s.unmarshal body) [
      | err e ↦ abandon (path key) e
      | ok (k, expires_at, value) ↦ λ d.
          let expired = attempt (remove_file (path key)) (λ ignored. pure none) d in
          if is_positive expires_at && ltb_ℤ expires_at (pos d.now)
          then expired
          else (ok (some value), d)
    ]
  ]

  unfoldable pub add : Bytes → Bytes → ℤ → Act Disk Bool
  unfolding get set
  add key value ttl = do
    o ← get key
    elim o [ some body ↦ pure false | none ↦ do set key value ttl; pure true ]

  unfoldable pub delete : Bytes → Act Disk (Unit {0})
  unfolding remove_file
  delete key = do remove_file (path key); pure tt

  unfoldable pub lock_release : Bytes → Bytes → Act Disk Bool
  unfolding get delete
  lock_release key owner = do
    o ← get key
    elim o [
      | none ↦ pure false
      | some body ↦ if equal body owner then (do delete key; pure true) else pure false
    ]

  -- The number of a counter that is there, and 0 for one that is not.
  abbrev pub counter : Bytes → Option Bytes → Result ℤ
  counter key none = ok (pos 0)
  counter key (some body) = elim (parse_int body) [ none ↦ err (not_numeric key) | some n ↦ ok n ]

  unfoldable pub increment : Bytes → ℤ → ℤ → Act Disk ℤ
  unfolding get set
  increment key delta ttl = do
    o ← get key
    current ← lift (counter key o)
    set key (format_int (add64 current delta)) ttl
    pure (add64 current delta)

  unfoldable pub delete_many : List Bytes → Act Disk (Unit {0})
  unfolding delete
  delete_many [] = pure tt
  delete_many (key ∷ keys) = do delete key; delete_many keys
