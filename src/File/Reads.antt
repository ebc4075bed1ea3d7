-- ===== src/File/Reads.antt =====
-- What the file store of store_file.go answers when its calls succeed.
use cache.Prelude.{
  ℕ, ◌||◌, has_prefix, length-append, ◌*◌, ◌/◌, ◌%◌, All, Map, codes, ◌+◌, ◌<◌, ◌≡◌, refl, ◌∙◌, ap,
  Bool, true, false, ◌&&◌, none, some, List, [], ◌∷◌, ◌++◌, arith, Bytes, equal, equal_refl,
  equal_iff, length, lookup, lookup-without, ltb, ltb_ℤ, ℤ, pos, negsuc, pos_part, is_positive,
  wrap64, wrap64_of_IsInt64, ◌+ℤ◌, two63, if◌then◌else◌, Bool-cases, inl, inr,
}
use cache.Store.{ok, ttl_or, ttl_or-positive}
use cache.Store.Contract.{member}
use cache.File.Calls.{Disk, read_file, remove_file}
use cache.File.Record.{
  file_record_header, take-part, drop-part, decode_file_record,
  decode_file_record-file_record_header,
}
use cache.File.{hex, hex_digit, FileStore, path, get, set, expiry}
use cache.File.Atomic.{FileLaws, set-Installs}
use cache.File.Directory.{
  is_file_store_entry, flush_each, flush, names, read_dir, is_hex_digit, all_hex,
}

-- The disk when all the calls to come succeed, at some time.
abbrev pub calm : Disk → ℕ → Disk
calm d now = record d { faults = []; now = now }

module _ (s : FileStore) where
  get_lem :
      (key value k : Bytes) (e : ℤ) (body : Bytes) (d : Disk) (now : ℕ)
      → lookup (path s key) d.files ≡ some body
      → decode_file_record s.unmarshal body ≡ ok (k, e, value)
      → (get s key (calm d now)).0
        ≡ ok (if is_positive e && ltb_ℤ e (pos now) then none else some value)
  unfolding get read_file remove_file
  get_lem key value k e body d now there decoded = ground (arith, there, decoded)

  expiry_lem :
      (ttl : ℤ) (d : Disk)
      → is_positive s.default_ttl ≡ true
      → d.now + pos_part (ttl_or ttl s.default_ttl) < two63
      → expiry s ttl d ≡ pos (d.now + pos_part (ttl_or ttl s.default_ttl))
  unfolding ◌+ℤ◌
  expiry_lem ttl d positive fits =
      let end = d.now + pos_part (ttl_or ttl s.default_ttl) in
      ap wrap64 (ground (arith, ttl_or-positive ttl s.default_ttl positive))
      ∙ wrap64_of_IsInt64 (pos end) (fits, omega arith)

  live_lem :
      (t : ℤ) (now later : ℕ) (value : Bytes)
      → is_positive t ≡ true
      → (if is_positive (pos (now + pos_part t)) && ltb_ℤ (pos (now + pos_part t)) (pos later)
          then none
          else some value)
        ≡ (if ltb (now + pos_part t) later then none else some value)
  live_lem (pos n) now later value h = ground arith
  live_lem (negsuc n) now later value h = ground arith

  -- With digests of 32 bytes, temporary names of their own and a positive default: a Get after a
  -- Set that succeeded, when its own calls succeed, returns the value while the duration of the
  -- Set has not passed, and misses from then on. The key has fewer than 2^32 bytes, and the end of
  -- the duration is a time that an int64 of nanoseconds holds.
  pub get-set :
      (laws : FileLaws s) (key value : Bytes) (ttl : ℤ) (d : Disk) (later : ℕ)
      → is_positive s.default_ttl ≡ true
      → length key < 4294967296
      → d.now + pos_part (ttl_or ttl s.default_ttl) < two63
      → (set s key value ttl d).0 ≡ ok tt
      → (get s key (calm (set s key value ttl d).1 later)).0
        ≡ ok (if ltb (d.now + pos_part (ttl_or ttl s.default_ttl)) later then none else some value)
  get-set laws key value ttl d later positive short fits stored =
      let t = ttl_or ttl s.default_ttl in
      let end = expiry s ttl d in
      let d1 = (set s key value ttl d).1 in
      let there : lookup (path s key) d1.files ≡ some (file_record_header end key ++ value) =
        ground (arith, set-Installs s laws key value key ttl d, stored, equal_refl (path s key)) in
      let at : end ≡ pos (d.now + pos_part t) = expiry_lem ttl d positive fits in
      get_lem key value key end (file_record_header end key ++ value) d1 later there (
        decode_file_record-file_record_header s.unmarshal end key value (rw at (fits, omega arith))
          short)
      ∙ ap (λ (e : ℤ). ok (if is_positive e && ltb_ℤ e (pos later) then none else some value)) at
      ∙ ap ok (live_lem t d.now later value (ttl_or-positive ttl s.default_ttl positive))

flush_each_lem :
    (more : List Bytes) (n : Bytes) (d : Disk)
    → d.faults ≡ []
    → ((flush_each more d).0 ≡ ok tt)
      × (lookup n (flush_each more d).1.files
          ≡ (if is_file_store_entry n && member n more then none else lookup n d.files))
unfolding flush_each remove_file
flush_each_lem [] n d calm = ground arith
flush_each_lem (m ∷ more) n d calm = elim (Bool-cases (is_file_store_entry m)) [
  | inl entry ↦ ground (
    arith,
    calm,
    flush_each_lem more n (remove_file m d).1,
    lookup-without m n d.files,
    equal_iff m n,
  )
  | inr foreign ↦ ground (arith, calm, flush_each_lem more n d calm, equal_iff m n)
]

lookup-names : (n : Bytes) (m : Map Bytes) → member n (names m) ≡ false → lookup n m ≡ none
unfolding lookup
lookup-names n [] h = refl
lookup-names n ((k, v) ∷ m) h = ground (arith, lookup-names n m, equal_iff k n)

length-hex : (a : Bytes) → length (hex a) ≡ 2 * length a
unfolding hex
length-hex [] = refl
length-hex (b ∷ a) = omega (arith, length-hex a)

is_hex_digit-hex_digit : (n : ℕ) → n < 16 → is_hex_digit (hex_digit n) ≡ true
is_hex_digit-hex_digit n h = ground arith

all_hex-hex : (a : Bytes) → All (λ b. b < 256) a → all_hex (hex a) ≡ true
unfolding hex
all_hex-hex [] h = refl
all_hex-hex (b ∷ a) h =
    ground
      (arith, all_hex-hex a h.1, is_hex_digit-hex_digit (b / 16), is_hex_digit-hex_digit (b % 16))

or_true : (a : Bool) {b : Bool} → b ≡ true → (a || b) ≡ true
or_true true h = refl
or_true false h = h

and_true : {a b : Bool} → a ≡ true → b ≡ true → (a && b) ≡ true
and_true {a} h k = rw h k

module _ (s : FileStore) (laws : FileLaws s) where
  is_file_store_entry-path : (key : Bytes) → is_file_store_entry (path s key) ≡ true
  unfolding is_file_store_entry path
  is_file_store_entry-path key =
      let a = hex (s.sha256 key) in
      let long : length a ≡ 64 = omega (arith, length-hex (s.sha256 key), laws.digest key) in
      let sized : length (a ++ codes ".cache") ≡ 70 =
        omega (arith, length-append a (codes ".cache"), long) in
      or_true (has_prefix (path s key) (codes ".cache-tmp-")) (
        rw sized (
          and_true
            (ap (λ (x : Bytes). equal x (codes ".cache")) (drop-part 64 a (codes ".cache") long)
              ∙ equal_refl (codes ".cache"))
            (ap all_hex (take-part 64 a (codes ".cache") long)
              ∙ all_hex-hex (s.sha256 key) (laws.digest_bytes key))))

  -- With digests of 32 bytes: Flush, when its calls succeed, removes the record of every key, and
  -- of the files in the directory exactly those with the name of an entry.
  pub flush_lem :
      (key n : Bytes) (d : Disk)
      → d.faults ≡ []
      → ((flush d).0 ≡ ok tt)
        × (lookup (path s key) (flush d).1.files ≡ none)
        × (lookup n (flush d).1.files ≡ (if is_file_store_entry n then none else lookup n d.files))
  unfolding flush read_dir
  flush_lem key n d calm = ground (
    arith,
    calm,
    flush_each_lem (names d.files) n d calm,
    flush_each_lem (names d.files) (path s key) d calm,
    is_file_store_entry-path key,
    lookup-names n d.files,
    lookup-names (path s key) d.files,
  )
