-- ===== src/Tests/Files.antt =====
-- store_file.go at concrete inputs.
use cache.Prelude.{
  has_prefix-append, ℕ, zero, suc, ◌+◌, ◌%◌, ◌<◌, ◌≡◌, refl, ap, none, some, [], ◌∷◌, ◌++◌, arith,
  All, Bytes, codes, equal, equal_iff, length, length-append, lookup, Map, ltb, pos, if◌then◌else◌,
}
use cache.Store.{ok, err, text, external}
use cache.File.{FileStore, path, get, set, expiry}
use cache.File.Calls.{Disk, TempLaws, create_temp, write, call, rename_file}
use cache.File.Record.{file_record_header}
use cache.File.Atomic.{FileLaws, Installs, set-Installs}
use cache.File.Directory.{flush, is_file_store_entry}
use cache.File.Reads.{calm, get-set, flush_lem}
use cache.Tests.Fixtures.{zeros, length-zeros}

-- A digest of 32 bytes: the first bytes of the text.
abbrev pub pad : ℕ → Bytes → Bytes
pad zero k = []
pad (suc n) [] = 0 ∷ pad n []
pad (suc n) (c ∷ k) = c % 256 ∷ pad n k

length-pad : (n : ℕ) (k : Bytes) → length (pad n k) ≡ n
length-pad zero k = refl
length-pad (suc n) [] = omega (arith, length-pad n [])
length-pad (suc n) (c ∷ k) = omega (arith, length-pad n k)

pad-All : (n : ℕ) (k : Bytes) → All (λ b. b < 256) (pad n k)
pad-All zero k = tt
pad-All (suc n) [] = (omega arith, pad-All n [])
pad-All (suc n) (c ∷ k) = (omega arith, pad-All n k)

abbrev total : Map Bytes → ℕ
total [] = 0
total ((name, body) ∷ files) = length name + total files

abbrev pub temp_name : Map Bytes → Bytes
temp_name m = codes ".cache-tmp-" ++ zeros (total m)

lookup-longer : (n : Bytes) (m : Map Bytes) → total m < length n → lookup n m ≡ none
unfolding lookup
lookup-longer n [] h = refl
lookup-longer n ((k, v) ∷ m) h =
    ground (arith, lookup-longer n m (omega arith), equal_iff k n, λ (e : k ≡ n). ap length e)

temp_laws : TempLaws temp_name
temp_laws = record {
  is_new = λ m. lookup-longer (temp_name m) m (
      omega (arith, length-append (codes ".cache-tmp-") (zeros (total m)), length-zeros (total m)));
  is_temp = λ m. has_prefix-append (codes ".cache-tmp-") (zeros (total m));
}

abbrev store : FileStore
store = record {
  sha256 = pad 32;
  unmarshal = λ body. err (text "not JSON");
  temp_name = temp_name;
  default_ttl = pos 60;
}

file_laws : FileLaws store
file_laws = record { temp = temp_laws; digest = length-pad 32; digest_bytes = pad-All 32 }

-- The write of the value fails after one byte, over an older record.
abbrev failing : Disk
failing = record {
  files = (path store (codes "k"), codes "old") ∷ [];
  faults = none ∷ none ∷ some (record { error = external 1; written = 1 }) ∷ [];
  now = 1000;
}

set-Installs_example :
    Installs
      (path store (codes "k"))
      (file_record_header (expiry store (pos 5) failing) (codes "k") ++ codes "new")
      (path store (codes "k"))
      failing
      (set store (codes "k") (codes "new") (pos 5) failing)
set-Installs_example =
    set-Installs store file_laws (codes "k") (codes "new") (codes "k") (pos 5) failing

abbrev empty : Disk
empty = record { files = []; faults = []; now = 1000 }

get-set_example :
    (get store (codes "k") (calm (set store (codes "k") (codes "v") (pos 5) empty).1 1006)).0
    ≡ ok (if ltb (1000 + 5) 1006 then none else some (codes "v"))
unfolding set create_temp write call rename_file
get-set_example =
    get-set store file_laws (codes "k") (codes "v") (pos 5) empty 1006 refl (omega arith)
      (omega arith) refl

abbrev shared : Disk
shared = record {
  files = (codes "notes.txt", codes "mine") ∷ (path store (codes "k"), codes "old") ∷ [];
  faults = [];
  now = 1000;
}

flush_lem_example :
    ((flush shared).0 ≡ ok tt)
    × (lookup (path store (codes "k")) (flush shared).1.files ≡ none)
    × (lookup (codes "notes.txt") (flush shared).1.files ≡ some (codes "mine"))
unfolding is_file_store_entry lookup equal
flush_lem_example = flush_lem store file_laws (codes "k") (codes "notes.txt") shared refl
