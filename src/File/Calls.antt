-- ===== src/File/Calls.antt =====
-- The directory of store_file.go, the calls of package os on it, and what they change.
use cache.Prelude.{
  arith, refl, ◌≢◌, lookup-put, lookup-without, equal_iff, equal_refl, ℕ, ◌≡◌, Bool, true, false,
  Option, none, some, List, [], ◌∷◌, ◌++◌, Bytes, codes, has_prefix, Map, lookup, put, without,
  take,
}
use cache.Store.{Error, Result, ok, err, Act}

-- The failure of a call, and how much a Write wrote before it.
pub record Fault : Type 0 where
  pub error : Error
  pub written : ℕ

-- `faults` tells which of the calls to come fail; a call past the list succeeds. A mutex of the
-- process keeps others out of the directory.
pub record Disk : Type 0 where
  pub files : Map Bytes
  pub faults : List (Option Fault)
  pub now : ℕ

-- os.CreateTemp picks a name that nothing has.
pub record TempLaws (temp_name : Map Bytes → Bytes) : Type 0 where
  pub is_new : (m : Map Bytes) → lookup (temp_name m) m ≡ none
  pub is_temp : (m : Map Bytes) → has_prefix (temp_name m) (codes ".cache-tmp-") ≡ true

-- A call that does `f` where it succeeds and `g` where it fails.
abbrev pub answer :
    {A : Type 0} → List (Option Fault) → (Disk → A × Disk) → (ℕ → Disk → Disk) → Act Disk A
answer [] f g d = (ok (f d).0, (f d).1)
answer (none ∷ rest) f g d = let d' = record d { faults = rest } in (ok (f d').0, (f d').1)
answer (some x ∷ rest) f g d = (err x.error, g x.written (record d { faults = rest }))

abbrev pub system : {A : Type 0} → (Disk → A × Disk) → (ℕ → Disk → Disk) → Act Disk A
system f g d = answer d.faults f g d

-- What holds of a call whether it succeeds or fails, whatever the failures to come.
pub system_cases :
    {A : Type 0} (P : Result A × Disk → Type 0) (f : Disk → A × Disk) (g : ℕ → Disk → Disk)
    (faults : List (Option Fault)) (d : Disk)
    → ((rest : List (Option Fault))
        → P (ok (f (record d { faults = rest })).0, (f (record d { faults = rest })).1))
    → ((x : Fault) (rest : List (Option Fault))
        → P (err x.error, g x.written (record d { faults = rest })))
    → P (answer faults f g (record d { faults = faults }))
system_cases P f g [] d succeeds fails = succeeds []
system_cases P f g (none ∷ rest) d succeeds fails = succeeds rest
system_cases P f g (some x ∷ rest) d succeeds fails = fails x rest

abbrev pub nothing_written : ℕ → Disk → Disk
nothing_written n d = d

abbrev pub content : Option Bytes → Bytes
content none = []
content (some body) = body

-- Writes at the end of a file that is open.
abbrev pub extend : Bytes → Bytes → Disk → Disk
extend name chunk d = record d { files = put name (content (lookup name d.files) ++ chunk) d.files }

-- A missing file is `none`.
unfoldable pub read_file : Bytes → Act Disk (Option Bytes)
read_file name = system (λ d. (lookup name d.files, d)) nothing_written

-- Whether there was a file.
abbrev pub is_some : Option Bytes → Bool
is_some none = false
is_some (some body) = true

unfoldable pub remove_file : Bytes → Act Disk Bool
remove_file name =
    system (λ d. (is_some (lookup name d.files), record d { files = without name d.files }))
      nothing_written

unfoldable pub create_temp : (Map Bytes → Bytes) → Act Disk Bytes
create_temp temp_name =
    system (λ d. (temp_name d.files, record d { files = put (temp_name d.files) [] d.files }))
      nothing_written

unfoldable pub write : Bytes → Bytes → Act Disk (Unit {0})
write name chunk = system (λ d. (tt, extend name chunk d)) (λ n. extend name (take n chunk))

-- Sync, Close and MkdirAll.
unfoldable pub call : Act Disk (Unit {0})
call = system (λ d. (tt, d)) nothing_written

-- A rename puts the whole file under its new name at once.
unfoldable pub rename_file : Bytes → Bytes → Act Disk (Unit {0})
rename_file old new =
    system
      (λ d. (tt, record d { files = put new (content (lookup old d.files)) (without old d.files) }))
      nothing_written

-- What each call does to the files.
pub call_lem : (d : Disk) → (call d).1.files ≡ d.files
unfolding call
call_lem d = system_cases (λ r. r.1.files ≡ d.files) _ _ d.faults d (λ rest. refl) (λ x rest. refl)

pub remove_file_lem :
    (n j : Bytes) (d : Disk) → n ≢ j → lookup j (remove_file n d).1.files ≡ lookup j d.files
unfolding remove_file
remove_file_lem n j d other =
    system_cases (λ r. lookup j r.1.files ≡ lookup j d.files) _ _ d.faults d
      (λ rest. ground (arith, lookup-without n j d.files, equal_iff n j)) (λ x rest. refl)

pub write_lem :
    (n chunk j : Bytes) (d : Disk) → n ≢ j → lookup j (write n chunk d).1.files ≡ lookup j d.files
unfolding write
write_lem n chunk j d other =
    system_cases (λ r. lookup j r.1.files ≡ lookup j d.files) _ _ d.faults d
      (λ rest.
        ground (arith, lookup-put n j (content (lookup n d.files) ++ chunk) d.files, equal_iff n j))
      (λ x rest. ground (
        arith,
        lookup-put n j (content (lookup n d.files) ++ take x.written chunk) d.files,
        equal_iff n j,
      ))

pub write-ok :
    (n chunk : Bytes) (d : Disk)
    → (write n chunk d).0 ≡ ok tt
    → content (lookup n (write n chunk d).1.files) ≡ content (lookup n d.files) ++ chunk
unfolding write
write-ok n chunk d =
    system_cases
      (λ r. r.0 ≡ ok tt → content (lookup n r.1.files) ≡ content (lookup n d.files) ++ chunk) _ _
      d.faults d
      (λ rest h.
        ground (arith, lookup-put n n (content (lookup n d.files) ++ chunk) d.files, equal_refl n))
      (λ x rest h. absurd (ground (arith, h)))
