-- ===== src/File/Atomic.antt =====
-- fileStore.set of store_file.go under failures of its calls.
use cache.Prelude.{
  ◌<◌, length, All, Map, ◌≡◌, ◌≢◌, refl, sym, ◌∙◌, false, ◌&&◌, some, [], ◌∷◌, ◌++◌, arith, Bytes,
  codes, has_prefix, equal, equal_iff, equal_refl, lookup, lookup-put, lookup-without, without,
  if◌then◌else◌, inl, inr, ℤ,
}
use cache.Store.{Error, Result, Result-cases, ok, err}
use cache.Facade.{is_ok}
use cache.File.Calls.{
  call_lem, remove_file_lem, write_lem, write-ok, Disk, TempLaws, system_cases, create_temp, write,
  call, rename_file, content,
}
use cache.File.Record.{file_record_header}
use cache.File.{hex, FileStore, path, abandon, abandon_open, commit, flush_file, fill, set, expiry}

-- The outcome of a write of `body` to the file `n`, at the file `j`: all of it where the write
-- succeeds, and nothing where it fails.
abbrev pub Installs : Bytes → Bytes → Bytes → Disk → Result (Unit {0}) × Disk → Type 0
Installs n body j d r =
    lookup j r.1.files ≡ (if is_ok r.0 && equal n j then some body else lookup j d.files)

rename_file-Installs :
    (old new j : Bytes) (d : Disk)
    → old ≢ j
    → Installs new (content (lookup old d.files)) j d (rename_file old new d)
unfolding rename_file
rename_file-Installs old new j d other =
    system_cases (Installs new (content (lookup old d.files)) j d) _ _ d.faults d
      (λ rest. ground (
        arith,
        lookup-put new j (content (lookup old d.files)) (without old d.files),
        lookup-without old j d.files,
        equal_iff old j,
      ))
      (λ x rest. refl)

module _ (s : FileStore) (tmp j : Bytes) (other : tmp ≢ j) where
  abandon_lem :
      (e : Error) (d : Disk)
      → ((abandon s {A = Unit {0}} tmp e d).0 ≡ err e)
        × (lookup j (abandon s {A = Unit {0}} tmp e d).1.files ≡ lookup j d.files)
  abandon_lem e d = ground (arith, remove_file_lem tmp j d other)

  abandon_open_lem :
      (e : Error) (d : Disk)
      → ((abandon_open s tmp e d).0 ≡ err e)
        × (lookup j (abandon_open s tmp e d).1.files ≡ lookup j d.files)
  abandon_open_lem e d = ground (arith, call_lem d, abandon_lem e (call d).1)

  module _ (key : Bytes) where
    commit-Installs :
        (d : Disk) → Installs (path s key) (content (lookup tmp d.files)) j d (commit s tmp key d)
    unfolding commit
    commit-Installs d = elim (Result-cases (rename_file tmp (path s key) d).0) [
      | inl (u, good) ↦ ground (arith, rename_file-Installs tmp (path s key) j d other)
      | inr (e, bad) ↦ ground (
        arith,
        rename_file-Installs tmp (path s key) j d other,
        abandon_lem e (rename_file tmp (path s key) d).1,
      )
    ]

    flush_file-Installs :
        (d : Disk)
        → Installs (path s key) (content (lookup tmp d.files)) j d (flush_file s tmp key d)
    unfolding flush_file
    flush_file-Installs d =
        let d1 = (call d).1 in
        let d2 = (call d1).1 in
        elim (Result-cases (call d).0) [
          | inr (e, bad) ↦ ground (arith, call_lem d, abandon_open_lem e d1)
          | inl (u, good) ↦ elim (Result-cases (call d1).0) [
            | inr (e, bad) ↦ ground (arith, call_lem d, call_lem d1, abandon_lem e d2)
            | inl (u', good') ↦ ground (arith, call_lem d, call_lem d1, commit-Installs d2)
          ]
        ]

    fill-Installs :
        (header value : Bytes) (d : Disk)
        → content (lookup tmp d.files) ≡ []
        → Installs (path s key) (header ++ value) j d (fill s tmp key header value d)
    unfolding fill
    fill-Installs header value d fresh =
        let d1 = (write tmp header d).1 in
        let d2 = (write tmp value d1).1 in
        elim (Result-cases (write tmp header d).0) [
          | inr (e, bad) ↦ ground (arith, write_lem tmp header j d other, abandon_open_lem e d1)
          | inl (u, good) ↦ elim (Result-cases (write tmp value d1).0) [
            | inr (e, bad) ↦ ground (
              arith,
              write_lem tmp header j d other,
              write_lem tmp value j d1 other,
              abandon_open_lem e d2,
            )
            | inl (u', good') ↦ ground (
              arith,
              write_lem tmp header j d other,
              write_lem tmp value j d1 other,
              write-ok tmp header d,
              write-ok tmp value d1,
              flush_file-Installs d2,
            )
          ]
        ]

-- A digest has 32 bytes, and os.CreateTemp picks a new name with its prefix.
pub record FileLaws (s : FileStore) : Type 0 where
  pub temp : TempLaws s.temp_name
  pub digest : (key : Bytes) → length (s.sha256 key) ≡ 32
  pub digest_bytes : (key : Bytes) → All (λ b. b < 256) (s.sha256 key)

hex-is_temp :
    (a rest : Bytes) → 0 < length a → has_prefix (hex a ++ rest) (codes ".cache-tmp-") ≡ false
unfolding hex has_prefix
hex-is_temp [] rest h = absurd (omega arith)
hex-is_temp (b ∷ a) rest h = ground arith

module _ (s : FileStore) (laws : FileLaws s) where
  temp_ne_path : (m : Map Bytes) (key : Bytes) → s.temp_name m ≢ path s key
  unfolding path
  temp_ne_path m key e = absurd (
      ground (
        arith,
        laws.temp.is_temp m,
        hex-is_temp (s.sha256 key) (codes ".cache") (omega (arith, laws.digest key)),
        e,
      ))

  create_temp_lem :
      (j : Bytes) (d : Disk)
      → s.temp_name d.files ≢ j
      → lookup j (create_temp s.temp_name d).1.files ≡ lookup j d.files
  unfolding create_temp
  create_temp_lem j d other =
      system_cases (λ r. lookup j r.1.files ≡ lookup j d.files) _ _ d.faults d
        (λ rest.
          ground (
            arith,
            lookup-put (s.temp_name d.files) j [] d.files,
            equal_iff (s.temp_name d.files) j,
          ))
        (λ x rest. refl)

  create_temp-ok :
      (tmp : Bytes) (d : Disk)
      → (create_temp s.temp_name d).0 ≡ ok tmp
      → (tmp ≡ s.temp_name d.files)
        × (content (lookup tmp (create_temp s.temp_name d).1.files) ≡ [])
  unfolding create_temp
  create_temp-ok tmp d =
      system_cases
        (λ r. r.0 ≡ ok tmp → (tmp ≡ s.temp_name d.files) × (content (lookup tmp r.1.files) ≡ [])) _
        _ d.faults d
        (λ rest h.
          ground (arith, h, lookup-put (s.temp_name d.files) tmp [] d.files, equal_refl tmp))
        (λ x rest h. absurd (ground (arith, h)))

  -- With digests of 32 bytes and temporary names of their own: whichever calls of a Set fail, and
  -- with a part of the data written or not, the record of a key is the whole new record if the Set
  -- of its file succeeded, and else what it was before.
  pub set-Installs :
      (key value j : Bytes) (ttl : ℤ) (d : Disk)
      → Installs
          (path s key)
          (file_record_header (expiry s ttl d) key ++ value)
          (path s j)
          d
          (set s key value ttl d)
  unfolding set
  set-Installs key value j ttl d =
      let d1 = (create_temp s.temp_name d).1 in
      elim (Result-cases (create_temp s.temp_name d).0) [
        | inr (e, bad) ↦ ground (arith, create_temp_lem (path s j) d (temp_ne_path d.files j))
        | inl (tmp, good) ↦
            let (is_temp, fresh) = create_temp-ok tmp d good in
            let other : tmp ≢ path s j = λ e. temp_ne_path d.files j (sym is_temp ∙ e) in
            ground (
              arith,
              create_temp_lem (path s j) d (temp_ne_path d.files j),
              fill-Installs s tmp (path s j) other key (file_record_header (expiry s ttl d) key)
                  value d1 fresh,
            )
      ]
