-- ===== src/Sql/Table.antt =====
-- What the operations of driver/sqlcore/store.go make of the table of the abstract store, over a
-- database that is up and that nobody else writes.
use cache.Prelude.{
  ℕ, ◌/◌, ◌≡◌, ◌⊎◌, inl, inr, refl, ◌∙◌, false, Option, none, some, [], ◌∷◌, ◌++◌, arith, Bytes,
  equal, equal-append, ℤ, pos, ltb_ℤ, Bool-cases,
}
use cache.Store.{Result}
use cache.Store.Spec.{Table, assign}
use cache.Sql.Server.{Database, Rows, Leaves, with_row, DatabaseLaws}
use cache.Sql.{SqlStore, World, cache_key}
use cache.Sql.Dialects.{dialect}

pub equal-cache_key :
    (s : SqlStore) (k j : Bytes) → equal (cache_key s k) (cache_key s j) ≡ equal k j
unfolding cache_key
equal-cache_key s k j = go s.prefix
  where
    name : Bytes → Bytes → Bytes
    name p key = elim p [ [] ↦ key | c ∷ rest ↦ (c ∷ rest) ++ b':' ∷ key ]

    go : (p : Bytes) → equal (name p k) (name p j) ≡ equal k j
    go [] = refl
    go (c ∷ p) = equal-append (c ∷ p) (b':' ∷ k) (b':' ∷ j) ∙ equal-append (b':' ∷ []) k j

module _ (db : Database) (rows : db.State → Rows) (s : SqlStore)
    (laws : DatabaseLaws db rows s.table (dialect s)) (now : ℕ) where
  abbrev pub at : db.State → World db
  at st = record { state = st; now = now }

  abbrev pub IsCurrent : ℤ → Type 0
  IsCurrent e = ltb_ℤ e (pos (now / 1000000)) ≡ false

  abbrev pub Match : Option (Bytes × ℤ) → Option Bytes → Type 0
  Match row value =
      ((row ≡ none) × (value ≡ none))
      ⊎ ((v : Bytes) × (e : ℤ) × (row ≡ some (v, e)) × (value ≡ some v) × IsCurrent e)

  -- The rows under the names of the store are the entries of a table, and none is past its end.
  pub record Holds (st : db.State) (m : Table) : Type 0 where
    pub at_key : (k : Bytes) → Match (rows st (cache_key s k)) (m k)

  pub moved :
      (row row' : Option (Bytes × ℤ)) (value value' : Option Bytes)
      → row' ≡ row
      → value' ≡ value
      → Match row value
      → Match row' value'
  moved row row' value value' r v (inl (free, absent)) = inl (r ∙ free, v ∙ absent)
  moved row row' value value' r v (inr (u, e, is_row, is_value, alive)) =
      inr (u, e, r ∙ is_row, v ∙ is_value, alive)

  pub change-Holds :
      (k : Bytes) (row : Option (Bytes × ℤ)) (value : Option Bytes) (n : ℕ) (st : db.State)
      (m : Table) (r : Result (Result ℕ) × db.State)
      → Match row value
      → Holds st m
      → Leaves db rows n (with_row db rows (cache_key s k) row (rows st)) r
      → Holds r.1 (assign k value m)
  change-Holds k row value n st m r is h (answer, leaves) = record {
    at_key = λ j. elim (Bool-cases (equal k j)) [
      | inl same ↦
          moved row (rows r.1 (cache_key s j)) value (assign k value m j)
            (ground (arith, leaves (cache_key s j), equal-cache_key s k j)) (ground arith) is
      | inr other ↦
          moved (rows st (cache_key s j)) (rows r.1 (cache_key s j)) (m j) (assign k value m j)
            (ground (arith, leaves (cache_key s j), equal-cache_key s k j)) (ground arith)
            (h.at_key j)
    ];
  }

  -- The same rows.
  pub same-Holds :
      (st st' : db.State) (m : Table)
      → ((j : Bytes) → rows st' j ≡ rows st j)
      → Holds st m
      → Holds st' m
  same-Holds st st' m same h = record {
    at_key = λ j.
        moved (rows st (cache_key s j)) (rows st' (cache_key s j)) (m j) (m j)
          (same (cache_key s j)) refl (h.at_key j);
  }
