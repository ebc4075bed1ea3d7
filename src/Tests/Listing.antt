-- ===== src/Tests/Listing.antt =====
-- The pages of cachecore/inspect_helpers.go and the numbers of the stores at concrete inputs.
use cache.Prelude.{◌≡◌, List, [], ◌∷◌, arith, codes, pos}
use cache.Prelude.{none}
use cache.Store.{CacheEntry}
use mathlib.Core.List.{Perm, filter}
use cache.Inspect.Sorted.{IsSorted, matches?, filter_and_sort_entries_lem}
use cache.Inspect.{filter_and_sort_entries, trim_space}
use cache.Inspect.Pages.{all_pages, all_pages_lem}

abbrev entry_a : CacheEntry
entry_a = record { key = codes "a"; size_bytes = 1; expires_at = none }

abbrev entry_b : CacheEntry
entry_b = record { key = codes "b"; size_bytes = 2; expires_at = none }

abbrev entry_c : CacheEntry
entry_c = record { key = codes "c"; size_bytes = 3; expires_at = none }

abbrev three : List CacheEntry
three = entry_a ∷ entry_b ∷ entry_c ∷ []

all_pages_lem_example : all_pages 4 three (pos 2) 0 ≡ three
all_pages_lem_example = all_pages_lem three (pos 2) (omega arith)

filter_and_sort_entries_lem_example :
    IsSorted (filter_and_sort_entries (entry_c ∷ entry_a ∷ []) [])
    × Perm
        (filter_and_sort_entries (entry_c ∷ entry_a ∷ []) [])
        (filter (matches? (trim_space [])) (entry_c ∷ entry_a ∷ []))
filter_and_sort_entries_lem_example = filter_and_sort_entries_lem (entry_c ∷ entry_a ∷ []) []
