-- ===== src/Inspect/Sorted.antt =====
-- FilterAndSortEntries of cachecore/inspect_helpers.go: the matching entries, sorted by key.
use mathlib.Core.Bool.{Bool-discrete}
use mathlib.Core.List.{Perm, filter}
use mathlib.Core.List.Perm
use cache.Prelude.{
  ◌≡◌, refl, true, false, List, [], ◌∷◌, arith, Bytes, contains, has_prefix, Bool-cases, inl, inr,
  subst,
}
use cache.Store.{CacheEntry}
use cache.Inspect.{
  less, insert_sorted, sort_entries, filter_and_sort_entries, trim_space, keep_matching,
}

less-asym : (s t : Bytes) → less s t ≡ true → less t s ≡ false
unfolding less
less-asym [] [] h = refl
less-asym [] (y ∷ t) h = refl
less-asym (x ∷ s) [] h = absurd (ground (arith, h))
less-asym (x ∷ s) (y ∷ t) h = ground (arith, less-asym s t)

-- No entry has a smaller key than the one before it.
abbrev pub IsSortedFrom : CacheEntry → List CacheEntry → Type 0
IsSortedFrom e [] = Unit {0}
IsSortedFrom e (f ∷ fs) = (less f.key e.key ≡ false) × IsSortedFrom f fs

abbrev pub IsSorted : List CacheEntry → Type 0
IsSorted [] = Unit {0}
IsSorted (e ∷ es) = IsSortedFrom e es

insert_sorted-IsSortedFrom :
    (g e : CacheEntry) (fs : List CacheEntry)
    → less e.key g.key ≡ false
    → IsSortedFrom g fs
    → IsSortedFrom g (insert_sorted e fs)
unfolding insert_sorted
insert_sorted-IsSortedFrom g e [] h k = (h, tt)
insert_sorted-IsSortedFrom g e (f ∷ fs) h k = elim (Bool-cases (less f.key e.key)) [
  | inl later ↦ rw later (k.0, insert_sorted-IsSortedFrom f e fs (less-asym f.key e.key later) k.1)
  | inr here ↦ rw here (h, (here, k.1))
]

insert_sorted-IsSorted :
    (e : CacheEntry) (fs : List CacheEntry) → IsSorted fs → IsSorted (insert_sorted e fs)
unfolding insert_sorted
insert_sorted-IsSorted e [] k = tt
insert_sorted-IsSorted e (f ∷ fs) k = elim (Bool-cases (less f.key e.key)) [
  | inl later ↦ rw later (insert_sorted-IsSortedFrom f e fs (less-asym f.key e.key later) k)
  | inr here ↦ rw here (here, k)
]

sort_entries-IsSorted : (es : List CacheEntry) → IsSorted (sort_entries es)
unfolding sort_entries
sort_entries-IsSorted [] = tt
sort_entries-IsSorted (e ∷ es) =
    insert_sorted-IsSorted e (sort_entries es) (sort_entries-IsSorted es)

insert_sorted-Perm : (e : CacheEntry) (fs : List CacheEntry) → Perm (insert_sorted e fs) (e ∷ fs)
unfolding insert_sorted
insert_sorted-Perm e [] = Perm.refl (e ∷ [])
insert_sorted-Perm e (f ∷ fs) = elim (Bool-cases (less f.key e.key)) [
  | inl later ↦ rw later (Perm.trans (Perm.cons f (insert_sorted-Perm e fs)) (Perm.swap e f fs))
  | inr here ↦ rw here (Perm.refl (e ∷ f ∷ fs))
]

sort_entries-Perm : (es : List CacheEntry) → Perm (sort_entries es) es
unfolding sort_entries
sort_entries-Perm [] = Perm.refl []
sort_entries-Perm (e ∷ es) =
    Perm.trans (insert_sorted-Perm e (sort_entries es)) (Perm.cons e (sort_entries-Perm es))

-- Whether the key of an entry contains the filter; every key contains the empty one.
abbrev pub Matches : Bytes → CacheEntry → Type 0
Matches term e = contains e.key term ≡ true

abbrev pub matches? : (term : Bytes) (e : CacheEntry) → Dec (Matches term e)
matches? term e = Bool-discrete (contains e.key term) true

contains-nil : (s : Bytes) → contains s [] ≡ true
unfolding contains has_prefix
contains-nil [] = refl
contains-nil (c ∷ s) = refl

keep_matching-filter :
    (term : Bytes) (es : List CacheEntry) → keep_matching term es ≡ filter (matches? term) es
keep_matching-filter term [] = refl
keep_matching-filter [] (e ∷ es) = ground (arith, contains-nil e.key, keep_matching-filter [] es)
keep_matching-filter (c ∷ term) (e ∷ es) = ground (arith, keep_matching-filter (c ∷ term) es)

-- The entries whose keys contain the trimmed filter, each as often as it was there, with their
-- keys in order.
pub filter_and_sort_entries_lem :
    (entries : List CacheEntry) (term : Bytes)
    → IsSorted (filter_and_sort_entries entries term)
      × Perm (filter_and_sort_entries entries term) (filter (matches? (trim_space term)) entries)
unfolding filter_and_sort_entries
filter_and_sort_entries_lem entries term =
    let kept = keep_matching (trim_space term) entries in
    (
      sort_entries-IsSorted kept,
      subst (Perm (sort_entries kept)) (keep_matching-filter (trim_space term) entries)
          (sort_entries-Perm kept),
    )
