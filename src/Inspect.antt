-- ===== src/Inspect.antt =====
-- cachecore/inspect_helpers.go: filters, cursors and pages of a listing.
pub mod Pages
pub mod Sorted
use cache.Prelude.{
  ℕ, zero, suc, ◌+◌, ◌-◌, ◌≤◌, Bool, true, false, not, ◌&&◌, ◌||◌, Option, none, some, List, [],
  ◌∷◌, ◌++◌, Bytes, codes, equal, contains, length, take, drop, ltb, leb, ◌==◌, ℤ, pos, negsuc,
  pos_part, is_positive, if◌then◌else◌,
}
use cache.Decimal.{parse_int, format_int}
use cache.Store.{Result, ok, err, invalid_cursor, ListPageOptions, CacheEntry, ListPageResult}

unfoldable pub normalize_list_limit : ℤ → ℕ
normalize_list_limit limit =
    if not (is_positive limit)
    then 100
    else if ltb 500 (pos_part limit)
    then 500
    else pos_part limit

-- The white space of strings.TrimSpace, in ASCII.
abbrev pub is_space : ℕ → Bool
is_space c = c == 32 || leb 9 c && leb c 13

abbrev pub trim_left : Bytes → Bytes
trim_left [] = []
trim_left (c ∷ s) = let rest = trim_left s in if is_space c then rest else c ∷ s

abbrev pub trim_right : Bytes → Bytes
trim_right [] = []
trim_right (c ∷ s) =
    let rest = trim_right s in
    elim rest [ [] ↦ if is_space c then [] else c ∷ [] | d ∷ t ↦ c ∷ d ∷ t ]

unfoldable pub trim_space : Bytes → Bytes
trim_space s = trim_right (trim_left s)

abbrev is_empty : Bytes → Bool
is_empty [] = true
is_empty (c ∷ s) = false

abbrev checked_offset : Bytes → Option ℤ → Result ℕ
checked_offset cursor none = err (invalid_cursor cursor)
checked_offset cursor (some (pos n)) = ok n
checked_offset cursor (some (negsuc n)) = err (invalid_cursor cursor)

unfoldable pub decode_offset_cursor : Bytes → Result ℕ
unfolding trim_space
decode_offset_cursor cursor =
    let trimmed = trim_space cursor in
    if is_empty trimmed then ok 0 else checked_offset trimmed (parse_int trimmed)

unfoldable pub encode_offset_cursor : ℤ → Bytes
encode_offset_cursor offset = if is_positive offset then format_int offset else []

unfoldable pub list_filter_term : ListPageOptions → Bytes
list_filter_term opts =
    let query = trim_space opts.query in if is_empty query then trim_space opts.prefix else query

-- < on strings.
unfoldable pub less : Bytes → Bytes → Bool
less [] [] = false
less [] (y ∷ ys) = true
less (x ∷ xs) [] = false
less (x ∷ xs) (y ∷ ys) = ltb x y || x == y && less xs ys

abbrev pub keep_matching : Bytes → List CacheEntry → List CacheEntry
keep_matching filter [] = []
keep_matching filter (e ∷ es) =
    let rest = keep_matching filter es in
    if not (is_empty filter) && not (contains e.key filter) then rest else e ∷ rest

-- sort.Slice by key. It leaves the order of equal keys open; here the later comes first.
unfoldable pub insert_sorted : CacheEntry → List CacheEntry → List CacheEntry
insert_sorted e [] = e ∷ []
insert_sorted e (f ∷ fs) =
    let rest = insert_sorted e fs in if less f.key e.key then f ∷ rest else e ∷ f ∷ fs

unfoldable pub sort_entries : List CacheEntry → List CacheEntry
unfolding insert_sorted
sort_entries [] = []
sort_entries (e ∷ es) = insert_sorted e (sort_entries es)

unfoldable pub filter_and_sort_entries : List CacheEntry → Bytes → List CacheEntry
unfolding sort_entries
filter_and_sort_entries entries filter = sort_entries (keep_matching (trim_space filter) entries)

-- The offset is clamped to the list, and a negative one is zero.
abbrev clamp_offset : ℤ → ℕ → ℕ
clamp_offset offset n = if ltb n (pos_part offset) then n else pos_part offset

unfoldable pub slice_entries : List CacheEntry → ℤ → ℤ → ListPageResult
unfolding normalize_list_limit encode_offset_cursor
slice_entries entries offset limit =
    let start = clamp_offset offset (length entries) in
    let stop = start + normalize_list_limit limit in
    let end = if ltb (length entries) stop then length entries else stop in
    let has_more = ltb end (length entries) in
    record {
      entries = take (end - start) (drop start entries);
      next_cursor = if has_more then encode_offset_cursor (pos end) else [];
      has_more = has_more;
    }
