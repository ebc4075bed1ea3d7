-- ===== src/Inspect/Pages.antt =====
-- The pages of cachecore/inspect_helpers.go: each bounded, and together the whole listing.
use mathlib.Core.Path.{ap₂}
use cache.Prelude.{
  ℕ, zero, suc, ◌+◌, ◌-◌, ◌≤◌, ◌<◌, ◌≡◌, refl, sym, ap, ◌∙◌, true, false, List, [], ◌∷◌, ◌++◌,
  arith, Bytes, length, take, drop, ltb, ltb→lt, le→ltb, ℤ, pos, two63, All, if◌then◌else◌,
  length-take, length-drop, drop-add, take-append-drop, take_of_length-le, Bool-cases, inl, inr,
}
use cache.Decimal.{format_int, parse_int-format_int, IsDigit, format_int-All, format_int-ne_nil}
use cache.Store.{Result, ok, err, CacheEntry, ListPageResult}
use cache.Inspect.{
  normalize_list_limit, trim_left, trim_right, trim_space, decode_offset_cursor,
  encode_offset_cursor, slice_entries,
}

-- The page size is between 1 and 500.
normalize_bounds :
    (limit : ℤ) → (0 < normalize_list_limit limit) × (normalize_list_limit limit ≤ 500)
unfolding normalize_list_limit
normalize_bounds limit = ground arith

trim_left-digits : (s : Bytes) → All IsDigit s → trim_left s ≡ s
trim_left-digits [] h = refl
trim_left-digits (c ∷ s) h = ground arith

trim_right-digits : (s : Bytes) → All IsDigit s → trim_right s ≡ s
trim_right-digits [] h = refl
trim_right-digits (c ∷ []) h = ground arith
trim_right-digits (c ∷ d ∷ s) h = rw (trim_right-digits (d ∷ s) h.1)

trim_space-digits : (s : Bytes) → All IsDigit s → trim_space s ≡ s
unfolding trim_space
trim_space-digits s h = rw (trim_left-digits s h) (trim_right-digits s h)

-- The cursor of an offset that an int64 holds decodes to that offset.
pub decode_offset_cursor-encode_offset_cursor :
    (n : ℕ) → n < two63 → decode_offset_cursor (encode_offset_cursor (pos n)) ≡ ok n
unfolding decode_offset_cursor encode_offset_cursor
decode_offset_cursor-encode_offset_cursor zero h = unfold trim_space in refl
decode_offset_cursor-encode_offset_cursor (suc n) h =
    rw (trim_space-digits (format_int (pos (suc n))) (format_int-All (suc n)))
      (ground (arith, format_int-ne_nil (suc n), parse_int-format_int (pos (suc n))))

-- Follows the cursors from an offset, as a client does: a page, then the page at its cursor, while
-- there is more.
abbrev follow : (ℕ → List CacheEntry) → ListPageResult → Result ℕ → List CacheEntry
follow rest page (ok offset) = if page.has_more then page.entries ++ rest offset else page.entries
follow rest page (err e) = page.entries

unfoldable pub all_pages : ℕ → List CacheEntry → ℤ → ℕ → List CacheEntry
all_pages zero entries limit offset = []
all_pages (suc fuel) entries limit offset =
    let page = slice_entries entries (pos offset) limit in
    let rest = all_pages fuel entries limit in
    follow rest page (decode_offset_cursor page.next_cursor)

module _ (entries : List CacheEntry) (limit : ℤ) (offset : ℕ)
    (inside : offset ≤ length entries) where
  abbrev page_of : ListPageResult
  page_of = slice_entries entries (pos offset) limit

  abbrev past : ℕ
  past = offset + normalize_list_limit limit

  page-entries : page_of.entries ≡ take (normalize_list_limit limit) (drop offset entries)
  unfolding slice_entries
  page-entries = elim (Bool-cases (ltb (length entries) past)) [
    | inl short ↦
        rw (le→ltb (length entries) offset inside, short)
          (take_of_length-le _ _ (omega (arith, length-drop offset entries))
            ∙ sym (
                take_of_length-le (normalize_list_limit limit) (drop offset entries)
                  (omega (arith, length-drop offset entries, ltb→lt (length entries) past short))))
    | inr long ↦
        rw (le→ltb (length entries) offset inside, long)
          (ap (λ (m : ℕ). take m (drop offset entries)) (omega arith))
  ]

  page-has_more : page_of.has_more ≡ ltb past (length entries)
  unfolding slice_entries
  page-has_more = ground arith

  page-next_cursor :
      page_of.next_cursor
      ≡ (if ltb past (length entries) then encode_offset_cursor (pos past) else [])
  unfolding slice_entries
  page-next_cursor = ground arith

-- A page at an offset within the listing holds the first entries from there on, as many as the
-- normalized limit and never more than 500; there is more exactly when entries are left behind it.
pub slice_entries_lem :
    (entries : List CacheEntry) (limit : ℤ) (offset : ℕ)
    → offset ≤ length entries
    → ((slice_entries entries (pos offset) limit).entries
        ≡ take (normalize_list_limit limit) (drop offset entries))
      × (length (slice_entries entries (pos offset) limit).entries ≤ 500)
      × ((slice_entries entries (pos offset) limit).has_more
          ≡ ltb (offset + normalize_list_limit limit) (length entries))
slice_entries_lem entries limit offset h = (
  page-entries entries limit offset h,
  rw (page-entries entries limit offset h) (
      omega (
        arith,
        length-take (normalize_list_limit limit) (drop offset entries),
        normalize_bounds limit,
      )),
  page-has_more entries limit offset h,
)

follow-more :
    (rest : ℕ → List CacheEntry) (page : ListPageResult) (cursor : Result ℕ) (offset : ℕ)
    → page.has_more ≡ true
    → cursor ≡ ok offset
    → follow rest page cursor ≡ page.entries ++ rest offset
follow-more rest page cursor offset more at = rw at (ground arith)

follow-last :
    (rest : ℕ → List CacheEntry) (page : ListPageResult) (cursor : Result ℕ)
    → page.has_more ≡ false
    → follow rest page cursor ≡ page.entries
follow-last rest page (ok offset) last = ground arith
follow-last rest page (err e) last = refl

module _ (entries : List CacheEntry) (limit : ℤ) (fits : length entries < two63) where
  all_pages-drop :
      (fuel offset : ℕ)
      → offset ≤ length entries
      → length entries - offset < fuel
      → all_pages fuel entries limit offset ≡ drop offset entries
  unfolding all_pages
  all_pages-drop zero offset h enough = absurd (omega arith)
  all_pages-drop (suc fuel) offset h enough =
      elim (Bool-cases (ltb (past entries limit offset h) (length entries))) [
        | inl more ↦
            let n = past entries limit offset h in
            let here : n < length entries = ltb→lt n (length entries) more in
            follow-more (all_pages fuel entries limit) (page_of entries limit offset h)
              (decode_offset_cursor (page_of entries limit offset h).next_cursor) n
              (page-has_more entries limit offset h ∙ more)
              (ap decode_offset_cursor (page-next_cursor entries limit offset h ∙ rw more)
                ∙ decode_offset_cursor-encode_offset_cursor n (omega arith))
            ∙ ap₂ ◌++◌ (page-entries entries limit offset h) (
                all_pages-drop fuel n (omega arith) (omega (arith, normalize_bounds limit))
                ∙ drop-add offset (normalize_list_limit limit) entries)
            ∙ take-append-drop (normalize_list_limit limit) (drop offset entries)
        | inr last ↦
            follow-last (all_pages fuel entries limit) (page_of entries limit offset h)
              (decode_offset_cursor (page_of entries limit offset h).next_cursor)
              (page-has_more entries limit offset h ∙ last)
            ∙ page-entries entries limit offset h
            ∙ take_of_length-le (normalize_list_limit limit) (drop offset entries)
                (ground (arith, length-drop offset entries))
      ]

-- A client that follows the cursors from the first page to the last is handed every entry of the
-- listing, of fewer than 2^63 entries, once and in order, whatever the page size.
pub all_pages_lem :
    (entries : List CacheEntry) (limit : ℤ)
    → length entries < two63
    → all_pages (suc (length entries)) entries limit 0 ≡ entries
all_pages_lem entries limit h =
    all_pages-drop entries limit h (suc (length entries)) 0 (omega arith) (omega arith)
