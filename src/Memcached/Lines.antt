-- ===== src/Memcached/Lines.antt =====
-- driver/memcachedcache/store.go: the lines that its operations send and read.
use cache.Prelude.{
  ℕ, ◌/◌, List, [], ◌∷◌, ◌++◌, Bytes, codes, has_prefix, length, get_or, ltb, ◌==◌, ℤ, pos, negsuc,
  if◌then◌else◌,
}
use cache.Decimal.{format_int}
use cache.Store.{Error, text, message, join, pure, fail, ◌>>=◌, ◌>>◌}
use cache.Inspect.{trim_space, is_space}
use cache.Memcached.Pools.{
  Network, MemcachedStore, Mc, Exchange, spoil, send, read_line, read_bytes,
}

-- strings.Fields, for the white space of ASCII: `word` is the one that is being read.
abbrev pub with_word : Bytes → List Bytes → List Bytes
with_word [] words = words
with_word (c ∷ word) words = (c ∷ word) ∷ words

unfoldable pub fields_from : Bytes → Bytes → List Bytes
fields_from word [] = with_word word []
fields_from word (c ∷ s) =
    let ends = with_word word (fields_from [] s) in
    let goes_on = fields_from (word ++ c ∷ []) s in if is_space c then ends else goes_on

unfoldable pub fields : Bytes → List Bytes
unfolding fields_from
fields s = fields_from [] s

-- `int(ttl.Seconds())`, not below 1. The float64 of Seconds is taken as exact: it is rounded up to
-- the next second only for a duration above 2^23 seconds that ends in a nanosecond less.
abbrev pub seconds_of : ℤ → ℕ
seconds_of (pos t) = let n = t / 1000000000 in if ltb n 1 then 1 else n
seconds_of (negsuc t) = 1

abbrev pub field : List Bytes → ℕ → Bytes
field fs i = get_or fs i []

-- An error with the line that the server sent.
abbrev pub answered : Error → Bytes → Error
answered e line = join e (message (trim_space line))

module _ (network : Network) (s : MemcachedStore) where
  unfoldable pub cache_key : Bytes → Bytes
  cache_key key = if length s.prefix == 0 then key else s.prefix ++ (codes ":" ++ key)

  abbrev pub request : Mc network s → Bytes → Exchange network s Bytes
  request mc line = do send network s mc line; read_line network s mc

  abbrev pub expecting : Bytes → Error → Bytes → Exchange network s (Unit {0})
  expecting start e line =
      if has_prefix line start then pure tt else spoil network s (answered e line)

  -- `make` panics on a negative length, which ends the call and leaves `bad` as it is.
  abbrev pub read_value : Mc network s → ℤ → Exchange network s Bytes
  read_value mc (negsuc n) = fail (text "runtime error: makeslice: len out of range")
  read_value mc (pos n) = do
    value ← read_bytes network s mc n
    read_line network s mc
    read_line network s mc
    pure value

  -- The header of set and add, the value and the end of its line, and the line of the answer.
  abbrev pub store_value : Mc network s → Bytes → Bytes → Bytes → ℤ → Exchange network s Bytes
  store_value mc verb key value ttl = do
    send network s mc (
        verb
        ++ (codes " "
            ++ (cache_key key
                ++ (codes " 0 "
                    ++ (format_int (pos (seconds_of ttl))
                        ++ (codes " " ++ (format_int (pos (length value)) ++ codes "\r\n")))))))
    send network s mc value
    send network s mc (codes "\r\n")
    read_line network s mc
