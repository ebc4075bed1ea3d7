-- ===== src/Shaping/Value.antt =====
-- encodeValue and decodeValue of cachecore/shaping.go: the size policy and the gzip envelope.
use cache.Prelude.{
  ℕ, ◌+◌, ◌≡◌, Bool, true, not, ◌&&◌, ◌||◌, Option, none, some, ◌∷◌, ◌++◌, Bytes, codes, equal,
  length, take, drop, get_or, ltb, ◌==◌, ℤ, pos, pos_part, is_positive, ltb_ℤ, two63, if◌then◌else◌,
}
use cache.Store.{
  Result, ok, err, value_too_large, unsupported_codec, corrupt_compression, CompressionCodec,
  compression_none, compression_gzip,
}

-- compress/gzip. `compress` is a writer at BestSpeed over a buffer, closed; `opens` is whether
-- NewReader accepts the header; `read_all` reads the content to its end, or up to a limit.
pub record Gzip : Type 0 where
  pub compress : Bytes → Result Bytes
  pub opens : Bytes → Bool
  pub read_all : Bytes → Option ℕ → Option Bytes

-- What the documentation of compress/gzip and of io.LimitReader promises.
pub record GzipLaws (gzip : Gzip) : Type 0 where
  pub opens-compress : (v p : Bytes) → gzip.compress v ≡ ok p → gzip.opens p ≡ true
  pub read_all-compress : (v p : Bytes) → gzip.compress v ≡ ok p → gzip.read_all p none ≡ some v
  pub read_all-limit :
      (v p : Bytes) (n : ℕ) → gzip.compress v ≡ ok p → gzip.read_all p (some n) ≡ some (take n v)

abbrev pub compression_magic : Bytes
compression_magic = codes "CMP1"

-- max > 0 && n > max
abbrev pub exceeds : ℤ → ℕ → Bool
exceeds max n = is_positive max && ltb_ℤ max (pos n)

-- A body that carries a compression envelope: the magic and at least one byte more.
unfoldable pub is_marked : Bytes → Bytes → Bool
unfolding equal
is_marked magic body =
    not (ltb (length body) (length magic + 1) || not (equal (take (length magic) body) magic))

-- The limit of the reader: one byte above the maximum, if int64 has it.
abbrev pub read_limit : ℤ → Option ℕ
read_limit max =
    if is_positive max
    then some (if ltb (pos_part max + 1) two63 then pos_part max + 1 else pos_part max)
    else none

module _ (gzip : Gzip) where
  abbrev compressed : ℤ → Bytes → Result Bytes → Result Bytes
  compressed max value (err e) = err e
  compressed max value (ok payload) =
      let encoded = compression_magic ++ b'g' ∷ payload in
      if exceeds max (length encoded) then err value_too_large else ok encoded

  unfoldable pub encode_value : CompressionCodec → ℤ → Bytes → Result Bytes
  encode_value codec max value =
      if exceeds max (length value) then err value_too_large else elim codec [
        | compression_none ↦ ok value
        | compression_gzip ↦ compressed max value (gzip.compress value)
        | _ ↦ err unsupported_codec
      ]

  abbrev decoded : ℤ → Option Bytes → Result Bytes
  decoded max none = err corrupt_compression
  decoded max (some value) = if exceeds max (length value) then err value_too_large else ok value

  unfoldable pub decode_value : Bytes → ℤ → Result Bytes
  unfolding is_marked
  decode_value body max =
      if exceeds max (length body)
      then err value_too_large
      else if not (is_marked compression_magic body)
      then ok body
      else let payload = drop (length compression_magic + 1) body in
        if get_or body (length compression_magic) 0 == b'g'
        then if not (gzip.opens payload)
          then err corrupt_compression
          else decoded max (gzip.read_all payload (read_limit max))
        else err unsupported_codec
