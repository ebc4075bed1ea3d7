-- ===== src/File/Record.antt =====
-- The records of store_file.go: fileStore.set writes the second generation, and decodeFileRecord
-- reads both and the JSON of the first versions. An int has 64 bits.
use mathlib.Core.List.{append_assoc}
use cache.Prelude.{
  ap, sym, ◌∙◌, ℕ, zero, suc, ◌+◌, ◌-◌, ◌*◌, ◌/◌, ◌%◌, ◌≤◌, ◌<◌, ◌≡◌, refl, ◌&&◌, [], ◌∷◌, ◌++◌,
  arith, Bytes, codes, equal, equal_refl, length, take, drop, ltb, leb, ℤ, bits64, signed64,
  IsInt64, wrap64, wrap64_of_IsInt64, length-append, take-append, drop-append, drop-add,
  if◌then◌else◌,
}
use cache.Store.{Result, ok, err, text}

-- binary.BigEndian over a number of bytes.
unfoldable pub put_uint : ℕ → ℕ → Bytes
put_uint zero n = []
put_uint (suc width) n = put_uint width (n / 256) ++ n % 256 ∷ []

unfoldable pub uint_from : ℕ → Bytes → ℕ
uint_from acc [] = acc
uint_from acc (b ∷ bs) = uint_from (acc * 256 + b) bs

abbrev pub powers : ℕ → ℕ
powers zero = 1
powers (suc width) = 256 * powers width

pub length-put_uint : (width n : ℕ) → length (put_uint width n) ≡ width
unfolding put_uint
length-put_uint zero n = refl
length-put_uint (suc width) n = omega (
  arith,
  length-append (put_uint width (n / 256)) (n % 256 ∷ []),
  length-put_uint width (n / 256),
)

uint_from-append :
    (acc b : ℕ) (bs : Bytes) → uint_from acc (bs ++ b ∷ []) ≡ uint_from acc bs * 256 + b
unfolding uint_from
uint_from-append acc b [] = refl
uint_from-append acc b (x ∷ bs) = uint_from-append (acc * 256 + x) b bs

pub uint_from-put_uint : (width n : ℕ) → n < powers width → uint_from 0 (put_uint width n) ≡ n
unfolding put_uint uint_from
uint_from-put_uint zero n h = omega arith
uint_from-put_uint (suc width) n h = omega (
  arith,
  uint_from-append 0 (n % 256) (put_uint width (n / 256)),
  uint_from-put_uint width (n / 256) (omega arith),
)

abbrev pub file_record_magic : Bytes
file_record_magic = codes "CFR1"

abbrev pub file_record_magic_v2 : Bytes
file_record_magic_v2 = codes "CFR2"

-- The header that set writes; the length of a key is cut to 32 bits.
unfoldable pub file_record_header : ℤ → Bytes → Bytes
unfolding put_uint
file_record_header expires_at key =
    file_record_magic_v2
    ++ (put_uint 8 (bits64 expires_at) ++ (put_uint 4 (length key % 4294967296) ++ key))

-- `unmarshal` is json.Unmarshal into a fileRecord.
unfoldable pub decode_file_record :
    (Bytes → Result (Bytes × ℤ × Bytes)) → Bytes → Result (Bytes × ℤ × Bytes)
unfolding uint_from
decode_file_record unmarshal body =
    let expires_at = signed64 (uint_from 0 (take 8 (drop 4 body))) in
    if leb 16 (length body) && equal (take 4 body) file_record_magic_v2
    then (let key_len = uint_from 0 (take 4 (drop 12 body)) in
        if ltb (length body - 16) key_len
        then err (text "invalid cache file record")
        else ok (take key_len (drop 16 body), expires_at, drop (16 + key_len) body))
    else if leb 12 (length body) && equal (take 4 body) file_record_magic
    then ok ([], expires_at, drop 12 body)
    else unmarshal body

pub take-part : (n : ℕ) (xs ys : Bytes) → length xs ≡ n → take n (xs ++ ys) ≡ xs
take-part n xs ys h = ap (λ (m : ℕ). take m (xs ++ ys)) (sym h) ∙ take-append xs ys

pub drop-part : (n : ℕ) (xs ys : Bytes) → length xs ≡ n → drop n (xs ++ ys) ≡ ys
drop-part n xs ys h = ap (λ (m : ℕ). drop m (xs ++ ys)) (sym h) ∙ drop-append xs ys

decode_second :
    (unmarshal : Bytes → Result (Bytes × ℤ × Bytes)) (body key expires : Bytes) (n : ℕ)
    (value : Bytes)
    → 16 ≤ length body
    → take 4 body ≡ file_record_magic_v2
    → take 8 (drop 4 body) ≡ expires
    → uint_from 0 (take 4 (drop 12 body)) ≡ n
    → take n (drop 16 body) ≡ key
    → drop (16 + n) body ≡ value
    → n ≤ length body - 16
    → decode_file_record unmarshal body ≡ ok (key, signed64 (uint_from 0 expires), value)
unfolding decode_file_record
decode_second unmarshal body key expires n value long magic e l k v fits =
    ground (arith, equal_refl file_record_magic_v2, magic, e, l, k, v)

-- The fields of a record of the second generation.
module _ (expires key_len key value : Bytes) (eight : length expires ≡ 8)
    (four : length key_len ≡ 4) where
  abbrev record_of : Bytes
  record_of = file_record_magic_v2 ++ (expires ++ (key_len ++ (key ++ value)))

  drop_16 : drop 16 record_of ≡ key ++ value
  drop_16 =
      drop-add 8 4 (expires ++ (key_len ++ (key ++ value)))
      ∙ ap (drop 4) (drop-part 8 expires (key_len ++ (key ++ value)) eight)
      ∙ drop-part 4 key_len (key ++ value) four

  drop_12 : drop 12 record_of ≡ key_len ++ (key ++ value)
  drop_12 = drop-part 8 expires (key_len ++ (key ++ value)) eight

  length-record_of : length record_of ≡ 16 + length key + length value
  length-record_of = omega (
    arith,
    eight,
    four,
    length-append expires (key_len ++ (key ++ value)),
    length-append key_len (key ++ value),
    length-append key value,
  )

  key_part : take (length key) (drop 16 record_of) ≡ key
  key_part = ap (take (length key)) drop_16 ∙ take-append key value

  value_part : drop (16 + length key) record_of ≡ value
  value_part =
      drop-add 16 (length key) record_of ∙ ap (drop (length key)) drop_16 ∙ drop-append key value

  key_len_part : take 4 (drop 12 record_of) ≡ key_len
  key_len_part = ap (take 4) drop_12 ∙ take-part 4 key_len (key ++ value) four

  expires_part : take 8 (drop 4 record_of) ≡ expires
  expires_part = take-part 8 expires (key_len ++ (key ++ value)) eight

  decode_fields :
      (unmarshal : Bytes → Result (Bytes × ℤ × Bytes))
      → uint_from 0 key_len ≡ length key
      → decode_file_record unmarshal record_of ≡ ok (key, signed64 (uint_from 0 expires), value)
  decode_fields unmarshal fits =
      decode_second unmarshal record_of key expires (length key) value
        (omega (arith, length-record_of)) refl expires_part (ap (uint_from 0) key_len_part ∙ fits)
        key_part value_part (omega (arith, length-record_of))

pub signed64-bits64 : (e : ℤ) → IsInt64 e → signed64 (bits64 e) ≡ e
unfolding wrap64
signed64-bits64 e h = wrap64_of_IsInt64 e h

header-append :
    (e : ℤ) (key value : Bytes)
    → file_record_header e key ++ value
      ≡ record_of
          (put_uint 8 (bits64 e))
          (put_uint 4 (length key % 4294967296))
          key
          value
          (length-put_uint 8 (bits64 e))
          (length-put_uint 4 (length key % 4294967296))
unfolding file_record_header
header-append e key value =
    let a = put_uint 8 (bits64 e) in
    let b = put_uint 4 (length key % 4294967296) in
    ap (λ (x : Bytes). file_record_magic_v2 ++ x)
      (append_assoc a (b ++ key) value ∙ ap (λ (x : Bytes). a ++ x) (append_assoc b key value))

-- A record that set writes reads back as the key, the end and the value that it was written for,
-- for a key of fewer than 2^32 bytes and an end that is an int64.
pub decode_file_record-file_record_header :
    (unmarshal : Bytes → Result (Bytes × ℤ × Bytes)) (e : ℤ) (key value : Bytes)
    → IsInt64 e
    → length key < 4294967296
    → decode_file_record unmarshal (file_record_header e key ++ value) ≡ ok (key, e, value)
decode_file_record-file_record_header unmarshal e key value in_range short =
    let a = put_uint 8 (bits64 e) in
    let b = put_uint 4 (length key % 4294967296) in
    ap (decode_file_record unmarshal) (header-append e key value)
    ∙ decode_fields a b key value (length-put_uint 8 (bits64 e))
        (length-put_uint 4 (length key % 4294967296)) unmarshal
        (uint_from-put_uint 4 (length key % 4294967296) (omega arith) ∙ omega arith)
    ∙ ap (λ (x : ℤ). ok (key, x, value))
        (ap signed64 (uint_from-put_uint 8 (bits64 e) (omega arith)) ∙ signed64-bits64 e in_range)
