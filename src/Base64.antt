-- ===== src/Base64.antt =====
-- encoding/base64 without padding, over the alphabet for URLs (base64.RawURLEncoding), as the NATS
-- driver uses it to put cache keys into subjects.
use cache.Prelude.{
  ℕ, ◌+◌, ◌-◌, ◌*◌, ◌/◌, ◌%◌, ◌<◌, ◌≡◌, refl, ap, All, false, ◌&&◌, ◌||◌, Option, none, some, List,
  [], ◌∷◌, map, arith, Bytes, ltb, leb, ◌==◌, if◌then◌else◌,
}

-- The letter of six bits, and back.
unfoldable pub letter : ℕ → ℕ
letter n =
    if ltb n 26
    then 65 + n
    else if ltb n 52
    then 71 + n
    else if ltb n 62
    then n - 4
    else if n == 62
    then b'-'
    else b'_'

unfoldable pub sextet : ℕ → Option ℕ
sextet c =
    if leb 65 c && leb c 90
    then some (c - 65)
    else if leb 97 c && leb c 122
    then some (c - 71)
    else if leb 48 c && leb c 57
    then some (c + 4)
    else if c == b'-'
    then some 62
    else if c == b'_'
    then some 63
    else none

-- Three bytes are four groups of six bits; the last group is filled with zeros.
unfoldable pub sextets : Bytes → List ℕ
sextets [] = []
sextets (a ∷ []) = (a / 4) ∷ (a % 4 * 16) ∷ []
sextets (a ∷ b ∷ []) = (a / 4) ∷ (a % 4 * 16 + b / 16) ∷ (b % 16 * 4) ∷ []
sextets (a ∷ b ∷ c ∷ s) =
    (a / 4) ∷ (a % 4 * 16 + b / 16) ∷ (b % 16 * 4 + c / 64) ∷ (c % 64) ∷ sextets s

-- A single group is left over from no text. The bits past the last byte are not looked at.
unfoldable pub packed : List ℕ → Option Bytes
packed [] = some []
packed (p ∷ []) = none
packed (p ∷ q ∷ []) = some ((p * 4 + q / 16) ∷ [])
packed (p ∷ q ∷ r ∷ []) = some ((p * 4 + q / 16) ∷ (q % 16 * 16 + r / 4) ∷ [])
packed (p ∷ q ∷ r ∷ s ∷ rest) = elim (packed rest) [
  | none ↦ none
  | some bs ↦ some ((p * 4 + q / 16) ∷ (q % 16 * 16 + r / 4) ∷ (r % 4 * 64 + s) ∷ bs)
]

-- Line breaks between the letters are skipped.
unfoldable pub letters : Bytes → Option (List ℕ)
unfolding sextet
letters [] = some []
letters (c ∷ s) =
    let rest = letters s in
    if c == 10 || c == 13 then rest else elim (sextet c) [
      | none ↦ none
      | some n ↦ elim rest [ none ↦ none | some ns ↦ some (n ∷ ns) ]
    ]

-- EncodeToString and DecodeString.
unfoldable pub encode : Bytes → Bytes
unfolding letter sextets
encode s = map letter (sextets s)

unfoldable pub decode : Bytes → Option Bytes
unfolding letters packed
decode s = elim (letters s) [ none ↦ none | some ns ↦ packed ns ]

abbrev pub IsByte : ℕ → Type 0
IsByte n = n < 256

abbrev IsSextet : ℕ → Type 0
IsSextet n = n < 64

sextet-letter : (n : ℕ) → n < 64 → sextet (letter n) ≡ some n
unfolding sextet letter
sextet-letter n h = ground arith

letter-ne_break : (n : ℕ) → n < 64 → (letter n == 10 || letter n == 13) ≡ false
unfolding letter
letter-ne_break n h = ground arith

sextets-All : (s : Bytes) → All IsByte s → All IsSextet (sextets s)
unfolding sextets
sextets-All [] h = tt
sextets-All (a ∷ []) h = (omega (arith, h.0), (omega (arith, h.0), tt))
sextets-All (a ∷ b ∷ []) h =
    (omega (arith, h.0), (omega (arith, h.0, h.1.0), (omega (arith, h.1.0), tt)))
sextets-All (a ∷ b ∷ c ∷ s) h = (
  omega (arith, h.0),
  (
    omega (arith, h.0, h.1.0),
    (omega (arith, h.1.0, h.1.1.0), (omega (arith, h.1.1.0), sextets-All s h.1.1.1)),
  ),
)

letters-map : (ns : List ℕ) → All IsSextet ns → letters (map letter ns) ≡ some ns
unfolding letters
letters-map [] h = refl
letters-map (n ∷ ns) h = rw (letter-ne_break n h.0, sextet-letter n h.0, letters-map ns h.1) refl

packed-sextets : (s : Bytes) → All IsByte s → packed (sextets s) ≡ some s
unfolding packed sextets
packed-sextets [] h = refl
packed-sextets (a ∷ []) h = ap (λ (x : ℕ). some (x ∷ [])) (omega (arith, h.0))
packed-sextets (a ∷ b ∷ []) h = ground (arith, h.0, h.1.0)
packed-sextets (a ∷ b ∷ c ∷ s) h = ground (arith, packed-sextets s h.1.1.1, h.0, h.1.0, h.1.1.0)

-- What is encoded decodes to itself.
pub decode-encode : (s : Bytes) → All IsByte s → decode (encode s) ≡ some s
unfolding decode encode
decode-encode s h = rw (letters-map (sextets s) (sextets-All s h), decode) (packed-sextets s h)
