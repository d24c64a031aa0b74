-- ===== src/Udp/Payload/Hex.antt =====
-- udp/payload.go: the hexadecimal text of an ID. `hex.DecodeString` returns a slice whose capacity is
-- its length, so `buf[0:8]` panics on a text of fewer than eight bytes.
use Prim.Native.Char.{Char, code}
use close.Prelude.{
  All, Bool, List, Option, Result, String, [], all_below, all_below_sound, ap, arith, err, false,
  if◌then◌else◌, leb, length, ltb, none, ok, refl, some, suc, take, true, zero, ℕ, ◌%◌, ◌&&◌, ◌*◌,
  ◌+◌, ◌-◌, ◌/◌, ◌<◌, ◌==◌, ◌∷◌, ◌≡◌,
}

pub data IdError : Type 0 where
  bad_hex : IdError
  slice_panic : IdError

-- the digits of package encoding/hex
abbrev hex_digit : ℕ → Char
hex_digit n =
    if n == 0
    then "0"
    else if n == 1
    then "1"
    else if n == 2
    then "2"
    else if n == 3
    then "3"
    else if n == 4
    then "4"
    else if n == 5
    then "5"
    else if n == 6
    then "6"
    else if n == 7
    then "7"
    else if n == 8
    then "8"
    else if n == 9
    then "9"
    else if n == 10
    then "a"
    else if n == 11
    then "b"
    else if n == 12
    then "c"
    else if n == 13
    then "d"
    else if n == 14
    then "e"
    else "f"

-- `fromHexChar`
from_hex : ℕ → Option ℕ
from_hex c =
    if leb b'0' c && leb c b'9'
    then some (c - b'0')
    else if leb b'a' c && leb c b'f'
    then some (c - b'a' + 10)
    else if leb b'A' c && leb c b'F'
    then some (c - b'A' + 10)
    else none

-- `ID.String`
unfoldable pub id_string : List ℕ → String
id_string [] = String.[]
id_string (b ∷ bs) =
    String.◌∷◌ (hex_digit (b / 16)) (String.◌∷◌ (hex_digit (b % 16)) (id_string bs))

pair : Option ℕ → Option ℕ → Option (List ℕ) → Option (List ℕ)
pair (some hi) (some lo) (some bs) = some ((hi * 16 + lo) ∷ bs)
pair _ _ _ = none

-- `hex.DecodeString`: an odd number of characters is an error
decode_string : String → Option (List ℕ)
unfolding from_hex pair
decode_string String.[] = some []
decode_string (String.◌∷◌ c String.[]) = none
decode_string (String.◌∷◌ c (String.◌∷◌ d s)) =
    pair (from_hex (code c)) (from_hex (code d)) (decode_string s)

first_eight : Option (List ℕ) → Result IdError (List ℕ)
first_eight none = err bad_hex
first_eight (some buf) = if ltb (length buf) 8 then err slice_panic else ok (take 8 buf)

unfoldable pub parse_id : String → Result IdError (List ℕ)
unfolding decode_string first_eight
parse_id s = first_eight (decode_string s)

reads_back : ℕ → Bool
unfolding from_hex
reads_back n = elim (from_hex (code (hex_digit n))) [ none ↦ false | some m ↦ m == n ]

reads_back_table : all_below 16 reads_back ≡ true
unfolding reads_back all_below
reads_back_table = refl

from_hex-reads_back :
    (o : Option ℕ) (n : ℕ) → elim o [ none ↦ false | some m ↦ m == n ] ≡ true → o ≡ some n
from_hex-reads_back none n h = cc
from_hex-reads_back (some m) n h = ground arith

from_hex-hex_digit : (n : ℕ) → n < 16 → from_hex (code (hex_digit n)) ≡ some n
unfolding reads_back
from_hex-hex_digit n h =
    from_hex-reads_back (from_hex (code (hex_digit n))) n
      (all_below_sound 16 reads_back n reads_back_table h)

decode-id_string : (bs : List ℕ) → All (λ b. b < 256) bs → decode_string (id_string bs) ≡ some bs
unfolding decode_string id_string
decode-id_string [] h = refl
decode-id_string (b ∷ bs) h =
    rw
      (
        from_hex-hex_digit (b / 16) (omega arith),
        from_hex-hex_digit (b % 16) (omega arith),
        decode-id_string bs h.1,
      )
      (ap (λ x. some (x ∷ bs)) (omega arith))

take_all : (n : ℕ) (bs : List ℕ) → length bs ≡ n → take n bs ≡ bs
take_all zero [] h = refl
take_all zero (b ∷ bs) h = absurd (omega arith)
take_all (suc n) [] h = refl
take_all (suc n) (b ∷ bs) h = ap (λ t. b ∷ t) (take_all n bs (omega arith))

-- An ID of eight bytes is read back from its text.
pub parse_id-id_string :
    (id : List ℕ) → length id ≡ 8 → All (λ b. b < 256) id → parse_id (id_string id) ≡ ok id
unfolding parse_id
parse_id-id_string id h bytes = rw (decode-id_string id bytes) (ground (arith, take_all 8 id h))
