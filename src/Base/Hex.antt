-- ===== src/Base/Hex.antt =====
-- encoding/hex: `EncodeToString` writes lower case, `DecodeString` reads both cases.
use alibaba_ati_golang_sdk.Base.{
  ℕ, ◌+◌, ◌-◌, ◌*◌, ◌/◌, ◌%◌, ◌<◌, ◌≡◌, refl, ◌&&◌, [], ◌∷◌, Option, none, some, arith, Bytes, ltb,
  leb, All, if◌then◌else◌,
}

unfoldable pub hex_digit : ℕ → ℕ
hex_digit n = if ltb n 10 then b'0' + n else b'a' + (n - 10)

unfoldable pub hex_value : ℕ → Option ℕ
hex_value c =
    if leb b'0' c && leb c b'9'
    then some (c - b'0')
    else if leb b'a' c && leb c b'f'
    then some (c - b'a' + 10)
    else if leb b'A' c && leb c b'F'
    then some (c - b'A' + 10)
    else none

-- hex.EncodeToString
unfoldable pub encode : Bytes → Bytes
unfolding hex_digit
encode [] = []
encode (b ∷ bs) = hex_digit (b / 16) ∷ hex_digit (b % 16) ∷ encode bs

abbrev join_byte : Option ℕ → Option ℕ → Option Bytes → Option Bytes
join_byte (some h) (some l) (some bs) = some ((16 * h + l) ∷ bs)
join_byte (some h) (some l) none = none
join_byte (some h) none r = none
join_byte none l r = none

-- hex.DecodeString: none is its error, for a digit that is none or an odd length.
unfoldable pub decode : Bytes → Option Bytes
unfolding hex_value
decode [] = some []
decode (h ∷ []) = none
decode (h ∷ l ∷ r) = join_byte (hex_value h) (hex_value l) (decode r)

abbrev pub IsByte : ℕ → Type 0
IsByte b = b < 256

pub hex_value-hex_digit : (n : ℕ) → n < 16 → hex_value (hex_digit n) ≡ some n
unfolding hex_value hex_digit
hex_value-hex_digit n h = ground arith

-- What was encoded is decoded.
pub decode-encode : (bs : Bytes) → All IsByte bs → decode (encode bs) ≡ some bs
unfolding decode encode
decode-encode [] h = refl
decode-encode (b ∷ bs) (h, hs) =
    let e : 16 * (b / 16) + b % 16 ≡ b = omega arith in
    rw (
      hex_value-hex_digit (b / 16) (omega arith),
      hex_value-hex_digit (b % 16) (omega arith),
      decode-encode bs hs,
      e,
    )
