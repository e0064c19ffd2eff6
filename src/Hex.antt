-- ===== src/Hex.antt =====
-- Identifiers in lower-case hexadecimal: src/aethos_core/protocol.rs (`is_valid_wayfarer_id`,
-- `bytes_to_hex_lower`, `parse_wayfarer_id_hex`), src/aethos_core/gossip_sync.rs
-- (`is_valid_item_id`, `decode_item_id`). A string is its bytes, and a byte is a number below 256.
pub mod Digits
pub mod RoundTrip
pub mod Order
mod Examples
use aethos_linux.Base.{
  ℕ, zero, suc, ◌+◌, ◌-◌, ◌*◌, ◌/◌, ◌%◌, ◌<◌, Bool, true, false, not, ◌&&◌, ◌||◌, List, [], ◌∷◌,
  Option, none, some, leb, ◌==◌, if◌then◌else◌, length, get_elem?, All,
}
use aethos_linux.Base.Text.{Text, codes, message}
use aethos_linux.Base.Result.{Result, ok, err, ◌>>=◌, ◌>>◌, refuse_if}

-- `u8::is_ascii_digit`, `is_ascii_hexdigit` and `is_ascii_uppercase`.
unfoldable pub is_ascii_digit : ℕ → Bool
is_ascii_digit byte = leb b'0' byte && leb byte b'9'

unfoldable pub is_ascii_hexdigit : ℕ → Bool
unfolding is_ascii_digit
is_ascii_hexdigit byte =
    is_ascii_digit byte || (leb b'a' byte && leb byte b'f') || (leb b'A' byte && leb byte b'F')

unfoldable pub is_ascii_uppercase : ℕ → Bool
is_ascii_uppercase byte = leb b'A' byte && leb byte b'Z'

-- `bytes().all(p)`
unfoldable pub all_bytes : (ℕ → Bool) → Text → Bool
all_bytes p [] = true
all_bytes p (byte ∷ bytes) = p byte && all_bytes p bytes

unfoldable pub is_valid_wayfarer_id : Text → Bool
unfolding all_bytes is_ascii_hexdigit is_ascii_uppercase
is_valid_wayfarer_id value =
    length value == 64
    && all_bytes (λ byte. is_ascii_hexdigit byte && not (is_ascii_uppercase byte)) value

unfoldable pub is_valid_item_id : Text → Bool
unfolding all_bytes is_ascii_hexdigit is_ascii_uppercase
is_valid_item_id value =
    length value == 64
    && all_bytes (λ byte. is_ascii_hexdigit byte && not (is_ascii_uppercase byte)) value

-- `HEX[index] as char`; no index of a byte's half reaches past the sixteen digits.
unfoldable pub hex_digit : ℕ → ℕ
hex_digit index = elim (get_elem? (codes "0123456789abcdef") index) [ none ↦ 0 | some c ↦ c ]

unfoldable pub bytes_to_hex_lower : Text → Text
unfolding hex_digit
bytes_to_hex_lower [] = []
bytes_to_hex_lower (byte ∷ input) =
    hex_digit (byte / 16) ∷ hex_digit (byte % 16) ∷ bytes_to_hex_lower input

-- The value of one digit in base 16.
unfoldable pub digit_value : ℕ → Option ℕ
unfolding is_ascii_digit
digit_value c =
    if is_ascii_digit c
    then some (c - b'0')
    else if leb b'a' c && leb c b'f'
    then some (c - b'a' + 10)
    else if leb b'A' c && leb c b'F'
    then some (c - b'A' + 10)
    else none

-- `u8::from_str_radix(pair, 16)` of two bytes: a leading plus sign is allowed.
unfoldable pub from_str_radix : ℕ → ℕ → Option ℕ
unfolding digit_value
from_str_radix high low = if high == b'+' then digit_value low else elim (digit_value high) [
  | none ↦ none
  | some h ↦ elim (digit_value low) [ none ↦ none | some l ↦ some (h * 16 + l) ]
]

-- The loop over the slices `[i..i + 2]`: a slice past the end is a panic, which the checked length
-- of 64 bytes rules out.
decode_pairs : Text → Text → Result Text Text
unfolding from_str_radix
decode_pairs failed [] = ok []
decode_pairs failed (_ ∷ []) = err failed
decode_pairs failed (high ∷ low ∷ rest) = elim (from_str_radix high low) [
  | none ↦ err failed
  | some byte ↦ do out ← decode_pairs failed rest; ok (byte ∷ out)
]

unfoldable pub decode_item_id : Text → Result Text Text
unfolding is_valid_item_id decode_pairs
decode_item_id item_id = do
  refuse_if (not (is_valid_item_id item_id)) (message "invalid item_id format")
  decode_pairs (message "invalid item_id hex") item_id

unfoldable pub parse_wayfarer_id_hex : Text → Result Text Text
unfolding is_valid_wayfarer_id decode_pairs
parse_wayfarer_id_hex hex_lower = do
  refuse_if (not (is_valid_wayfarer_id hex_lower))
      (message "invalid wayfarer_id; expected 64 lowercase hex chars")
  decode_pairs (message "failed to parse wayfarer_id hex byte") hex_lower

-- A `Vec<u8>`, and an array of 32 bytes.
abbrev pub AreBytes : Text → Type 0
AreBytes = All (λ byte. byte < 256)
