-- ===== src/Hex/Examples.antt =====
-- Runs on identifiers.
use aethos_linux.Base.{arith, ◌≡◌, refl, [], ◌∷◌, replicate, true, length}
use aethos_linux.Base.Text.{Text, text_lt}
use aethos_linux.Base.Result.{ok}
use aethos_linux.Hex.{bytes_to_hex_lower, decode_item_id, is_valid_item_id, AreBytes, all_bytes}
use aethos_linux.Hex.RoundTrip.{decode_item_id-bytes_to_hex_lower, decode_item_id-Decoded}
use aethos_linux.Hex.Order.{text_lt-bytes_to_hex_lower}

abbrev bytes : Text
bytes = replicate 32 171

abbrev item_id : Text
item_id = replicate 64 97

valid : is_valid_item_id item_id ≡ true
unfolding is_valid_item_id all_bytes
valid = refl

decode_item_id-bytes_to_hex_lower_example : decode_item_id (bytes_to_hex_lower bytes) ≡ ok bytes
decode_item_id-bytes_to_hex_lower_example =
    decode_item_id-bytes_to_hex_lower bytes refl (omega arith)

decode_item_id-Decoded_example :
    (bs : Text) × (decode_item_id item_id ≡ ok bs)
    × (length bs ≡ 32)
    × AreBytes bs
    × (bytes_to_hex_lower bs ≡ item_id)
decode_item_id-Decoded_example = decode_item_id-Decoded item_id valid

text_lt-bytes_to_hex_lower_example :
    text_lt (bytes_to_hex_lower (10 ∷ 171 ∷ [])) (bytes_to_hex_lower (10 ∷ 172 ∷ []))
    ≡ text_lt (10 ∷ 171 ∷ []) (10 ∷ 172 ∷ [])
text_lt-bytes_to_hex_lower_example =
    text_lt-bytes_to_hex_lower (10 ∷ 171 ∷ []) (10 ∷ 172 ∷ []) (omega arith) (omega arith)
