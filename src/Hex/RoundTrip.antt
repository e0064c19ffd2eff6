-- ===== src/Hex/RoundTrip.antt =====
-- Decoding against printing of identifiers.
use aethos_linux.Base.{
  ℕ, ◌*◌, ◌/◌, ◌%◌, ◌≡◌, refl, Bool, true, not, ◌&&◌, [], ◌∷◌, some, arith, ◌==◌, length,
  &&-eq-true, ==_iff,
}
use aethos_linux.Base.Text.{Text, message}
use aethos_linux.Base.Result.{Result, ok}
use aethos_linux.Hex.{
  is_ascii_hexdigit, is_ascii_uppercase, all_bytes, is_valid_item_id, hex_digit, bytes_to_hex_lower,
  from_str_radix, decode_pairs, decode_item_id, parse_wayfarer_id_hex, is_valid_wayfarer_id,
  AreBytes,
}
use aethos_linux.Hex.Digits.{is_lower_hex, value_digit, pair_decodes, byte_decodes}

abbrev are_lower_hex : Text → Bool
are_lower_hex = all_bytes (λ byte. is_ascii_hexdigit byte && not (is_ascii_uppercase byte))

bytes_to_hex_lower-lower : (bs : Text) → AreBytes bs → are_lower_hex (bytes_to_hex_lower bs) ≡ true
unfolding bytes_to_hex_lower all_bytes is_lower_hex
bytes_to_hex_lower-lower [] h = refl
bytes_to_hex_lower-lower (b ∷ bs) h =
    ground (arith, value_digit (b / 16), value_digit (b % 16), bytes_to_hex_lower-lower bs h.1)

pub length-bytes_to_hex_lower : (bs : Text) → length (bytes_to_hex_lower bs) ≡ length bs * 2
unfolding bytes_to_hex_lower
length-bytes_to_hex_lower [] = refl
length-bytes_to_hex_lower (b ∷ bs) = omega (arith, length-bytes_to_hex_lower bs)

decode_pairs-cons :
    (failed : Text) (high low : ℕ) {b : ℕ} (rest bs : Text)
    → from_str_radix high low ≡ some b
    → decode_pairs failed rest ≡ ok bs
    → decode_pairs failed (high ∷ low ∷ rest) ≡ ok (b ∷ bs)
unfolding decode_pairs
decode_pairs-cons failed high low rest bs e f = rw (e, decode_pairs) (rw f)

decode_pairs-bytes_to_hex_lower :
    (failed bs : Text) → AreBytes bs → decode_pairs failed (bytes_to_hex_lower bs) ≡ ok bs
unfolding bytes_to_hex_lower decode_pairs
decode_pairs-bytes_to_hex_lower failed [] h = refl
decode_pairs-bytes_to_hex_lower failed (b ∷ bs) h =
    decode_pairs-cons failed (hex_digit (b / 16)) (hex_digit (b % 16)) (bytes_to_hex_lower bs) bs
      (byte_decodes b h.0) (decode_pairs-bytes_to_hex_lower failed bs h.1)

-- The printed form of 32 bytes is a valid identifier.
pub bytes_to_hex_lower-valid :
    (bs : Text) → length bs ≡ 32 → AreBytes bs → is_valid_item_id (bytes_to_hex_lower bs) ≡ true
unfolding is_valid_item_id
bytes_to_hex_lower-valid bs n h =
    ground (arith, length-bytes_to_hex_lower bs, bytes_to_hex_lower-lower bs h)

-- Decoding the printed form of 32 bytes gives them back.
pub decode_item_id-bytes_to_hex_lower :
    (bs : Text) → length bs ≡ 32 → AreBytes bs → decode_item_id (bytes_to_hex_lower bs) ≡ ok bs
unfolding decode_item_id
decode_item_id-bytes_to_hex_lower bs n h =
    rw (bytes_to_hex_lower-valid bs n h) (decode_pairs-bytes_to_hex_lower _ bs h)

pub parse_wayfarer_id_hex-bytes_to_hex_lower :
    (bs : Text)
    → length bs ≡ 32
    → AreBytes bs
    → parse_wayfarer_id_hex (bytes_to_hex_lower bs) ≡ ok bs
unfolding parse_wayfarer_id_hex is_valid_wayfarer_id
parse_wayfarer_id_hex-bytes_to_hex_lower bs n h =
    rw (bytes_to_hex_lower-valid_wayfarer bs n h) (decode_pairs-bytes_to_hex_lower _ bs h)
  where
    bytes_to_hex_lower-valid_wayfarer :
        (bs : Text)
        → length bs ≡ 32
        → AreBytes bs
        → is_valid_wayfarer_id (bytes_to_hex_lower bs) ≡ true
    bytes_to_hex_lower-valid_wayfarer bs n h =
        ground (arith, length-bytes_to_hex_lower bs, bytes_to_hex_lower-lower bs h)

-- The bytes that a text in lower-case hexadecimal stands for.
abbrev Decoded : Result Text Text → Text → Type 0
Decoded r text =
    (bs : Text) × (r ≡ ok bs)
    × (length bs * 2 ≡ length text)
    × AreBytes bs
    × (bytes_to_hex_lower bs ≡ text)

Decoded-cons :
    (failed : Text) (c d : ℕ) (rest : Text)
    → is_lower_hex c ≡ true
    → is_lower_hex d ≡ true
    → Decoded (decode_pairs failed rest) rest
    → Decoded (decode_pairs failed (c ∷ d ∷ rest)) (c ∷ d ∷ rest)
unfolding bytes_to_hex_lower
Decoded-cons failed c d rest hc hd (bs, er, n, are, back) =
    let (b, e, lt, high, low) = pair_decodes c d hc hd in
    (
      b ∷ bs,
      decode_pairs-cons failed c d rest bs e er,
      omega arith,
      (lt, are),
      cc (high, low, back),
    )

are_lower_hex-cons :
    (c : ℕ) (rest : Text)
    → are_lower_hex (c ∷ rest) ≡ true
    → (is_lower_hex c ≡ true) × (are_lower_hex rest ≡ true)
unfolding all_bytes is_lower_hex
are_lower_hex-cons c rest h = &&-eq-true _ _ h

decode_pairs-Decoded :
    (failed text : Text)
    → are_lower_hex text ≡ true
    → length text % 2 ≡ 0
    → Decoded (decode_pairs failed text) text
unfolding decode_pairs bytes_to_hex_lower
decode_pairs-Decoded failed [] h even = ([], refl, refl, tt, refl)
decode_pairs-Decoded failed (c ∷ []) h even = absurd (omega arith)
decode_pairs-Decoded failed (c ∷ d ∷ rest) h even =
    let (hc, h') = are_lower_hex-cons c (d ∷ rest) h in
    let (hd, hrest) = are_lower_hex-cons d rest h' in
    Decoded-cons failed c d rest hc hd (decode_pairs-Decoded failed rest hrest (omega arith))

-- A valid identifier decodes to 32 bytes, which print as that identifier.
pub decode_item_id-Decoded :
    (item_id : Text)
    → is_valid_item_id item_id ≡ true
    → (bs : Text) × (decode_item_id item_id ≡ ok bs)
      × (length bs ≡ 32)
      × AreBytes bs
      × (bytes_to_hex_lower bs ≡ item_id)
unfolding decode_item_id is_valid_item_id
decode_item_id-Decoded item_id valid =
    let (n, lower) = &&-eq-true (length item_id == 64) (are_lower_hex item_id) valid in
    let size : length item_id ≡ 64 = (==_iff (length item_id) 64).0 n in
    let (bs, e, m, are, back) =
      decode_pairs-Decoded (message "invalid item_id hex") item_id lower (omega arith) in
    (bs, rw (n, lower) e, omega arith, are, back)
