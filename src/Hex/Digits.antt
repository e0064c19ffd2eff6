-- ===== src/Hex/Digits.antt =====
-- The sixteen digits: the tables of `bytes_to_hex_lower` and `from_str_radix` fit together.
use aethos_linux.Base.{
  ℕ, zero, suc, ◌+◌, ◌*◌, ◌/◌, ◌%◌, ◌<◌, ◌≡◌, refl, Bool, true, false, not, ◌&&◌, ◌||◌, Option,
  none, some, arith, ltb, ◌==◌,
}
use aethos_linux.Hex.{
  is_ascii_hexdigit, is_ascii_uppercase, is_ascii_digit, hex_digit, digit_value, from_str_radix,
}

-- A test on each number below a bound, by evaluation.
passes_below : (ℕ → Bool) → ℕ → Bool
passes_below test zero = true
passes_below test (suc bound) = passes_below test bound && test bound

passes_below_at :
    (test : ℕ → Bool) (bound value : ℕ)
    → value < bound
    → passes_below test bound ≡ true
    → test value ≡ true
unfolding passes_below
passes_below_at test zero value below passed = absurd (omega arith)
passes_below_at test (suc bound) value below passed =
    ground (arith, passes_below_at test bound value)

-- Every digit that an identifier may hold has a value below 16 and is the digit of that value.
unfoldable pub is_lower_hex : ℕ → Bool
is_lower_hex byte = is_ascii_hexdigit byte && not (is_ascii_uppercase byte)

digit_works : ℕ → Bool
digit_works c = not (is_lower_hex c) || elim (digit_value c) [
  | none ↦ false
  | some v ↦ ltb v 16 && hex_digit v == c && not (c == b'+')
]

digits_table : passes_below digit_works 256 ≡ true
unfolding passes_below digit_works is_lower_hex is_ascii_hexdigit is_ascii_uppercase digit_value
    hex_digit
digits_table = refl

value_works : ℕ → Bool
value_works v =
    is_lower_hex (hex_digit v)
    && not (hex_digit v == b'+')
    && elim (digit_value (hex_digit v)) [ none ↦ false | some w ↦ w == v ]

values_table : passes_below value_works 16 ≡ true
unfolding passes_below value_works is_lower_hex is_ascii_hexdigit is_ascii_uppercase digit_value
    hex_digit
values_table = refl

is_lower_hex-lt : (c : ℕ) → is_lower_hex c ≡ true → c < 256
unfolding is_lower_hex is_ascii_hexdigit is_ascii_digit is_ascii_uppercase
is_lower_hex-lt c h = ground arith

lower_digit_at :
    (c : ℕ) (o : Option ℕ)
    → digit_value c ≡ o
    → is_lower_hex c ≡ true
    → digit_works c ≡ true
    → (v : ℕ) × (digit_value c ≡ some v) × (v < 16) × (hex_digit v ≡ c) × ((c == b'+') ≡ false)
unfolding digit_works
lower_digit_at c none e h w = absurd (ground arith)
lower_digit_at c (some v) e h w = (v, e, ground arith, ground arith, ground arith)

lower_digit :
    (c : ℕ)
    → is_lower_hex c ≡ true
    → (v : ℕ) × (digit_value c ≡ some v) × (v < 16) × (hex_digit v ≡ c) × ((c == b'+') ≡ false)
lower_digit c h =
    lower_digit_at c (digit_value c) refl h
      (passes_below_at digit_works 256 c (is_lower_hex-lt c h) digits_table)

pub value_digit :
    (v : ℕ)
    → v < 16
    → (is_lower_hex (hex_digit v) ≡ true)
      × ((hex_digit v == b'+') ≡ false)
      × (digit_value (hex_digit v) ≡ some v)
unfolding value_works
value_digit v h = ground (arith, passes_below_at value_works 16 v h values_table)

pub pair_decodes :
    (c d : ℕ)
    → is_lower_hex c ≡ true
    → is_lower_hex d ≡ true
    → (b : ℕ) × (from_str_radix c d ≡ some b)
      × (b < 256)
      × (hex_digit (b / 16) ≡ c)
      × (hex_digit (b % 16) ≡ d)
unfolding from_str_radix
pair_decodes c d hc hd =
    let (v, ev, lv, cv, nv) = lower_digit c hc in
    let (w, ew, lw, dw, nw) = lower_digit d hd in
    let high : (v * 16 + w) / 16 ≡ v = omega arith in
    let low : (v * 16 + w) % 16 ≡ w = omega arith in
    (v * 16 + w, ground arith, omega arith, rw high cv, rw low dw)

pub byte_decodes :
    (b : ℕ) → b < 256 → from_str_radix (hex_digit (b / 16)) (hex_digit (b % 16)) ≡ some b
unfolding from_str_radix
byte_decodes b h = ground (arith, value_digit (b / 16), value_digit (b % 16))

is_in_order : ℕ → ℕ → Bool
is_in_order v w = not (ltb v w) || ltb (hex_digit v) (hex_digit w)

digits_ordered : passes_below (λ v. passes_below (is_in_order v) 16) 16 ≡ true
unfolding passes_below is_in_order hex_digit
digits_ordered = refl

pub hex_digit_mono : (v w : ℕ) → w < 16 → v < w → hex_digit v < hex_digit w
unfolding is_in_order
hex_digit_mono v w h lt =
    let row =
      passes_below_at (λ v. passes_below (is_in_order v) 16) 16 v (omega arith) digits_ordered in
    ground (arith, passes_below_at (is_in_order v) 16 w h row)
