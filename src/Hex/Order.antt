-- ===== src/Hex/Order.antt =====
-- The order of decoded identifiers against that of their strings: the source sorts by the decoded
-- key.
use aethos_linux.Base.{
  ℕ, ◌/◌, ◌%◌, ◌<◌, ◌≡◌, refl, true, false, [], ◌∷◌, arith, inl, inr, ◌⊎◌, ap, dec_lt,
}
use aethos_linux.Base.Text.{Text, text_lt, text_lt_asym}
use aethos_linux.Hex.{hex_digit, bytes_to_hex_lower, AreBytes}
use aethos_linux.Hex.Digits.{hex_digit_mono}

pair_lt-eq :
    (b c : ℕ) (xs ys : Text)
    → b ≡ c
    → text_lt
        (hex_digit (b / 16) ∷ hex_digit (b % 16) ∷ xs)
        (hex_digit (c / 16) ∷ hex_digit (c % 16) ∷ ys)
      ≡ text_lt xs ys
unfolding text_lt
pair_lt-eq b c xs ys e = ground arith

pair_lt-lt :
    (b c : ℕ) (xs ys : Text)
    → c < 256
    → b < c
    → text_lt
        (hex_digit (b / 16) ∷ hex_digit (b % 16) ∷ xs)
        (hex_digit (c / 16) ∷ hex_digit (c % 16) ∷ ys)
      ≡ true
unfolding text_lt
pair_lt-lt b c xs ys h lt = elim (dec_lt (b / 16) (c / 16)) [
  | yes p ↦ ground (arith, hex_digit_mono (b / 16) (c / 16) (omega arith) p)
  | no p ↦
      let same : b / 16 ≡ c / 16 = omega arith in
      ground
        (arith, ap hex_digit same, hex_digit_mono (b % 16) (c % 16) (omega arith) (omega arith))
]

pair_lt-gt :
    (b c : ℕ) (xs ys : Text)
    → b < 256
    → c < b
    → text_lt
        (hex_digit (b / 16) ∷ hex_digit (b % 16) ∷ xs)
        (hex_digit (c / 16) ∷ hex_digit (c % 16) ∷ ys)
      ≡ false
pair_lt-gt b c xs ys h lt = text_lt_asym _ _ (pair_lt-lt c b ys xs h lt)

ordered : (b c : ℕ) → (b < c) ⊎ ((b ≡ c) ⊎ (c < b))
ordered b c = omega arith

-- Printing keeps the lexicographic order of bytes.
pub text_lt-bytes_to_hex_lower :
    (bs cs : Text)
    → AreBytes bs
    → AreBytes cs
    → text_lt (bytes_to_hex_lower bs) (bytes_to_hex_lower cs) ≡ text_lt bs cs
unfolding text_lt bytes_to_hex_lower
text_lt-bytes_to_hex_lower [] [] h k = refl
text_lt-bytes_to_hex_lower [] (c ∷ cs) h k = refl
text_lt-bytes_to_hex_lower (b ∷ bs) [] h k = refl
text_lt-bytes_to_hex_lower (b ∷ bs) (c ∷ cs) h k = elim (ordered b c) [
  | inl lt ↦ rw (pair_lt-lt b c _ _ k.0 lt) (ground arith)
  | inr (inl e) ↦ rw (pair_lt-eq b c _ _ e, text_lt-bytes_to_hex_lower bs cs h.1 k.1) (ground arith)
  | inr (inr gt) ↦ rw (pair_lt-gt b c _ _ h.0 gt) (ground arith)
]
