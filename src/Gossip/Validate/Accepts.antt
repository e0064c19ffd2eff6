-- ===== src/Gossip/Validate/Accepts.antt =====
-- Ascending identifiers and `validate_sorted_unique_item_ids`.
use aethos_linux.Base.{
  ◌≡◌, refl, sym, ap, ◌∙◌, subst, true, false, inl, inr, List, [], ◌∷◌, Option, none, some, All,
  Bool-cases,
}
use aethos_linux.Base.Text.{
  Text, contains, text_eq, text_eq_iff, text_lt, text_lt_irrefl, text_lt_asym,
}
use aethos_linux.Base.Dedup.{IsAscending}
use aethos_linux.Base.Result.{ok, err}
use aethos_linux.Hex.{is_valid_item_id, decode_item_id, bytes_to_hex_lower}
use aethos_linux.Hex.RoundTrip.{decode_item_id-Decoded}
use aethos_linux.Hex.Order.{text_lt-bytes_to_hex_lower}
use aethos_linux.Gossip.Validate.{
  unique_from, validate_unique_item_ids, is_below, sorted_from, validate_sorted_unique_item_ids,
}

-- `decode_item_id(item_id).unwrap_or_default()`
unfoldable pub decoded_key : Text → Text
decoded_key item_id = elim (decode_item_id item_id) [ ok bytes ↦ bytes | err e ↦ [] ]

abbrev pub IsValid : Text → Type 0
IsValid item_id = is_valid_item_id item_id ≡ true

decode-decoded_key : (a : Text) → IsValid a → decode_item_id a ≡ ok (decoded_key a)
unfolding decoded_key
decode-decoded_key a v =
    let (bs, e, n, h, p) = decode_item_id-Decoded a v in rw (e, decoded_key) refl

-- On valid identifiers the order of the decoded bytes is the order of the strings.
pub text_lt-decoded_key :
    (a b : Text) → IsValid a → IsValid b → text_lt (decoded_key a) (decoded_key b) ≡ text_lt a b
unfolding decoded_key
text_lt-decoded_key a b v w =
    let (bytes_a, e, n, ha, pa) = decode_item_id-Decoded a v in
    let (bytes_b, f, m, hb, pb) = decode_item_id-Decoded b w in
    rw (e, decoded_key)
      (rw (f, decoded_key)
        (sym (text_lt-bytes_to_hex_lower bytes_a bytes_b ha hb)
          ∙ ap (λ z. text_lt z (bytes_to_hex_lower bytes_b)) pa
          ∙ ap (text_lt a) pb))

lt-differs : (x y : Text) → text_lt x y ≡ true → text_eq x y ≡ false
lt-differs x y h = elim (Bool-cases (text_eq x y)) [
  | inl e ↦ cc (h, subst (λ z. text_lt x z ≡ false) ((text_eq_iff x y).0 e) (text_lt_irrefl x))
  | inr e ↦ e
]

seen-cons :
    (x : Text) (seen xs : List Text)
    → All (λ y. text_lt x y ≡ true) xs
    → All (λ y. contains seen y ≡ false) xs
    → All (λ y. contains (x ∷ seen) y ≡ false) xs
unfolding contains
seen-cons x seen [] h k = tt
seen-cons x seen (y ∷ xs) h k = (rw (lt-differs x y h.0, contains) k.0, seen-cons x seen xs h.1 k.1)

unique_from-ok :
    (label : Text) (seen xs : List Text)
    → All IsValid xs
    → IsAscending xs
    → All (λ y. contains seen y ≡ false) xs
    → unique_from label seen xs ≡ ok tt
unfolding unique_from
unique_from-ok label seen [] v h k = refl
unique_from-ok label seen (x ∷ xs) v h k =
    rw (v.0, unique_from)
      (rw (k.0, unique_from)
        (unique_from-ok label (x ∷ seen) xs v.1 h.1 (seen-cons x seen xs h.0 k.1)))

below-next :
    (x : Text) (xs : List Text)
    → IsValid x
    → All IsValid xs
    → All (λ y. text_lt x y ≡ true) xs
    → All (λ y. is_below (some (decoded_key x)) (decoded_key y) ≡ false) xs
unfolding is_below
below-next x [] v w h = tt
below-next x (y ∷ xs) v w h =
    (text_lt-decoded_key y x w.0 v ∙ text_lt_asym x y h.0, below-next x xs v w.1 h.1)

sorted_from-ok :
    (label : Text) (prev : Option Text) (xs : List Text)
    → All IsValid xs
    → IsAscending xs
    → All (λ y. is_below prev (decoded_key y) ≡ false) xs
    → sorted_from label prev xs ≡ ok tt
unfolding sorted_from
sorted_from-ok label prev [] v h k = refl
sorted_from-ok label prev (x ∷ xs) v h k =
    rw (decode-decoded_key x v.0, sorted_from)
      (rw (k.0, sorted_from)
        (sorted_from-ok label (some (decoded_key x)) xs v.1 h.1 (below-next x xs v.0 v.1 h.0)))

none-All : (xs : List Text) → All (λ y. is_below none (decoded_key y) ≡ false) xs
unfolding is_below
none-All [] = tt
none-All (x ∷ xs) = (refl, none-All xs)

unseen-All : (xs : List Text) → All (λ y. contains [] y ≡ false) xs
unfolding contains
unseen-All [] = tt
unseen-All (x ∷ xs) = (refl, unseen-All xs)

pub ascending-validates :
    (xs : List Text) (label : Text)
    → All IsValid xs
    → IsAscending xs
    → validate_sorted_unique_item_ids xs label ≡ ok tt
unfolding validate_sorted_unique_item_ids validate_unique_item_ids
ascending-validates xs label v h =
    rw (unique_from-ok label [] xs v h (unseen-All xs))
      (sorted_from-ok label none xs v h (none-All xs))
