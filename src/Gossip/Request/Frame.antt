-- ===== src/Gossip/Request/Frame.antt =====
-- The frame that `build_request_frame` builds.
use aethos_linux.Base.{
  ltb, ℕ, ◌≡◌, refl, sym, ap, ◌∙◌, subst, ◌≤◌, Bool, true, false, inl, inr, List, [], ◌∷◌, Option,
  zero, suc, arith, All, All-take, min, length, length-take, take, filter, Bool-cases,
  if◌then◌else◌,
}
use aethos_linux.Base.Sort.{sort_by, insert_by}
use aethos_linux.Base.Sort.Laws.{All-sort_by}
use aethos_linux.Base.Dedup.{IsAscending, All-dedup, dedup-sort_by-IsAscending}
use aethos_linux.Base.Text.{Text, message, text_lt, dedup}
use aethos_linux.Base.Result.{ok, ◌>>◌}
use aethos_linux.Hex.{is_valid_item_id}
use aethos_linux.Gossip.Types.{request, max_want_items}
use aethos_linux.Gossip.Validate.{validate_frame, validate_request}
use aethos_linux.Gossip.Validate.Accepts.{IsValid, text_lt-decoded_key, ascending-validates}
use aethos_linux.Gossip.Request.{sort_by_decoded, wanted_item_ids, build_request_frame}

-- Sorting by two tests that agree on the items is the same.
module _ {A : Type 0} (P : A → Type 0) (lt lt' : A → A → Bool)
    (agree : (a b : A) → P a → P b → lt a b ≡ lt' a b) where
  insert_by-agrees : (x : A) (ys : List A) → P x → All P ys → insert_by lt x ys ≡ insert_by lt' x ys
  unfolding insert_by
  insert_by-agrees x [] h k = refl
  insert_by-agrees x (y ∷ ys) h k =
      rw (agree y x k.0 h)
        (ap (λ z. if lt' y x then y ∷ z else x ∷ y ∷ ys) (insert_by-agrees x ys h k.1))

  sort_by-agrees : (xs : List A) → All P xs → sort_by lt xs ≡ sort_by lt' xs
  unfolding sort_by
  sort_by-agrees [] h = refl
  sort_by-agrees (x ∷ xs) h =
      ap (insert_by lt x) (sort_by-agrees xs h.1)
      ∙ insert_by-agrees x (sort_by lt' xs) h.0 (All-sort_by lt' P xs h.1)

All-filter : (p : Text → Bool) (xs : List Text) → All (λ x. p x ≡ true) (filter p xs)
All-filter p [] = tt
All-filter p (x ∷ xs) = elim (Bool-cases (p x)) [
  | inl e ↦ rw (e, All) ((e, All-filter p xs))
  | inr e ↦ rw (e, All) (All-filter p xs)
]

take-IsAscending : (n : ℕ) (xs : List Text) → IsAscending xs → IsAscending (take n xs)
take-IsAscending zero xs h = tt
take-IsAscending (suc n) [] h = tt
take-IsAscending (suc n) (x ∷ xs) h = (All-take _ n xs h.0, take-IsAscending n xs h.1)

sort_by_decoded-eq : (xs : List Text) → All IsValid xs → sort_by_decoded xs ≡ sort_by text_lt xs
unfolding sort_by_decoded
sort_by_decoded-eq xs h = sort_by-agrees IsValid _ text_lt text_lt-decoded_key xs h

wanted-eq :
    (want : List Text) (max_want : ℕ)
    → wanted_item_ids want max_want
      ≡ take (min max_want max_want_items) (dedup (sort_by text_lt (filter is_valid_item_id want)))
unfolding wanted_item_ids
wanted-eq want max_want =
    ap (λ z. take (min max_want max_want_items) (dedup z))
      (sort_by_decoded-eq (filter is_valid_item_id want) (All-filter is_valid_item_id want))

wanted-IsAscending : (want : List Text) (max_want : ℕ) → IsAscending (wanted_item_ids want max_want)
wanted-IsAscending want max_want =
    subst IsAscending (sym (wanted-eq want max_want))
      (take-IsAscending _ _ (dedup-sort_by-IsAscending (filter is_valid_item_id want)))

wanted-IsValid : (want : List Text) (max_want : ℕ) → All IsValid (wanted_item_ids want max_want)
wanted-IsValid want max_want = subst (All IsValid) (sym (wanted-eq want max_want)) (
    All-take IsValid _ _
      (All-dedup IsValid _ (All-sort_by text_lt IsValid _ (All-filter is_valid_item_id want))))

length-wanted-le :
    (want : List Text) (max_want : ℕ)
    → length (wanted_item_ids want max_want) ≤ min max_want max_want_items
unfolding wanted_item_ids
length-wanted-le want max_want = omega (
  arith,
  length-take (min max_want max_want_items)
      (dedup (sort_by_decoded (filter is_valid_item_id want))),
)

not-ltb : (a b : ℕ) → b ≤ a → ltb a b ≡ false
not-ltb a b h = ground arith

wanted-passes :
    (sha256 : Text → Text) (base64_decode : Text → Option Text) (want : List Text) (max_want : ℕ)
    → validate_frame sha256 base64_decode
        (request (record { want = wanted_item_ids want max_want }))
      ≡ ok tt
unfolding validate_frame validate_request
wanted-passes sha256 base64_decode want max_want =
    rw
      (not-ltb max_want_items (length (wanted_item_ids want max_want))
        (omega (arith, length-wanted-le want max_want)))
      (ascending-validates (wanted_item_ids want max_want) (message "REQUEST.want")
        (wanted-IsValid want max_want) (wanted-IsAscending want max_want))

built :
    (sha256 : Text → Text) (base64_decode : Text → Option Text) (want : List Text) (max_want : ℕ)
    → build_request_frame sha256 base64_decode want max_want
      ≡ ok (request (record { want = wanted_item_ids want max_want }))
unfolding build_request_frame
built sha256 base64_decode want max_want =
    ap (λ r. r >> ok (request (record { want = wanted_item_ids want max_want })))
      (wanted-passes sha256 base64_decode want max_want)

-- Whatever it is asked to want, `build_request_frame` succeeds: the frame that it builds passes
-- `validate_frame`, its identifiers are valid and in strictly ascending order, and there are at
-- most `max_want` of them and at most 256.
pub build_request_frame-ok :
    (sha256 : Text → Text) (base64_decode : Text → Option Text) (want : List Text) (max_want : ℕ)
    → (build_request_frame sha256 base64_decode want max_want
        ≡ ok (request (record { want = wanted_item_ids want max_want })))
      × (validate_frame sha256 base64_decode
            (request (record { want = wanted_item_ids want max_want }))
          ≡ ok tt)
      × All IsValid (wanted_item_ids want max_want)
      × IsAscending (wanted_item_ids want max_want)
      × (length (wanted_item_ids want max_want) ≤ min max_want 256)
build_request_frame-ok sha256 base64_decode want max_want = (
  built sha256 base64_decode want max_want,
  wanted-passes sha256 base64_decode want max_want,
  wanted-IsValid want max_want,
  wanted-IsAscending want max_want,
  length-wanted-le want max_want,
)
