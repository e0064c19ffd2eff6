-- ===== src/Gossip/Examples.antt =====
-- Runs of `build_request_frame` and of `validate_transfer`, with the identity in place of the hash
-- and of the decoder.
use aethos_linux.Base.{◌≤◌, ◌≡◌, ◌↔◌, List, [], ◌∷◌, some, All, length, min, replicate}
use aethos_linux.Base.Text.{Text, codes}
use aethos_linux.Base.Dedup.{IsAscending}
use aethos_linux.Base.Result.{ok}
use aethos_linux.Gossip.Types.{request, TransferFrame, max_transfer_items, max_transfer_bytes}
use aethos_linux.Gossip.Validate.{validate_frame, validate_transfer}
use aethos_linux.Gossip.Validate.Transfer.{decoded_bytes, validate_transfer-ok_iff}
use aethos_linux.Gossip.Validate.Accepts.{IsValid}
use aethos_linux.Gossip.Request.{wanted_item_ids, build_request_frame}
use aethos_linux.Gossip.Request.Frame.{build_request_frame-ok}

abbrev want : List Text
want = replicate 64 98 ∷ codes "no" ∷ replicate 64 97 ∷ replicate 64 98 ∷ []

build_request_frame-ok_example :
    (build_request_frame (λ x. x) (λ x. some x) want 1
      ≡ ok (request (record { want = wanted_item_ids want 1 })))
    × (validate_frame (λ x. x) (λ x. some x) (request (record { want = wanted_item_ids want 1 }))
        ≡ ok tt)
    × All IsValid (wanted_item_ids want 1)
    × IsAscending (wanted_item_ids want 1)
    × (length (wanted_item_ids want 1) ≤ min 1 256)
build_request_frame-ok_example = build_request_frame-ok (λ x. x) (λ x. some x) want 1

abbrev frame : TransferFrame
frame = record {
  objects =
      record {
        item_id = replicate 64 97;
        envelope_b64 = codes "aGk";
        expiry_unix_ms = 9;
        hop_count = 1;
      }
      ∷ [];
}

validate_transfer-ok_iff_example : (validate_transfer (λ x. x) (λ x. some x) frame ≡ ok tt) ↔ (
    (length frame.objects ≤ max_transfer_items)
    × (decoded_bytes (λ x. some x) frame.objects ≤ max_transfer_bytes))
validate_transfer-ok_iff_example = validate_transfer-ok_iff (λ x. x) (λ x. some x) frame
