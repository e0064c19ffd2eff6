-- ===== src/Gossip/Frame/Examples.antt =====
-- Runs of `serialize_frame` and `parse_frame`, with a codec of the REQUEST frames of one item.
use aethos_linux.Base.{
  ℕ, ◌+◌, ◌≡◌, refl, true, List, [], ◌∷◌, ◌==◌, if◌then◌else◌, some, replicate, length, arith,
}
use aethos_linux.Base.Text.{Text, contains}
use aethos_linux.Hex.{is_valid_item_id, decode_item_id}
use aethos_linux.Gossip.Validate.{validate_frame}
use aethos_linux.Base.Result.{Result, ok, err}
use aethos_linux.Envelope.Cbor.{
  Value, text, array, map_value, no_values, value_first, no_entries, entry_first,
  canonicalize_cbor_value,
}
use aethos_linux.Envelope.Build.{Crates}
use aethos_linux.Gossip.Types.{RequestFrame, GossipSyncFrame, request}
use aethos_linux.Gossip.Frame.{Payloads, serialize_frame, parse_frame}
use aethos_linux.Gossip.Frame.RoundTrip.{envelope_of, parse_frame-serialize_frame}

abbrev frame_wanting : Text → GossipSyncFrame
frame_wanting item_id = request (record { want = item_id ∷ [] })

-- A list of one text.
abbrev wanted : Text → Value
wanted item_id = array (value_first (text item_id) no_values)

-- An envelope's entries are written without their keys and the type.
abbrev write : Value → Result Text Text
write (text t) = ok ((96 + length t) ∷ t)
write (array (value_first (text t) no_values)) = ok (129 ∷ t)
write
      (map_value (
        entry_first type_key type_text
          (entry_first payload_key (array (value_first (text t) no_values)) no_entries))) =
    ok (162 ∷ t)
write value = err []

abbrev read : Text → Result Text (Value × ℕ)
read [] = err []
read (tag ∷ t) =
    if tag == 129
    then ok (wanted t, length (tag ∷ t))
    else ok (envelope_of (frame_wanting t) (wanted t), length (tag ∷ t))

abbrev crates : Crates
crates = record {
  into_writer = write;
  from_reader = read;
  base64_encode = λ raw. raw;
  base64_decode = λ raw. some raw;
  sha256 = λ raw. raw;
  verifying_key = λ seed. seed;
  sign = λ seed digest. digest;
  is_point = λ key. true;
  verify = λ key digest sig. true;
}

abbrev read_want : Text → Result Text RequestFrame
read_want [] = err []
read_want (tag ∷ t) = ok (record { want = t ∷ [] })

abbrev value_of_want : List Text → Value
value_of_want [] = array no_values
value_of_want (item_id ∷ want) = wanted item_id

abbrev value_of : GossipSyncFrame → Value
value_of (request frame) = value_of_want frame.want
value_of frame = text []

abbrev payloads : Payloads
payloads = record {
  value_of = value_of;
  read_hello = λ raw. err [];
  read_summary = λ raw. err [];
  read_request = read_want;
  read_transfer = λ raw. err [];
  read_receipt = λ raw. err [];
  read_relay_ingest = λ raw. err [];
}

abbrev item_id : Text
item_id = replicate 64 97

parse_frame-serialize_frame_example :
    (serialize_frame crates payloads (frame_wanting item_id) ≡ ok (162 ∷ item_id))
    × (parse_frame crates payloads true (162 ∷ item_id) ≡ ok (frame_wanting item_id))
unfolding canonicalize_cbor_value validate_frame is_valid_item_id contains decode_item_id
parse_frame-serialize_frame_example =
    parse_frame-serialize_frame crates payloads (frame_wanting item_id) (wanted item_id)
      (129 ∷ item_id) (129 ∷ item_id) (162 ∷ item_id) true (λ key short. refl) refl refl refl refl
      refl refl refl (omega arith) refl
