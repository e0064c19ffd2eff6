-- ===== src/Envelope/Examples.antt =====
-- Runs of the envelope protocol.
use aethos_linux.Base.{◌≡◌, refl, true, some, replicate, arith}
use aethos_linux.Base.Text.{Text, codes, text_eq}
use aethos_linux.Base.Result.{ok}
use aethos_linux.Hex.{AreBytes, bytes_to_hex_lower}
use aethos_linux.Envelope.Build.{Crates, EnvelopeV1, build_envelope_payload_b64}
use aethos_linux.Envelope.Decode.{DecodedEnvelopeV1, decode_envelope_payload_b64}
use aethos_linux.Envelope.Codec.{write, read, written, key_written}
use aethos_linux.Envelope.RoundTrip.{build_envelope_payload_b64-decode_envelope_payload_b64}
use aethos_linux.Envelope.Authentic.{
  IsCanonical, IsSigned, summary_of, decode_envelope_payload_b64-IsSigned,
}

-- A hash that is a constant, a key that is a constant, and a signature of zeros.
abbrev pub crates : Crates
crates = record {
  into_writer = write;
  from_reader = read;
  base64_encode = λ raw. raw;
  base64_decode = λ raw. some raw;
  sha256 = λ raw. replicate 32 7;
  verifying_key = λ seed. replicate 32 9;
  sign = λ seed digest. replicate 64 0;
  is_point = λ key. true;
  verify = λ key digest sig. text_eq sig (replicate 64 0);
}

abbrev to_wayfarer_id : Text
to_wayfarer_id = replicate 32 171

AreBytes-to_wayfarer_id : AreBytes to_wayfarer_id
AreBytes-to_wayfarer_id = omega arith

abbrev pub summary : DecodedEnvelopeV1
summary = record {
  to_wayfarer_id_hex = bytes_to_hex_lower to_wayfarer_id;
  manifest_id_hex = bytes_to_hex_lower (replicate 32 7);
  author_wayfarer_id_hex = bytes_to_hex_lower (replicate 32 7);
  body = codes "hi";
}

-- An envelope that was built.
pub sent :
    (payload_b64 : Text) × (build_envelope_payload_b64 crates
        (bytes_to_hex_lower to_wayfarer_id)
        (codes "hi")
        (codes "s")
      ≡ ok payload_b64)
    × (decode_envelope_payload_b64 crates payload_b64 ≡ ok summary)
unfolding text_eq
sent =
    build_envelope_payload_b64-decode_envelope_payload_b64 crates written key_written (λ raw. refl)
      (λ seed. refl) (λ seed digest. refl) (λ seed. refl) (λ seed digest. refl) (λ raw. refl)
      to_wayfarer_id (codes "hi") (codes "s") refl AreBytes-to_wayfarer_id

build_envelope_payload_b64-decode_envelope_payload_b64_example :
    (payload_b64 : Text) × (build_envelope_payload_b64 crates
        (bytes_to_hex_lower to_wayfarer_id)
        (codes "hi")
        (codes "s")
      ≡ ok payload_b64)
    × (decode_envelope_payload_b64 crates payload_b64 ≡ ok summary)
unfolding text_eq
build_envelope_payload_b64-decode_envelope_payload_b64_example =
    build_envelope_payload_b64-decode_envelope_payload_b64 crates written key_written (λ raw. refl)
      (λ seed. refl) (λ seed digest. refl) (λ seed. refl) (λ seed digest. refl) (λ raw. refl)
      to_wayfarer_id (codes "hi") (codes "s") refl AreBytes-to_wayfarer_id

decode_envelope_payload_b64-IsSigned_example :
    (raw : Text) × (envelope : EnvelopeV1) × (crates.base64_decode sent.0 ≡ some raw)
    × IsCanonical crates raw envelope
    × IsSigned crates envelope
    × (summary ≡ summary_of crates envelope)
decode_envelope_payload_b64-IsSigned_example =
    decode_envelope_payload_b64-IsSigned crates sent.0 summary sent.2
