-- ===== src/Relay/Frame/Examples.antt =====
-- Runs on frames.
use aethos_linux.Base.{◌+◌, ◌≤◌, ◌≡◌, refl, ◌∷◌, arith, length}
use aethos_linux.Base.Text.{Text, codes}
use aethos_linux.Base.Result.{ok}
use aethos_linux.Relay.Frame.{
  max_frame_bytes, encode_stream_frame, decode_stream_frame,
  decode_stream_frame-encode_stream_frame, encode_stream_frame-decode_stream_frame,
}

decode_stream_frame-encode_stream_frame_example :
    (raw : Text) × (encode_stream_frame (codes "hi") ≡ ok raw)
    × (decode_stream_frame raw ≡ ok (codes "hi"))
    × (length raw ≡ length (codes "hi") + 4)
decode_stream_frame-encode_stream_frame_example =
    decode_stream_frame-encode_stream_frame (codes "hi") (omega arith)

decodes : decode_stream_frame (0 ∷ 0 ∷ 0 ∷ 2 ∷ codes "hi") ≡ ok (codes "hi")
unfolding decode_stream_frame
decodes = refl

encode_stream_frame-decode_stream_frame_example :
    (encode_stream_frame (codes "hi") ≡ ok (0 ∷ 0 ∷ 0 ∷ 2 ∷ codes "hi"))
    × (length (codes "hi") ≤ max_frame_bytes)
    × (length (0 ∷ 0 ∷ 0 ∷ 2 ∷ codes "hi") ≡ length (codes "hi") + 4)
encode_stream_frame-decode_stream_frame_example =
    encode_stream_frame-decode_stream_frame (0 ∷ 0 ∷ 0 ∷ 2 ∷ codes "hi") (codes "hi") (omega arith)
      decodes
