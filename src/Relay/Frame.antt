-- ===== src/Relay/Frame.antt =====
-- The frames of a stream, src/relay/client.rs: a length in four bytes, then the payload.
mod Examples
use native.Mathlib.Nat.{mod-lt}
use aethos_linux.Base.{
  ℕ, zero, suc, ◌+◌, ◌-◌, ◌*◌, ◌/◌, ◌%◌, ◌^◌, ◌≤◌, ◌<◌, ◌≡◌, refl, subst, Bool, List, [], ◌∷◌, ◌++◌,
  arith, ltb, ◌==◌, not, if◌then◌else◌, length, length-append, drop, take, Option, none, some,
}
use aethos_linux.Base.Text.{Text, message}
use aethos_linux.Hex.{AreBytes}
use aethos_linux.Base.Result.{Result, ok, err}

-- MAX_FRAME_BYTES of src/aethos_core/gossip_sync.rs.
abbrev pub max_frame_bytes : ℕ
max_frame_bytes = 1_048_576

-- `u32::to_be_bytes`
abbrev pub u32_to_be_bytes : ℕ → Text
u32_to_be_bytes n = n / 16_777_216 % 256 ∷ n / 65_536 % 256 ∷ n / 256 % 256 ∷ n % 256 ∷ []

unfoldable pub encode_stream_frame : Text → Result Text Text
encode_stream_frame payload =
    if ltb (length payload) (2 ^ 32)
    then ok (u32_to_be_bytes (length payload) ++ payload)
    else err (message "frame too large")

-- The numbers in the messages of the source are left out.
unfoldable pub decode_stream_frame : Text → Result Text Text
decode_stream_frame (b3 ∷ b2 ∷ b1 ∷ b0 ∷ payload) =
    let frame_len = b3 * 16_777_216 + b2 * 65_536 + b1 * 256 + b0 in
    if ltb max_frame_bytes frame_len
    then err (message "gossip frame length exceeds max")
    else if not (length payload + 4 == frame_len + 4)
    then err (message "gossip frame length mismatch")
    else ok payload
decode_stream_frame raw = err (message "gossip stream frame too short")

-- Decoding an encoded payload of at most 1 MiB gives the payload back, and the frame is four bytes
-- longer.
pub decode_stream_frame-encode_stream_frame :
    (payload : Text)
    → length payload ≤ max_frame_bytes
    → (raw : Text) × (encode_stream_frame payload ≡ ok raw)
      × (decode_stream_frame raw ≡ ok payload)
      × (length raw ≡ length payload + 4)
unfolding encode_stream_frame decode_stream_frame
decode_stream_frame-encode_stream_frame payload h =
    (u32_to_be_bytes (length payload) ++ payload, ground arith, ground arith, omega arith)

-- An input of bytes that decodes is the one frame of its payload: encoding the payload gives the
-- input back, the payload is at most 1 MiB long, and the input is four bytes longer.
pub encode_stream_frame-decode_stream_frame :
    (raw payload : Text)
    → AreBytes raw
    → decode_stream_frame raw ≡ ok payload
    → (encode_stream_frame payload ≡ ok raw)
      × (length payload ≤ max_frame_bytes)
      × (length raw ≡ length payload + 4)
unfolding encode_stream_frame decode_stream_frame
encode_stream_frame-decode_stream_frame [] payload bytes h = cc
encode_stream_frame-decode_stream_frame (b3 ∷ []) payload bytes h = cc
encode_stream_frame-decode_stream_frame (b3 ∷ b2 ∷ []) payload bytes h = cc
encode_stream_frame-decode_stream_frame (b3 ∷ b2 ∷ b1 ∷ []) payload bytes h = cc
encode_stream_frame-decode_stream_frame (b3 ∷ b2 ∷ b1 ∷ b0 ∷ rest) payload (h3, (h2, (h1, (h0, _))))
      h =
    let frame_len = b3 * 16_777_216 + b2 * 65_536 + b1 * 256 + b0 in
    let same : rest ≡ payload = ground arith in
    let size : length rest ≡ frame_len = ground arith in
    let small : frame_len ≤ max_frame_bytes = ground arith in
    subst
      (λ p.
        (encode_stream_frame p ≡ ok (b3 ∷ b2 ∷ b1 ∷ b0 ∷ rest))
        × (length p ≤ max_frame_bytes)
        × (length (b3 ∷ b2 ∷ b1 ∷ b0 ∷ rest) ≡ length p + 4))
      same (ground arith, omega arith, omega arith)
