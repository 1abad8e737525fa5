-- ===== src/Protocol/Control/MessageRoundTrip.antt =====
-- control_payload.cpp: an error packet's code and text are parsed back.
use wiretone.Prelude.{
  ℕ, ◌^◌, ◌≤◌, ◌<◌, ◌≡◌, true, List, ◌∷◌, ◌++◌, arith, length, take, drop, copy_into_zero,
  take-append,
}
use wiretone.Protocol.Bytes.{byte_at}
use wiretone.Protocol.Bytes.RoundTrip.{u16_of_bytes}
use wiretone.Protocol.Control.Types.{ControlPayloadError, ErrorPayloadView}
use wiretone.Protocol.Control.Utf8.{valid_utf8}
use wiretone.Protocol.Control.Message.{
  encoded_error_payload_size, encode_error_payload, parse_error_payload,
}

abbrev message_bytes : ErrorPayloadView → List ℕ
message_bytes p = byte_at p.code 1 ∷ byte_at p.code 0 ∷ p.message

-- What a call that succeeds has found.
record IsAccepted (p : ErrorPayloadView) (output : List ℕ) : Type 0 where
  text : valid_utf8 p.message ≡ true
  short : length p.message ≤ 256
  fits : encoded_error_payload_size p.message ≤ length output

encode_error_payload-ok :
    (p : ErrorPayloadView) (output : List ℕ)
    → (encode_error_payload p output).0 ≡ ControlPayloadError.none
    → IsAccepted p output
unfolding encode_error_payload
encode_error_payload-ok p output e = ground arith

encode_error_payload-eq-bytes :
    (p : ErrorPayloadView) (output : List ℕ)
    → IsAccepted p output
    → encode_error_payload p output ≡ (
      ControlPayloadError.none,
      message_bytes p ++ drop (encoded_error_payload_size p.message) output,
    )
unfolding encode_error_payload
encode_error_payload-eq-bytes p (a ∷ b ∷ output) h = ground (arith, copy_into_zero output p.message)
encode_error_payload-eq-bytes p _ h = absurd (omega (arith, h.fits))

parse_error_payload-bytes :
    (p : ErrorPayloadView) (output : List ℕ)
    → p.code < 2 ^ 16
    → IsAccepted p output
    → parse_error_payload (message_bytes p) ≡ record { error = ControlPayloadError.none; value = p }
unfolding parse_error_payload
parse_error_payload-bytes p output w h = ground (arith, u16_of_bytes p.code w, h.text, h.short)

length-message_bytes :
    (p : ErrorPayloadView) → length (message_bytes p) ≡ encoded_error_payload_size p.message
unfolding encoded_error_payload_size
length-message_bytes p = omega arith

-- The bytes that an error's 16-bit code and text are encoded to, if `encode_error_payload` accepts
-- them, are parsed back to it, without an error.
pub parse_error_payload-encode :
    (p : ErrorPayloadView) (output : List ℕ)
    → p.code < 2 ^ 16
    → (encode_error_payload p output).0 ≡ ControlPayloadError.none
    → parse_error_payload
        (take (encoded_error_payload_size p.message) (encode_error_payload p output).1)
      ≡ record { error = ControlPayloadError.none; value = p }
parse_error_payload-encode p output w e =
    let h = encode_error_payload-ok p output e in
    rw
      (
        encode_error_payload-eq-bytes p output h,
        take-append (message_bytes p) (drop (encoded_error_payload_size p.message) output) _
            (length-message_bytes p),
      )
      (parse_error_payload-bytes p output w h)
