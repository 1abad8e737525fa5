-- ===== src/Protocol/Control/Message.antt =====
-- control_payload.cpp: the payload of an `error` packet, a code and a diagnostic text.
use wiretone.Prelude.{ℕ, ◌+◌, ◌||◌, not, List, [], ltb, if◌then◌else◌, length, drop, copy_into}
use wiretone.Protocol.Bytes.{write_u16, read_u16}
use wiretone.Protocol.Packet.{error_payload_minimum_size, error_payload_maximum_size}
use wiretone.Protocol.Control.Types.{
  ControlPayloadError, ControlParseResult, ErrorPayloadView, error_message_maximum_size,
}
use wiretone.Protocol.Control.Utf8.{valid_utf8}

unfoldable pub encoded_error_payload_size : List ℕ → ℕ
encoded_error_payload_size message = error_payload_minimum_size + length message

unfoldable pub encode_error_payload : ErrorPayloadView → List ℕ → ControlPayloadError × List ℕ
unfolding write_u16 encoded_error_payload_size
encode_error_payload p output =
    if ltb error_message_maximum_size (length p.message)
    then (ControlPayloadError.error_message_too_large, output)
    else if not (valid_utf8 p.message)
    then (ControlPayloadError.invalid_utf8, output)
    else if ltb (length output) (encoded_error_payload_size p.message)
    then (ControlPayloadError.output_too_small, output)
    else (
      ControlPayloadError.none,
      copy_into (write_u16 output 0 p.code) error_payload_minimum_size p.message,
    )

unfoldable pub parse_error_payload : List ℕ → ControlParseResult ErrorPayloadView
unfolding read_u16
parse_error_payload payload =
    if ltb (length payload) error_payload_minimum_size
      || ltb error_payload_maximum_size (length payload)
    then failed ControlPayloadError.invalid_payload_size
    else if not (valid_utf8 (drop error_payload_minimum_size payload))
    then failed ControlPayloadError.invalid_utf8
    else record {
      error = ControlPayloadError.none;
      value = record {
        code = read_u16 payload 0;
        message = drop error_payload_minimum_size payload;
      };
    }
  where
    failed : ControlPayloadError → ControlParseResult ErrorPayloadView
    failed e = record { error = e; value = record { code = 0; message = [] } }
