-- ===== src/Protocol/Encoder/Wire.antt =====
-- The encoder without its accumulator.
use rustkv_lab.Prelude.{[], ◌∷◌, ◌++◌, ◌≡◌, ◌∙◌, append_assoc, append-nil, Bytes, length}
use rustkv_lab.Text.{codes}
use rustkv_lab.Text.Decimal.{to_string, int_to_string}
use rustkv_lab.Protocol.Resp.{
  RespValue, RespValues, simple_string, error, integer, bulk_string, array, null, nil, cons, count,
}
use rustkv_lab.Protocol.Encoder.{crlf, encode_into, encode_values, encode_resp}

unfoldable mutual
  pub wire : RespValue → Bytes
  wire (simple_string text) = b'+' ∷ (text ++ crlf)
  wire (error text) = b'-' ∷ (text ++ crlf)
  wire (integer number) = b':' ∷ (int_to_string number ++ crlf)
  wire (bulk_string bytes) = b'$' ∷ (to_string (length bytes) ++ (crlf ++ (bytes ++ crlf)))
  wire (array values) = b'*' ∷ (to_string (count values) ++ (crlf ++ wire_values values))
  wire null = codes "$-1" ++ crlf

  pub wire_values : RespValues → Bytes
  wire_values nil = []
  wire_values (cons value values) = wire value ++ wire_values values

mutual
  unfolding encode_into wire

  encode_into_append : (v : RespValue) (output : Bytes) → encode_into v output ≡ output ++ wire v
  encode_into_append (simple_string text) output = simp append_assoc
  encode_into_append (error text) output = simp append_assoc
  encode_into_append (integer number) output = simp append_assoc
  encode_into_append (bulk_string bytes) output = simp append_assoc
  encode_into_append (array values) output =
      simp append_assoc (encode_values_append values _ ∙ (simp append_assoc))
  encode_into_append null output = simp append_assoc

  encode_values_append :
      (vs : RespValues) (output : Bytes) → encode_values vs output ≡ output ++ wire_values vs
  encode_values_append nil output = rw append-nil
  encode_values_append (cons v vs) output =
      encode_values_append vs (encode_into v output)
      ∙ (rw (encode_into_append v output) (append_assoc output (wire v) (wire_values vs)))

-- The encoder, which grows an output buffer, appends the wire form of the value to whatever stands
-- in the buffer.
pub encode_into-wire : (v : RespValue) (output : Bytes) → encode_into v output ≡ output ++ wire v
encode_into-wire v output = encode_into_append v output

pub encode_resp-wire : (v : RespValue) → encode_resp v ≡ wire v
unfolding encode_resp
encode_resp-wire v = encode_into_append v []
