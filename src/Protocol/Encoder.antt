-- ===== src/Protocol/Encoder.antt =====
-- `encoder.rs`. The output grows at its end; `Wire` has the encoder as a function of the value.
pub mod Wire
use rustkv_lab.Prelude.{ℕ, [], ◌∷◌, ◌++◌, ◌≡◌, refl, Bytes, length}
use rustkv_lab.Prelude.Int.{pos, negsuc}
use rustkv_lab.Text.{codes}
use rustkv_lab.Text.Decimal.{to_string, int_to_string}
use rustkv_lab.Protocol.Resp.{
  RespValue, RespValues, simple_string, error, integer, bulk_string, array, null, nil, cons, count,
}

abbrev pub crlf : Bytes
crlf = 13 ∷ 10 ∷ []

unfoldable mutual
  pub encode_into : RespValue → Bytes → Bytes
  encode_into (simple_string text) output = ((output ++ b'+' ∷ []) ++ text) ++ crlf
  encode_into (error text) output = ((output ++ b'-' ∷ []) ++ text) ++ crlf
  encode_into (integer number) output = ((output ++ b':' ∷ []) ++ int_to_string number) ++ crlf
  encode_into (bulk_string bytes) output =
      ((((output ++ b'$' ∷ []) ++ to_string (length bytes)) ++ crlf) ++ bytes) ++ crlf
  encode_into (array values) output =
      encode_values values (((output ++ b'*' ∷ []) ++ to_string (count values)) ++ crlf)
  encode_into null output = output ++ codes "$-1" ++ crlf

  pub encode_values : RespValues → Bytes → Bytes
  encode_values nil output = output
  encode_values (cons value values) output = encode_values values (encode_into value output)

unfoldable pub encode_resp : RespValue → Bytes
unfolding encode_into
encode_resp value = encode_into value []

encode_array :
    encode_resp
      (array (cons (bulk_string (codes "PING")) (cons (integer (negsuc 0)) (cons null nil))))
    ≡ codes "*3"
      ++ crlf
      ++ codes "$4"
      ++ crlf
      ++ codes "PING"
      ++ crlf
      ++ codes ":-1"
      ++ crlf
      ++ codes "$-1"
      ++ crlf
unfolding encode_resp to_string int_to_string
encode_array = refl
