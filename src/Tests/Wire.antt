-- ===== src/Tests/Wire.antt =====
-- The protocol's theorems, and those on a connection, on a short array and on what follows it.
use rustkv_lab.Prelude.{◌≡◌, ◌≢◌, refl, [], ◌∷◌, ◌++◌, arith, Bytes, length, take}
use rustkv_lab.Prelude.Int.{negsuc}
use rustkv_lab.Text.{codes}
use rustkv_lab.Text.Utf8.{is_utf8}
use rustkv_lab.Text.Decimal.{to_string, int_to_string}
use rustkv_lab.Protocol.{incomplete}
use rustkv_lab.Protocol.Resp.{
  RespValue, simple_string, integer, bulk_string, array, null, nil, cons,
}
use rustkv_lab.Protocol.Encoder.{crlf, encode_resp}
use rustkv_lab.Protocol.Parser.{ok, err, out_of_fuel, parse_resp}
use rustkv_lab.Protocol.Parser.Decides.{parse_resp-returns, parse_resp-take}
use rustkv_lab.Protocol.Parser.RoundTrip.{parse_resp-encode_resp}
use rustkv_lab.Server.Connection.{connection, read_value}
use rustkv_lab.Server.Connection.Chunks.{TookFront, reads_of, read_value-TookFront}

abbrev value : RespValue
value = array (
    cons (simple_string (codes "OK"))
      (cons (integer (negsuc 6)) (cons (bulk_string (13 ∷ 10 ∷ [])) (cons null nil))))

-- `+OK`, and the start of the next frame.
abbrev frame : Bytes
frame = codes "+OK" ++ crlf

abbrev input : Bytes
input = frame ++ codes ":4"

parse_resp-encode_resp_example :
    parse_resp (encode_resp value ++ codes "+PI") ≡ ok (value, length (encode_resp value))
unfolding encode_resp is_utf8 to_string int_to_string
parse_resp-encode_resp_example =
    parse_resp-encode_resp value (codes "+PI")
      ((refl, (λ e f. omega (arith, e), tt)), (omega arith, (tt, (tt, tt)))) (omega arith)

parse_resp-returns_example : parse_resp input ≢ out_of_fuel
parse_resp-returns_example = parse_resp-returns input

parse_resp-take_example : parse_resp (take 4 input) ≡ err incomplete
unfolding parse_resp is_utf8
parse_resp-take_example = parse_resp-take input (simple_string (codes "OK")) 5 4 refl (omega arith)

read_value-TookFront_example :
    TookFront 5 64 [] input (
      read_value (connection (reads_of ((75, 13 ∷ []) ∷ (10, codes ":4") ∷ [])) (codes "+O") 64 []))
unfolding parse_resp is_utf8
read_value-TookFront_example =
    read_value-TookFront ((75, 13 ∷ []) ∷ (10, codes ":4") ∷ []) (codes "+O") [] 64 5
      (simple_string (codes "OK")) refl (omega arith)
