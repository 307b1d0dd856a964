-- ===== src/Clients/Response.antt =====
-- `read_response`: the loop that the command-line client, its shell, the monitor and the benchmark
-- have each a copy of. The socket is the list of what its reads return, as for the server; an empty
-- read is its end, and so is the end of the list.
pub mod Arrives
use rustkv_lab.Prelude.{
  ℕ, ◌≡◌, Option, none, some, List, [], ◌∷◌, ◌++◌, map, Bytes, Result, ok, err,
}
use rustkv_lab.Protocol.{
  incomplete, invalid_type_byte, invalid_integer, invalid_utf8, invalid_format, ProtocolError,
}
use rustkv_lab.Protocol.Resp.{RespFrame, bulk_string, array, from_list}
use rustkv_lab.Protocol.Encoder.{encode_resp}
use rustkv_lab.Protocol.Parser
use rustkv_lab.Protocol.Parser.{Parse, parse_resp}

-- How a client's call ends: with a value, an error and its text, or a panic.
pub data Response {ℓ} (A : Type ℓ) : Type ℓ where
  received : A → Response A
  failed : Bytes → Response A
  panicked : Response A
  out_of_fuel : Response A

-- `map` and `?` on the value.
abbrev pub and_then {ℓ κ} : {A : Type ℓ} {B : Type κ} → Response A → (A → Response B) → Response B
and_then (received a) f = f a
and_then (failed text) f = failed text
and_then panicked f = panicked
and_then out_of_fuel f = out_of_fuel

-- The socket and the buffer stay as a call leaves them.
pub record Received {ℓ} (A : Type ℓ) : Type ℓ where
  pub response : Response A
  pub stream : List (Result Bytes Bytes)
  pub buffer : Bytes

abbrev pub received_by {ℓ} :
    {A : Type ℓ} → Response A → List (Result Bytes Bytes) → Bytes → Received A
received_by response stream buffer = record {
  response = response;
  stream = stream;
  buffer = buffer;
}

-- The texts of a client's errors: of a frame that is malformed, of a read that fails, and of a
-- server that closes too early.
pub record ErrorTexts : Type 0 where
  pub protocol : ProtocolError → Bytes
  pub read : Bytes → Bytes
  pub ended : Bytes

-- The `match parse_resp(&buffer)` of a round; `next` reads from the socket.
abbrev pub or_read_on :
    ErrorTexts
    → Received (RespFrame × ℕ)
    → List (Result Bytes Bytes)
    → Bytes
    → Parse (RespFrame × ℕ)
    → Received (RespFrame × ℕ)
or_read_on texts next stream buffer (Parser.ok frame) = received_by (received frame) stream buffer
or_read_on texts next stream buffer (Parser.err incomplete) = next
or_read_on texts next stream buffer (Parser.err (invalid_type_byte b)) =
    received_by (failed (texts.protocol (invalid_type_byte b))) stream buffer
or_read_on texts next stream buffer (Parser.err invalid_integer) =
    received_by (failed (texts.protocol invalid_integer)) stream buffer
or_read_on texts next stream buffer (Parser.err invalid_utf8) =
    received_by (failed (texts.protocol invalid_utf8)) stream buffer
or_read_on texts next stream buffer (Parser.err (invalid_format m)) =
    received_by (failed (texts.protocol (invalid_format m))) stream buffer
or_read_on texts next stream buffer Parser.panicked = received_by panicked stream buffer
or_read_on texts next stream buffer Parser.out_of_fuel = received_by out_of_fuel stream buffer

-- Each round but the last takes one read of the socket.
unfoldable pub read_response :
    ErrorTexts → List (Result Bytes Bytes) → Bytes → Received (RespFrame × ℕ)
unfolding parse_resp
read_response texts [] buffer =
    or_read_on texts (received_by (failed texts.ended) [] buffer) [] buffer (parse_resp buffer)
read_response texts (err message ∷ stream) buffer =
    or_read_on texts (received_by (failed (texts.read message)) stream buffer)
      (err message ∷ stream) buffer (parse_resp buffer)
read_response texts (ok [] ∷ stream) buffer =
    or_read_on texts (received_by (failed texts.ended) stream buffer) (ok [] ∷ stream) buffer
      (parse_resp buffer)
read_response texts (ok (b ∷ chunk) ∷ stream) buffer =
    let rest = read_response texts stream (buffer ++ (b ∷ chunk)) in
    or_read_on texts rest (ok (b ∷ chunk) ∷ stream) buffer (parse_resp buffer)

-- `encode_command`
unfoldable pub encode_command : List Bytes → Bytes
unfolding encode_resp
encode_command args = encode_resp (array (from_list (map bulk_string args)))
