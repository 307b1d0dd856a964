-- ===== src/Server/Connection.antt =====
-- `connection.rs`: a connection splits what the client sends into frames. The socket is the list of
-- what its reads return, an error or bytes; an empty read is its end, and so is the end of the list.
pub mod Chunks
use rustkv_lab.Prelude.{
  ℕ, Bool, Option, none, some, List, [], ◌∷◌, ◌++◌, Bytes, ltb, if◌then◌else◌, length, take, drop,
  Result, ok, err,
}
use rustkv_lab.Text.{codes}
use rustkv_lab.Protocol.{
  incomplete, invalid_type_byte, invalid_integer, invalid_utf8, invalid_format, ProtocolError,
}
use rustkv_lab.Protocol.Resp.{RespFrame, RespValue}
use rustkv_lab.Protocol.Encoder.{encode_resp}
use rustkv_lab.Protocol.Parser
use rustkv_lab.Protocol.Parser.{Parse, parse_resp}
use rustkv_lab.Core.Executor.{protocol_to_string}

pub record Connection : Type 0 where
  pub stream : List (Result Bytes Bytes)
  pub buffer : Bytes
  pub max_frame_size : ℕ
  -- what was written to the client
  pub sent : Bytes

unfoldable pub new : List (Result Bytes Bytes) → ℕ → Connection
new stream max_frame_size = record {
  stream = stream;
  buffer = [];
  max_frame_size = max_frame_size;
  sent = [];
}

pub data ReadValue : Type 0 where
  frame : Bytes → ReadValue
  closed : ReadValue
  failed : Bytes → ReadValue
  panicked : ReadValue
  out_of_fuel : ReadValue

abbrev pub too_large : ReadValue
too_large = failed (codes "request exceeds maximum frame size: frame too large")

-- The `match parse_resp(&self.buffer)` and the test behind it; `next` reads from the socket.
abbrev pub split_frame :
    ReadValue × Connection → Connection → Parse (RespFrame × ℕ) → ReadValue × Connection
split_frame next self (Parser.ok (v, consumed)) =
    if ltb self.max_frame_size consumed
    then (too_large, self)
    else (frame (take consumed self.buffer), record self { buffer = drop consumed self.buffer })
split_frame next self (Parser.err incomplete) =
    if ltb self.max_frame_size (length self.buffer) then (too_large, self) else next
split_frame next self (Parser.err (invalid_type_byte b)) =
    (failed (codes "invalid RESP frame: " ++ protocol_to_string (invalid_type_byte b)), self)
split_frame next self (Parser.err invalid_integer) =
    (failed (codes "invalid RESP frame: " ++ protocol_to_string invalid_integer), self)
split_frame next self (Parser.err invalid_utf8) =
    (failed (codes "invalid RESP frame: " ++ protocol_to_string invalid_utf8), self)
split_frame next self (Parser.err (invalid_format m)) =
    (failed (codes "invalid RESP frame: " ++ protocol_to_string (invalid_format m)), self)
split_frame next self Parser.panicked = (panicked, self)
split_frame next self Parser.out_of_fuel = (out_of_fuel, self)

-- No byte was read.
abbrev pub at_end : Connection → ReadValue × Connection
at_end self = elim self.buffer [
  | [] ↦ (closed, self)
  | b ∷ buffer ↦ (failed (codes "connection closed with an incomplete RESP frame"), self)
]

abbrev pub connection : List (Result Bytes Bytes) → Bytes → ℕ → Bytes → Connection
connection stream buffer max sent = record {
  stream = stream;
  buffer = buffer;
  max_frame_size = max;
  sent = sent;
}

-- The loop, on the fields of the connection: each round but the last takes one read of the socket.
unfoldable pub read_loop : List (Result Bytes Bytes) → Bytes → ℕ → Bytes → ReadValue × Connection
unfolding parse_resp protocol_to_string
read_loop [] buffer max sent =
    split_frame (at_end (connection [] buffer max sent)) (connection [] buffer max sent)
      (parse_resp buffer)
read_loop (err message ∷ stream) buffer max sent =
    split_frame (failed message, connection stream buffer max sent)
      (connection (err message ∷ stream) buffer max sent) (parse_resp buffer)
read_loop (ok [] ∷ stream) buffer max sent =
    split_frame (at_end (connection stream buffer max sent))
      (connection (ok [] ∷ stream) buffer max sent) (parse_resp buffer)
read_loop (ok (b ∷ chunk) ∷ stream) buffer max sent =
    let rest = read_loop stream (buffer ++ (b ∷ chunk)) max sent in
    split_frame
      (if ltb max (length (buffer ++ (b ∷ chunk)))
        then (too_large, connection stream (buffer ++ (b ∷ chunk)) max sent)
        else rest)
      (connection (ok (b ∷ chunk) ∷ stream) buffer max sent) (parse_resp buffer)

unfoldable pub read_value : Connection → ReadValue × Connection
unfolding read_loop
read_value self = read_loop self.stream self.buffer self.max_frame_size self.sent

-- A write that fails is an error of its own; `sent` is what a client that reads receives.
unfoldable pub write_value : RespValue → Connection → Connection
unfolding encode_resp
write_value value self = record self { sent = self.sent ++ encode_resp value }
