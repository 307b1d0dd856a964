-- ===== src/Clients/Cli.antt =====
-- The command-line client, `main.rs` of rustkv-cli: a subcommand is sent as one request, and the
-- response is printed. A `String` is its bytes.
pub mod Requests
pub mod Printed
pub mod OneShot
use rustkv_lab.Prelude.{
  ℕ, zero, suc, ◌+◌, ◌-◌, ◌/◌, ◌%◌, ◌≡◌, refl, Bool, true, false, not, ◌&&◌, ◌||◌, Option, none,
  some, List, [], ◌∷◌, ◌++◌, map, Bytes, ltb, ◌==◌, if◌then◌else◌, Result, ok, err,
}
use rustkv_lab.Text.{codes}
use rustkv_lab.Text.Utf8.{is_utf8}
use rustkv_lab.Text.Chars.{Chars, chars, is_control}
use rustkv_lab.Text.Decimal.{to_string, int_to_string}
use rustkv_lab.Protocol.Resp.{
  RespFrame, RespValues, simple_string, error, integer, bulk_string, array, null, nil, cons,
}
use rustkv_lab.Protocol.Parser
use rustkv_lab.Protocol.Parser.{Parse, parse_resp}
use rustkv_lab.Core.Executor.{protocol_to_string}
use rustkv_lab.Clients.Response
use rustkv_lab.Clients.Response.{
  Response, received, failed, Received, ErrorTexts, read_response, encode_command,
}

pub data ClientCommand : Type 0 where
  ping : ClientCommand
  -- the key, the value, `--ex` and `--px`
  set : Bytes → Bytes → Option ℕ → Option ℕ → ClientCommand
  get : Bytes → ClientCommand
  del : List Bytes → ClientCommand
  exists : Bytes → ClientCommand
  keys : ClientCommand
  expire : Bytes → ℕ → ClientCommand
  ttl : Bytes → ClientCommand
  flushdb : ClientCommand
  info : ClientCommand
  shell : ClientCommand

-- `if let Some(duration) = ... { args.push(name); args.push(duration) }`
abbrev option_args : Bytes → Option ℕ → List Bytes
option_args name none = []
option_args name (some duration) = name ∷ to_string duration ∷ []

unfoldable pub into_args : ClientCommand → Result Bytes (List Bytes)
unfolding to_string
into_args ping = ok (codes "PING" ∷ [])
into_args (set key value ex px) =
    ok (codes "SET" ∷ key ∷ value ∷ (option_args (codes "EX") ex ++ option_args (codes "PX") px))
into_args (get key) = ok (codes "GET" ∷ key ∷ [])
into_args (del ks) = ok (codes "DEL" ∷ ks)
into_args (exists key) = ok (codes "EXISTS" ∷ key ∷ [])
into_args keys = ok (codes "KEYS" ∷ [])
into_args (expire key seconds) = ok (codes "EXPIRE" ∷ key ∷ to_string seconds ∷ [])
into_args (ttl key) = ok (codes "TTL" ∷ key ∷ [])
into_args flushdb = ok (codes "FLUSHDB" ∷ [])
into_args info = ok (codes "INFO" ∷ [])
into_args shell = err (codes "shell mode is interactive and cannot be encoded as one request")

-- Printing.

all_chars : (ℕ → Bool) → Chars → Bool
all_chars p [] = true
all_chars p (c ∷ cs) = p c && all_chars p cs

abbrev pub is_terminal_char : ℕ → Bool
is_terminal_char c = not (is_control c) || (c == b'\n' || c == b'\r' || c == b'\t')

unfoldable pub is_terminal_text : Bytes → Bool
unfolding all_chars chars is_control
is_terminal_text text = all_chars is_terminal_char (chars text)

abbrev pub hex_digit : ℕ → ℕ
hex_digit d = if ltb d 10 then b'0' + d else b'a' + (d - 10)

-- `{byte:02x}` of each byte
hex : Bytes → Bytes
hex [] = []
hex (b ∷ bytes) = hex_digit (b / 16) ∷ hex_digit (b % 16) ∷ hex bytes

unfoldable pub format_bytes : Bytes → Bytes
unfolding is_utf8 is_terminal_text hex
format_bytes bytes =
    if is_utf8 bytes && is_terminal_text bytes then bytes else codes "0x" ++ hex bytes

-- `"  ".repeat(indent)`
abbrev pub prefix : ℕ → Bytes
prefix zero = []
prefix (suc indent) = b' ' ∷ b' ' ∷ prefix indent

unfoldable mutual
  unfolding format_bytes to_string int_to_string

  pub format_resp_lines : RespFrame → ℕ → List Bytes
  format_resp_lines (simple_string text) indent = (prefix indent ++ text) ∷ []
  format_resp_lines (error text) indent = (prefix indent ++ codes "(error) " ++ text) ∷ []
  format_resp_lines (integer number) indent =
      (prefix indent ++ codes "(integer) " ++ int_to_string number) ∷ []
  format_resp_lines (bulk_string bytes) indent = (prefix indent ++ format_bytes bytes) ∷ []
  format_resp_lines (array values) indent = format_values values 0 indent
  format_resp_lines null indent = (prefix indent ++ codes "(nil)") ∷ []

  -- The loop over the elements of an array, from the element at `index`.
  pub format_values : RespValues → ℕ → ℕ → List Bytes
  format_values nil index indent = []
  format_values (cons value values) index indent =
      (prefix indent ++ to_string (index + 1) ++ codes ")")
      ∷ (format_resp_lines value (indent + 1) ++ format_values values (index + 1) indent)

-- `join("\n")`
abbrev pub join_lines : List Bytes → Bytes
join_lines [] = []
join_lines (line ∷ []) = line
join_lines (line ∷ line' ∷ lines) = line ++ (b'\n' ∷ join_lines (line' ∷ lines))

unfoldable pub format_resp : RespFrame → Bytes
unfolding format_resp_lines
format_resp value = join_lines (format_resp_lines value 0)

-- What the network makes of a request: no connection, a failing write, or the reads that follow.
pub data Link : Type 0 where
  refused : Bytes → Link
  unwritten : Bytes → Link
  linked : List (Result Bytes Bytes) → Link

abbrev pub error_texts : ErrorTexts
error_texts = record {
  protocol = protocol_to_string;
  read = λ message. message;
  ended = codes "server closed connection before sending a complete RESP response";
}

abbrev parsed_response : Parse (RespFrame × ℕ) → Response RespFrame
parsed_response (Parser.ok (response, consumed)) = received response
parsed_response (Parser.err e) = failed (protocol_to_string e)
parsed_response Parser.panicked = Response.panicked
parsed_response Parser.out_of_fuel = Response.out_of_fuel

-- `parse_resp(&response_bytes)` and `print_resp` behind `read_response`
abbrev print_response : Received (RespFrame × ℕ) → Response (List Bytes)
print_response r = Response.and_then r.response λ _.
    Response.and_then (parsed_response (parse_resp r.buffer))
      λ response. received (format_resp_lines response 0)

abbrev exchange : Bytes → Link → Bytes × Response (List Bytes)
exchange request (refused message) = ([], failed message)
exchange request (unwritten message) = ([], failed message)
exchange request (linked stream) = (request, print_response (read_response error_texts stream []))

abbrev send_args : Link → Result Bytes (List Bytes) → Bytes × Response (List Bytes)
send_args link (ok args) = exchange (encode_command args) link
send_args link (err message) = ([], failed message)

-- The request that is sent, and the lines that are printed.
unfoldable pub run_one_shot : ClientCommand → Link → Bytes × Response (List Bytes)
unfolding into_args encode_command read_response parse_resp format_resp_lines protocol_to_string
run_one_shot command link = send_args link (into_args command)
