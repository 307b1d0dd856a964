-- ===== src/Clients/Monitor/Fetch.antt =====
-- `fetch_metrics`: one connection, one INFO, one response.
pub mod Fetched
use rustkv_lab.Prelude.{
  ℕ, ◌+◌, ◌-◌, ◌/◌, ◌%◌, Bool, true, false, Option, none, some, String, List, [], ◌∷◌, ◌++◌, map,
  Bytes, ltb, ◌==◌, if◌then◌else◌, Result, ok, err, map_err, ◌>>=◌,
}
use rustkv_lab.Text.{codes}
use rustkv_lab.Text.Decimal.{to_string}
use rustkv_lab.Protocol.Resp.{RespFrame, simple_string, error, integer, bulk_string, array, null}
use rustkv_lab.Protocol.Parser
use rustkv_lab.Protocol.Parser.{Parse, parse_resp}
use rustkv_lab.Core.Time.{as_secs}
use rustkv_lab.Core.Executor.{protocol_to_string}
use rustkv_lab.Clients.Response.{
  Response, received, failed, panicked, out_of_fuel, and_then, Received, ErrorTexts, read_response,
  encode_command,
}
use rustkv_lab.Clients.Monitor.{Metrics, SerdeJson, parse_metrics}

-- A read that takes two seconds is given up: `none`.
abbrev pub read_error : Option Bytes → Bytes
read_error none = codes "read timed out"
read_error (some message) = codes "read failed: " ++ message

abbrev pub error_texts : ErrorTexts
error_texts = record {
  protocol = λ e. codes "protocol error: " ++ protocol_to_string e;
  read = λ message. message;
  ended = codes "server closed connection before a complete response arrived";
}

-- What the network makes of a request.
pub data Link : Type 0 where
  timed_out : Link
  refused : Bytes → Link
  unwritten : Bytes → Link
  unflushed : Bytes → Link
  linked : List (Result (Option Bytes) Bytes) → Link

abbrev pub reads : List (Result (Option Bytes) Bytes) → List (Result Bytes Bytes)
reads = map (map_err read_error)

unfoldable pub encode_info_command : Bytes
unfolding encode_command
encode_info_command = encode_command (codes "INFO" ∷ [])

abbrev lift : {A : Type 0} → Result Bytes A → Response A
lift (ok a) = received a
lift (err message) = failed message

module _ (serde : SerdeJson) (debug : RespFrame → Bytes) where
  abbrev pub metrics_in : RespFrame → Response Metrics
  metrics_in (bulk_string bytes) = lift (parse_metrics serde bytes)
  metrics_in (simple_string text) = lift (parse_metrics serde text)
  metrics_in (error text) = failed (codes "server returned error: " ++ text)
  metrics_in (integer n) = failed (codes "unexpected INFO response: " ++ debug (integer n))
  metrics_in (array values) = failed (codes "unexpected INFO response: " ++ debug (array values))
  metrics_in null = failed (codes "unexpected INFO response: " ++ debug null)

  -- `parse_resp(&response)`, and the `match` on its value.
  abbrev in_response : Parse (RespFrame × ℕ) → Response Metrics
  in_response (Parser.ok (value, consumed)) = metrics_in value
  in_response (Parser.err e) = failed (codes "parse failed: " ++ protocol_to_string e)
  in_response Parser.panicked = panicked
  in_response Parser.out_of_fuel = out_of_fuel

  abbrev of_response : Received (RespFrame × ℕ) → Response Metrics
  of_response r = and_then r.response λ frame. in_response (parse_resp r.buffer)

  unfoldable pub fetch_metrics : Link → Response Metrics
  unfolding parse_metrics read_response parse_resp protocol_to_string
  fetch_metrics timed_out = failed (codes "connection timed out")
  fetch_metrics (refused message) = failed (codes "connect failed: " ++ message)
  fetch_metrics (unwritten message) = failed (codes "write failed: " ++ message)
  fetch_metrics (unflushed message) = failed (codes "flush failed: " ++ message)
  fetch_metrics (linked stream) = of_response (read_response error_texts (reads stream) [])
