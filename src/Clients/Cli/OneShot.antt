-- ===== src/Clients/Cli/OneShot.antt =====
-- A subcommand and the server: the server runs the command that is meant, and its reply is printed.
use rustkv_lab.Prelude.{ℕ, ◌<◌, ◌≡◌, ap, ◌∙◌, List, [], append-nil, Bytes, length, ok}
use rustkv_lab.Protocol.Resp.{RespFrame, RespValue}
use rustkv_lab.Protocol.Encoder.{encode_resp}
use rustkv_lab.Protocol.Parser
use rustkv_lab.Protocol.Parser.{parse_resp}
use rustkv_lab.Protocol.Parser.RoundTrip.{IsWire, message_limit, parse_resp-encode_resp}
use rustkv_lab.Core.Error.{KvResult}
use rustkv_lab.Core.Command.{Command}
use rustkv_lab.Core.Stats.{ServerStatsSnapshot}
use rustkv_lab.Server.Aof.Frames.{ReadsBack}
use rustkv_lab.Server.Client.{
  Server, Reading, reply, command, parse_command, handle_command, handle_frame,
}
use rustkv_lab.Server.Connection.Chunks.{reads_of, bytes_of}
use rustkv_lab.Clients.Response.{received, encode_command}
use rustkv_lab.Clients.Response.Arrives.{read_response-Arrived}
use rustkv_lab.Clients.Cli.{
  ClientCommand, into_args, format_resp_lines, linked, error_texts, run_one_shot,
}
use rustkv_lab.Clients.Cli.Requests.{intended, IsTyped, into_args-ReadsBack}

pub run_one_shot-prints :
    (c : ClientCommand) (args : List Bytes) (chunks : List (ℕ × Bytes)) (v : RespFrame) (n : ℕ)
    → into_args c ≡ ok args
    → parse_resp (bytes_of chunks) ≡ Parser.ok (v, n)
    → run_one_shot c (linked (reads_of chunks))
      ≡ (encode_command args, received (format_resp_lines v 0))
unfolding run_one_shot
run_one_shot-prints c args chunks v n e p =
    let a = read_response-Arrived error_texts chunks [] v n p in rw (e, a.response, a.alone)

-- A frame of one command, and nothing behind it.
pub parse_command_of :
    (cmd : Command) (frame : Bytes) → ReadsBack cmd frame [] → parse_command frame ≡ command cmd
unfolding parse_command
parse_command_of cmd frame back = let (v, parsed, read) = back in rw (rw append-nil at parsed, read)

module _ (hash : Bytes → ℕ) (to_json_string : ServerStatsSnapshot → KvResult Bytes) where
  pub handle_frame_of :
      (now : Reading) (cmd : Command) (frame : Bytes) (s : Server)
      → ReadsBack cmd frame []
      → handle_frame hash to_json_string now frame s ≡ handle_command hash to_json_string now cmd s
  unfolding handle_frame
  handle_frame_of now cmd frame s back = rw (parse_command_of cmd frame back)

  -- A typed command of the command-line client, its texts UTF-8 and its numbers below 2^64, that
  -- the client turns into arguments with a frame below 2^59 bytes: the server that receives the
  -- frame does what it does for the command that is meant; and where its reply is a value that the
  -- wire can carry, with an encoding below 2^59 bytes, the client that receives the encoding,
  -- however the socket cuts it, prints the lines of that reply.
  pub run_one_shot_served :
      (c : ClientCommand) (args : List Bytes) (now : Reading) (s s' : Server) (value : RespValue)
      (chunks : List (ℕ × Bytes))
      → IsTyped c
      → into_args c ≡ ok args
      → length (encode_command args) < message_limit
      → handle_command hash to_json_string now (intended c) s ≡ (reply value, s')
      → IsWire value
      → length (encode_resp value) < message_limit
      → bytes_of chunks ≡ encode_resp value
      → (handle_frame hash to_json_string now (encode_command args) s ≡ (reply value, s'))
        × (run_one_shot c (linked (reads_of chunks))
            ≡ (encode_command args, received (format_resp_lines value 0)))
  run_one_shot_served c args now s s' value chunks typed e fits served wire fits' sent = (
    handle_frame_of now (intended c) (encode_command args) s
          (into_args-ReadsBack c args [] typed e fits)
        ∙ served,
    run_one_shot-prints c args chunks value (length (encode_resp value)) e
        (ap parse_resp sent ∙ rw append-nil at (parse_resp-encode_resp value [] wire fits')),
  )
