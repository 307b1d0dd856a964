-- ===== src/Core/Executor/Replies.antt =====
-- How the reply to an unknown command is read by a client.
use rustkv_lab.Prelude.{
  ℕ, ◌<◌, ◌≡◌, sym, ◌∙◌, ap, ◌∷◌, ◌++◌, append_assoc, arith, Bytes, length, drop, drop-append,
}
use rustkv_lab.Text.{codes}
use rustkv_lab.Protocol.Resp.{RespValue, error}
use rustkv_lab.Protocol.Encoder.{crlf, encode_resp}
use rustkv_lab.Protocol.Encoder.Wire.{wire, encode_resp-wire}
use rustkv_lab.Protocol.Parser.{ok, parse_resp}
use rustkv_lab.Protocol.Parser.RoundTrip.{IsWire, message_limit, parse_resp-encode_resp}
use rustkv_lab.Core.Error.{KvResult}
use rustkv_lab.Core.Time.{Clock, returned}
use rustkv_lab.Core.Command
use rustkv_lab.Core.Sharded.{ShardedDatabase}
use rustkv_lab.Core.Stats.{ServerStats, ServerStatsSnapshot}
use rustkv_lab.Core.Executor.{execute_command, dispatch}

split :
    (text more : Bytes)
    → encode_resp (error (text ++ (crlf ++ more))) ≡ encode_resp (error text) ++ (more ++ crlf)
unfolding wire
split text more =
    encode_resp-wire (error (text ++ (crlf ++ more)))
    ∙ ap (λ s. b'-' ∷ s)
        (ap (λ s. s ++ crlf) (sym (append_assoc text crlf more))
          ∙ append_assoc (text ++ crlf) more crlf)
    ∙ ap (λ s. s ++ (more ++ crlf)) (sym (encode_resp-wire (error text)))

-- The text of an error ends at its first line end; what follows is the next reply.
parse_resp-error :
    (text more : Bytes)
    → IsWire (error text)
    → length (encode_resp (error text)) < message_limit
    → parse_resp (encode_resp (error (text ++ (crlf ++ more))))
      ≡ ok (error text, length (encode_resp (error text)))
parse_resp-error text more w fits =
    ap parse_resp (split text more) ∙ parse_resp-encode_resp (error text) (more ++ crlf) w fits

left-error :
    (text more : Bytes)
    → drop (length (encode_resp (error text))) (encode_resp (error (text ++ (crlf ++ more))))
      ≡ more ++ crlf
left-error text more =
    ap (drop (length (encode_resp (error text)))) (split text more)
    ∙ drop-append (encode_resp (error text)) (more ++ crlf)

abbrev pub unknown_text : Bytes → Bytes
unknown_text name = codes "ERR unknown command '" ++ name

module _ (hash : Bytes → ℕ) (to_json_string : ServerStatsSnapshot → KvResult Bytes) where
  -- The reply to an unknown command whose name has a line end in it is read by a client as a
  -- shorter error, which ends at that line end; what stays in the client's buffer, where it begins
  -- to read the next reply, is the rest of the name with the closing mark. The part before is UTF-8
  -- without a line end, and its reply below 2^59 bytes.
  pub execute_command-unknown :
      (c : Clock) (db : ShardedDatabase) (stats : ServerStats) (name more : Bytes)
      (reply : RespValue)
      → (execute_command hash to_json_string c
          (Command.unknown (name ++ (crlf ++ more)))
          db
          stats).0
        ≡ returned reply
      → IsWire (error (unknown_text name))
      → length (encode_resp (error (unknown_text name))) < message_limit
      → (parse_resp (encode_resp reply)
          ≡ ok (error (unknown_text name), length (encode_resp (error (unknown_text name)))))
        × (drop (length (encode_resp (error (unknown_text name)))) (encode_resp reply)
            ≡ more ++ (codes "'" ++ crlf))
  unfolding execute_command dispatch
  execute_command-unknown c db stats name more reply e w fits =
      let same : reply ≡ error ((unknown_text (name ++ (crlf ++ more))) ++ codes "'") =
        ground (arith, e) in
      let texts : (unknown_text (name ++ (crlf ++ more))) ++ codes "'"
          ≡ unknown_text name ++ (crlf ++ (more ++ codes "'")) =
        ap (λ t. unknown_text t) (append_assoc name (crlf ++ more) (codes "'")) in
      let forged = same ∙ ap error texts in
      (
        ap (λ r. parse_resp (encode_resp r)) forged
            ∙ parse_resp-error (unknown_text name) (more ++ codes "'") w fits,
        ap (λ r. drop (length (encode_resp (error (unknown_text name)))) (encode_resp r)) forged
            ∙ left-error (unknown_text name) (more ++ codes "'")
            ∙ append_assoc more (codes "'") crlf,
      )
