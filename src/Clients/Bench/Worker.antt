-- ===== src/Clients/Bench/Worker.antt =====
-- A worker whose requests are all answered completes them all.
use rustkv_lab.Prelude.{
  ℕ, zero, suc, ◌+◌, ◌<◌, ◌≡◌, refl, sym, ap, ◌∙◌, none, List, [], ◌∷◌, ◌++◌, append_assoc,
  append-nil, arith, All, Bytes, length, drop, drop-append,
}
use rustkv_lab.Protocol.Resp.{RespFrame, RespValue}
use rustkv_lab.Protocol.Encoder.{encode_resp}
use rustkv_lab.Protocol.Parser
use rustkv_lab.Protocol.Parser.{parse_resp}
use rustkv_lab.Protocol.Parser.RoundTrip.{IsWire, message_limit, parse_resp-encode_resp}
use rustkv_lab.Server.Connection.Chunks.{reads_of, bytes_of}
use rustkv_lab.Clients.Response.{received, encode_command, read_response}
use rustkv_lab.Clients.Response.Arrives.{read_response-Arrived}
use rustkv_lab.Clients.Bench.{
  BenchCommand, BenchConnection, WorkerStats, Worked, Sent, error_texts, server_error, receive,
  send_command, command_args, counted, after_request, run_requests, run_worker, no_stats,
}

abbrev pub at_reads : List (ℕ × Bytes) → Bytes → Bytes → BenchConnection
at_reads chunks buffer sent = record {
  stream = reads_of chunks;
  buffer = buffer;
  writes = [];
  sent = sent;
}

-- A response that is no error was read; what follows it stands in the buffer and the reads.
record Accepted (rest sent : Bytes) (r : Sent) : Type 0 where
  unread : List (ℕ × Bytes)
  buffer : Bytes
  accepted : r ≡ (received tt, at_reads unread buffer sent)
  rest_of : buffer ++ bytes_of unread ≡ rest

receive-Accepted :
    (chunks : List (ℕ × Bytes)) (buffer sent : Bytes) (v : RespFrame) (n : ℕ)
    → parse_resp (buffer ++ bytes_of chunks) ≡ Parser.ok (v, n)
    → server_error v ≡ none
    → Accepted (drop n (buffer ++ bytes_of chunks)) sent (receive (at_reads chunks buffer sent))
unfolding receive
receive-Accepted chunks buffer sent v n e fine =
    let a = read_response-Arrived error_texts chunks buffer v n e in
    let r = read_response error_texts (reads_of chunks) buffer in
    rw (a.response, fine)
      (record {
        unread = a.unread;
        buffer = drop n r.buffer;
        accepted = rw a.left refl;
        rest_of = a.rest;
      })

send_command-Accepted :
    (args : List Bytes) (chunks : List (ℕ × Bytes)) (buffer sent : Bytes) (v : RespFrame) (n : ℕ)
    → parse_resp (buffer ++ bytes_of chunks) ≡ Parser.ok (v, n)
    → server_error v ≡ none
    → Accepted
        (drop n (buffer ++ bytes_of chunks))
        (sent ++ encode_command args)
        (send_command args (at_reads chunks buffer sent))
unfolding send_command
send_command-Accepted args chunks buffer sent =
    receive-Accepted chunks buffer (sent ++ encode_command args)

-- The server's replies, and what it sends behind them.
abbrev pub replies : List RespValue → Bytes → Bytes
replies [] rest = rest
replies (v ∷ vs) rest = encode_resp v ++ replies vs rest

-- A reply that the wire carries and that is no error.
abbrev pub IsFine : RespValue → Type 0
IsFine v = IsWire v × ((length (encode_resp v) < message_limit) × (server_error v ≡ none))

-- The bytes of the requests from `sequence`.
abbrev pub requests_from : BenchCommand → ℕ → ℕ → ℕ → Bytes
requests_from command client_id zero sequence = []
requests_from command client_id (suc left) sequence =
    encode_command (command_args command client_id sequence)
    ++ requests_from command client_id left (sequence + 1)

-- All requests were sent and answered.
pub record Completed (completed : ℕ) (sent rest : Bytes) (r : Worked) : Type 0 where
  pub stats : WorkerStats
  pub returned : r.0 ≡ received stats
  pub all : stats.completed ≡ completed
  pub written : r.1.sent ≡ sent
  pub unread : List (ℕ × Bytes)
  pub left : (r.1.stream ≡ reads_of unread) × (r.1.buffer ++ bytes_of unread ≡ rest)

same_Completed :
    (c c' : ℕ) (sent sent' rest : Bytes) (r : Worked)
    → c ≡ c'
    → sent ≡ sent'
    → Completed c sent rest r
    → Completed c' sent' rest r
same_Completed c c' sent sent' rest r e f i = record {
  stats = i.stats;
  returned = i.returned;
  all = i.all ∙ e;
  written = i.written ∙ f;
  unread = i.unread;
  left = i.left;
}

module _ (command : BenchCommand) (client_id : ℕ) (elapsed : ℕ → ℕ) where
  -- One round of the loop.
  run_requests_step :
      (left sequence : ℕ) (stats : WorkerStats) (connection : BenchConnection)
      → run_requests command client_id elapsed (suc left) sequence stats connection
        ≡ after_request
            (run_requests command client_id elapsed left
              (sequence + 1)
              (counted (elapsed sequence) stats))
            (send_command (command_args command client_id sequence) connection)
  unfolding run_requests
  run_requests_step left sequence stats connection = refl

  run_requests-Completed :
      (values : List RespValue) (sequence : ℕ) (stats : WorkerStats) (chunks : List (ℕ × Bytes))
      (buffer sent rest : Bytes)
      → All IsFine values
      → buffer ++ bytes_of chunks ≡ replies values rest
      → Completed
          (stats.completed + length values)
          (sent ++ requests_from command client_id (length values) sequence)
          rest
          (run_requests command client_id elapsed
            (length values)
            sequence
            stats
            (at_reads chunks buffer sent))
  run_requests-Completed [] sequence stats chunks buffer sent rest fine e =
      unfold run_requests in
      record {
        stats = stats;
        returned = refl;
        all = omega arith;
        written = sym (append-nil sent);
        unread = chunks;
        left = (refl, e);
      }
  run_requests-Completed (v ∷ vs) sequence stats chunks buffer sent rest fine e =
      let ((wire, (fits, none_of)), more) = fine in
      let args = command_args command client_id sequence in
      let parsed = ap parse_resp e ∙ parse_resp-encode_resp v (replies vs rest) wire fits in
      let a =
        send_command-Accepted args chunks buffer sent v (length (encode_resp v)) parsed none_of in
      let at_rest =
        a.rest_of
        ∙ ap (drop (length (encode_resp v))) e
        ∙ drop-append (encode_resp v) (replies vs rest) in
      let next = counted (elapsed sequence) stats in
      let i =
        run_requests-Completed vs (sequence + 1) next a.unread a.buffer
          (sent ++ encode_command args) rest more at_rest in
      rw (run_requests_step (length vs) sequence stats (at_reads chunks buffer sent), a.accepted)
        (same_Completed (next.completed + length vs) (stats.completed + suc (length vs)) _ _ rest _
          (omega arith)
          (append_assoc sent (encode_command args)
            (requests_from command client_id (length vs) (sequence + 1)))
          i)

  -- If the socket brings a reply for each request, none an error, each a value that the wire can
  -- carry with an encoding below 2^59 bytes, cut in any way, a worker of the benchmark completes
  -- all its requests, sends their frames in order, and leaves what comes behind the replies.
  pub run_worker-Completed :
      (values : List RespValue) (chunks : List (ℕ × Bytes)) (rest : Bytes)
      → All IsFine values
      → bytes_of chunks ≡ replies values rest
      → Completed
          (length values)
          (requests_from command client_id (length values) 0)
          rest
          (run_worker command client_id elapsed (length values) (at_reads chunks [] []))
  unfolding run_worker
  run_worker-Completed values chunks rest fine e =
      same_Completed (0 + length values) (length values) _ _ rest _ (omega arith) refl
        (run_requests-Completed values 0 no_stats chunks [] [] rest fine e)
