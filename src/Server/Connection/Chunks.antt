-- ===== src/Server/Connection/Chunks.antt =====
-- How the socket cuts the bytes into reads decides nothing.
use rustkv_lab.Prelude.{
  ℕ, ◌≤◌, ◌≡◌, sym, subst, ap, ◌∙◌, inl, inr, false, ltb, List, [], ◌∷◌, ◌++◌, append_assoc,
  append-nil, arith, Bytes, length, length-append, take, drop, take-append_le, drop-append_le,
  Result, ok,
}
use rustkv_lab.Protocol.Resp.{RespFrame}
use rustkv_lab.Protocol.Parser
use rustkv_lab.Protocol.Parser.{Parse, parse_resp}
use rustkv_lab.Protocol.Parser.Decides.{parse_resp-append, parse_resp-front, incomplete_or_not}
use rustkv_lab.Server.Connection.{
  Connection, ReadValue, frame, split_frame, connection, read_loop, read_value,
}

-- The reads that return these bytes.
abbrev pub reads_of : List (ℕ × Bytes) → List (Result Bytes Bytes)
reads_of [] = []
reads_of ((b, chunk) ∷ chunks) = ok (b ∷ chunk) ∷ reads_of chunks

abbrev pub bytes_of : List (ℕ × Bytes) → Bytes
bytes_of [] = []
bytes_of ((b, chunk) ∷ chunks) = (b ∷ chunk) ++ bytes_of chunks

-- The frame was taken from the front of `all`; the rest is in the buffer, or still to be read.
pub record TookFront (n max : ℕ) (sent all : Bytes) (r : ReadValue × Connection) : Type 0 where
  pub answer : r.0 ≡ frame (take n all)
  pub unread : List (ℕ × Bytes)
  pub left : r.1.stream ≡ reads_of unread
  pub rest : r.1.buffer ++ bytes_of unread ≡ drop n all
  pub same : (r.1.max_frame_size ≡ max) × (r.1.sent ≡ sent)

ltb-false : (max n : ℕ) → n ≤ max → ltb max n ≡ false
ltb-false max n h = ground arith

module _ (max : ℕ) (sent : Bytes) where
  abbrev Buffered : List (ℕ × Bytes) → Bytes → Connection
  Buffered chunks buffer = record {
    stream = reads_of chunks;
    buffer = buffer;
    max_frame_size = max;
    sent = sent;
  }

  whole :
      (chunks : List (ℕ × Bytes)) (buffer : Bytes) (v : RespFrame) (n : ℕ)
      (next : ReadValue × Connection)
      → parse_resp buffer ≡ Parser.ok (v, n)
      → length buffer ≤ max
      → TookFront n max sent
          (buffer ++ bytes_of chunks)
          (split_frame next (Buffered chunks buffer) (parse_resp buffer))
  whole chunks buffer v n next e fits =
      let (some_byte, within, alone) = parse_resp-front buffer v n e in
      rw e (record {
        answer = ground (arith, take-append_le n buffer (bytes_of chunks) within);
        unread = chunks;
        left = ground arith;
        rest = ground (arith, drop-append_le n buffer (bytes_of chunks) within);
        same = ground arith;
      })

  by_same_bytes :
      (n : ℕ) (all all' : Bytes) (r : ReadValue × Connection)
      → all' ≡ all
      → TookFront n max sent all' r
      → TookFront n max sent all r
  by_same_bytes n all all' r e t = subst (λ bytes. TookFront n max sent bytes r) e t

  read_loop-TookFront :
      (chunks : List (ℕ × Bytes)) (buffer : Bytes) (v : RespFrame) (n : ℕ)
      → parse_resp (buffer ++ bytes_of chunks) ≡ Parser.ok (v, n)
      → length (buffer ++ bytes_of chunks) ≤ max
      → TookFront n max sent
          (buffer ++ bytes_of chunks)
          (read_loop (reads_of chunks) buffer max sent)
  unfolding read_loop
  read_loop-TookFront [] buffer v n e fits =
      whole [] buffer v n _ (rw append-nil at e) (omega (arith, length-append {A = ℕ} buffer []))
  read_loop-TookFront ((b, chunk) ∷ chunks) buffer v n e fits =
      let joined = append_assoc buffer (b ∷ chunk) (bytes_of chunks) in
      let size = length-append buffer (bytes_of ((b, chunk) ∷ chunks)) in
      let size' = length-append (buffer ++ (b ∷ chunk)) (bytes_of chunks) in
      elim (incomplete_or_not (parse_resp buffer)) [
        | inl h ↦
            rw
              (
                h,
                ltb-false max (length buffer) (omega arith),
                ltb-false max (length (buffer ++ (b ∷ chunk))) (omega (arith, ap length joined)),
              )
              (by_same_bytes n _ _ _ joined (
                read_loop-TookFront chunks (buffer ++ (b ∷ chunk)) v n (ap parse_resp joined ∙ e)
                  (omega (arith, ap length joined))))
        | inr h ↦
            whole ((b, chunk) ∷ chunks) buffer v n _
              (sym (parse_resp-append buffer (bytes_of ((b, chunk) ∷ chunks)) h) ∙ e) (omega arith)
      ]

-- If the bytes that are buffered and still to come begin with a frame, and there are at most as
-- many as the maximum frame size, then `read_value` returns the bytes of that frame, and keeps what
-- follows for the next, however the socket cuts the bytes.
pub read_value-TookFront :
    (chunks : List (ℕ × Bytes)) (buffer sent : Bytes) (max n : ℕ) (v : RespFrame)
    → parse_resp (buffer ++ bytes_of chunks) ≡ Parser.ok (v, n)
    → length (buffer ++ bytes_of chunks) ≤ max
    → TookFront n max sent
        (buffer ++ bytes_of chunks)
        (read_value (connection (reads_of chunks) buffer max sent))
unfolding read_value
read_value-TookFront chunks buffer sent max n v = read_loop-TookFront max sent chunks buffer v n
