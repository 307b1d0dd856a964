-- ===== src/Clients/Response/Arrives.antt =====
-- A response that the server sends is read, however the socket cuts it.
use rustkv_lab.Prelude.{
  ℕ, ◌≡◌, sym, subst, ap, ◌∙◌, inl, inr, List, [], ◌∷◌, ◌++◌, append_assoc, append-nil, Bytes, drop,
  drop-append_le, refl,
}
use rustkv_lab.Protocol.{incomplete}
use rustkv_lab.Protocol.Resp.{RespFrame}
use rustkv_lab.Protocol.Parser
use rustkv_lab.Protocol.Parser.{Parse, parse_resp}
use rustkv_lab.Protocol.Parser.Decides.{parse_resp-append, parse_resp-front, incomplete_or_not}
use rustkv_lab.Server.Connection.Chunks.{reads_of, bytes_of}
use rustkv_lab.Clients.Response.{received, failed, Received, ErrorTexts, or_read_on, read_response}

-- The frame `v` of `n` bytes was read from the front of `all`; the rest is in the buffer, or still
-- to be read.
pub record Arrived (v : RespFrame) (n : ℕ) (all : Bytes) (r : Received (RespFrame × ℕ))
    : Type 0 where
  pub response : r.response ≡ received (v, n)
  pub alone : parse_resp r.buffer ≡ Parser.ok (v, n)
  pub unread : List (ℕ × Bytes)
  pub left : r.stream ≡ reads_of unread
  pub rest : drop n r.buffer ++ bytes_of unread ≡ drop n all

module _ (texts : ErrorTexts) where
  whole :
      (chunks : List (ℕ × Bytes)) (buffer : Bytes) (v : RespFrame) (n : ℕ)
      (next : Received (RespFrame × ℕ))
      → parse_resp buffer ≡ Parser.ok (v, n)
      → Arrived v n
          (buffer ++ bytes_of chunks)
          (or_read_on texts next (reads_of chunks) buffer (parse_resp buffer))
  whole chunks buffer v n next e =
      let (some_byte, within, alone) = parse_resp-front buffer v n e in
      rw e (record {
        response = refl;
        alone = e;
        unread = chunks;
        left = refl;
        rest = sym (drop-append_le n buffer (bytes_of chunks) within);
      })

  -- If the bytes that are buffered and still to come begin with a frame, `read_response` returns it,
  -- and what follows the frame is kept.
  pub read_response-Arrived :
      (chunks : List (ℕ × Bytes)) (buffer : Bytes) (v : RespFrame) (n : ℕ)
      → parse_resp (buffer ++ bytes_of chunks) ≡ Parser.ok (v, n)
      → Arrived v n (buffer ++ bytes_of chunks) (read_response texts (reads_of chunks) buffer)
  unfolding read_response
  read_response-Arrived [] buffer v n e = whole [] buffer v n _ (rw append-nil at e)
  read_response-Arrived ((b, chunk) ∷ chunks) buffer v n e =
      let joined = append_assoc buffer (b ∷ chunk) (bytes_of chunks) in
      elim (incomplete_or_not (parse_resp buffer)) [
        | inl h ↦ rw h (
            subst
              (λ all.
                Arrived v n all (read_response texts (reads_of chunks) (buffer ++ (b ∷ chunk))))
              joined
              (read_response-Arrived chunks (buffer ++ (b ∷ chunk)) v n (ap parse_resp joined ∙ e)))
        | inr h ↦
            whole ((b, chunk) ∷ chunks) buffer v n _
              (sym (parse_resp-append buffer (bytes_of ((b, chunk) ∷ chunks)) h) ∙ e)
      ]

  -- The socket's end finds no whole frame: what was read is dropped with an error.
  pub read_response_ends :
      (chunks : List (ℕ × Bytes)) (buffer : Bytes)
      → parse_resp (buffer ++ bytes_of chunks) ≡ Parser.err incomplete
      → (read_response texts (reads_of chunks) buffer).response ≡ failed texts.ended
  unfolding read_response
  read_response_ends [] buffer e = rw (rw append-nil at e)
  read_response_ends ((b, chunk) ∷ chunks) buffer e =
      let joined = append_assoc buffer (b ∷ chunk) (bytes_of chunks) in
      elim (incomplete_or_not (parse_resp buffer)) [
        | inl h ↦
            rw h (read_response_ends chunks (buffer ++ (b ∷ chunk)) (ap parse_resp joined ∙ e))
        | inr h ↦ absurd (h (sym (parse_resp-append buffer (bytes_of ((b, chunk) ∷ chunks)) h) ∙ e))
      ]
