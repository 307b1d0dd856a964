-- ===== src/Protocol.antt =====
-- crates/rustkv-protocol: the RESP values, the encoder and the parser. This file is `lib.rs`.
pub mod Resp
pub mod Encoder
pub mod Parser
use rustkv_lab.Prelude.{ℕ, Bytes}

pub data ProtocolError : Type 0 where
  incomplete : ProtocolError
  invalid_type_byte : ℕ → ProtocolError
  invalid_integer : ProtocolError
  invalid_utf8 : ProtocolError
  invalid_format : Bytes → ProtocolError
