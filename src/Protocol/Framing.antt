-- ===== src/Protocol/Framing.antt =====
-- The ping-pong message framing of crates/daphne/src/protocol/aggregator.rs.
pub mod Exact
use daphne.Common.{ℕ, ◌+◌, ◌-◌, ◌%◌, ◌==◌, ltb, if◌then◌else◌, ◌∷◌, [], length, drop}
use daphne.Codec.Base.{
  Bytes, Result, ok, err, panic, unexpected_value, length_prefix_too_big, bytes_left_over, Cursor,
  Reader, Writer, ◌>>=◌, fail, usize_end,
}
use daphne.Codec.Prio.{Prio, at_body}
use daphne.Codec.Lengths.{encode_u32_bytes}

-- Only one round is supported, so there is no "continue".
pub data PingPongMessageType : Type 0 where
  initialize finish : PingPongMessageType

abbrev pub message_code : PingPongMessageType → ℕ
message_code initialize = 0
message_code finish = 2

-- Subtraction wraps.
abbrev usize_sub : ℕ → ℕ → ℕ
usize_sub a b = (a + usize_end - b) % usize_end

-- `Ok(&bytes[message_start..])`, behind the comparisons of the length.
frame_rest : Bytes → ℕ → Reader Bytes
frame_rest bytes message_len r =
    let available = usize_sub (length bytes) r.position in
    if ltb available message_len
    then err (length_prefix_too_big message_len)
    else if ltb message_len available
    then err (bytes_left_over message_len)
    else if ltb (length bytes) r.position
    then panic
    else ok (drop r.position bytes, r)

abbrev value : {A : Type 0} → Result (A × Cursor) → Result A
value (ok (a, c)) = ok a
value (err e) = err e
value panic = panic

module _ (p : Prio) where
  -- Behind the message type.
  frame_body : Bytes → PingPongMessageType → ℕ → Reader Bytes
  unfolding frame_rest
  frame_body bytes expected_type message_type =
      if message_type == message_code expected_type
      then (do message_len ← p.decode_uint 4; frame_rest bytes message_len)
      else fail unexpected_value

  unfoldable pub decode_ping_pong_framed : Bytes → PingPongMessageType → Result Bytes
  unfolding frame_body
  decode_ping_pong_framed bytes expected_type =
      value ((p.decode_uint 1 >>= frame_body bytes expected_type) (at_body bytes))

  -- How the code writes a frame: `push` of the type, and the message behind its length.
  unfoldable pub encode_ping_pong_framed : PingPongMessageType → Bytes → Result Bytes
  encode_ping_pong_framed typ message = encode_u32_bytes p message (message_code typ ∷ [])
