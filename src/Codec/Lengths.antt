-- ===== src/Codec/Lengths.antt =====
-- The length-prefixed byte strings and structures of crates/daphne/src/messages/mod.rs:
-- `encode_u16_bytes` to `decode_u32_bytes`, `make_encode_len_prefixed` and `decode_u16_prefixed`.
pub mod RoundTrip
use daphne.Common.{ℕ, ◌+◌, ◌-◌, ◌^◌, ◌++◌, ltb, length, take, drop, if◌then◌else◌}
use daphne.Codec.Base.{
  Bytes, Result, ok, err, panic, length_prefix_too_big, bytes_left_over, Cursor, Writer, Reader,
  ◌>>◌, done, ◌>>=◌, extend, read_exact, usize_end,
}
use daphne.Codec.Prio.{Prio, to_be_bytes, at_body}

-- The length of what was written goes over the placeholder at `len_offset`. `try_into().unwrap()`
-- panics if the length does not fit the prefix.
fill_length : ℕ → ℕ → Bytes → Result Bytes
fill_length size len_offset bytes =
    let len = length bytes - len_offset - size in
    if ltb (length bytes) (len_offset + size)
    then panic
    else if ltb len (256 ^ size)
    then ok (take len_offset bytes ++ (to_be_bytes size len ++ drop (len_offset + size) bytes))
    else panic

-- After the inner decoder: nothing may be left of the `len` bytes.
close_inner : {O : Type 0} → ℕ → Cursor → O → Cursor → Result (O × Cursor)
close_inner len c decoded inner =
    if ltb len inner.position
    then panic
    else if ltb 0 (len - inner.position)
    then err (bytes_left_over (len - inner.position))
    else ok (decoded, record { position = c.position + len; rest = drop len c.rest })

-- `checked_add` fails beyond `usize`; the slice `[item_start..item_end]` panics past the end.
read_inner : {O : Type 0} → (ℕ → Reader O) → ℕ → Reader O
unfolding close_inner
read_inner d len c =
    if ltb (c.position + len) usize_end
    then if ltb (length c.rest) len
      then panic
      else (d len >>= close_inner len c) (at_body (take len c.rest))
    else err (length_prefix_too_big len)

module _ (p : Prio) where
  -- `encode_u16_bytes` (size 2) and `encode_u32_bytes` (size 4)
  encode_bytes : ℕ → Bytes → Writer
  encode_bytes size input bytes =
      if ltb (length input) (256 ^ size)
      then (p.encode_uint size (length input) >> extend input >> done) bytes
      else err (length_prefix_too_big (length input))

  -- `decode_u16_bytes` (size 2) and `decode_u32_bytes` (size 4)
  decode_bytes : ℕ → Reader Bytes
  decode_bytes size = do len ← p.decode_uint size; read_exact len

  unfoldable pub encode_u16_bytes : Bytes → Writer
  unfolding encode_bytes
  encode_u16_bytes = encode_bytes 2

  unfoldable pub decode_u16_bytes : Reader Bytes
  unfolding decode_bytes
  decode_u16_bytes = decode_bytes 2

  unfoldable pub encode_u32_bytes : Bytes → Writer
  unfolding encode_bytes
  encode_u32_bytes = encode_bytes 4

  unfoldable pub decode_u32_bytes : Reader Bytes
  unfolding decode_bytes
  decode_u32_bytes = decode_bytes 4

  unfoldable pub encode_prefixed : ℕ → Writer → Writer
  unfolding fill_length ◌>>◌
  encode_prefixed size e bytes =
      (p.encode_uint size 0 >> e >> fill_length size (length bytes)) bytes

  abbrev pub encode_u16_prefixed : Writer → Writer
  encode_u16_prefixed = encode_prefixed 2

  abbrev pub encode_u32_prefixed : Writer → Writer
  encode_u32_prefixed = encode_prefixed 4

  unfoldable pub decode_u16_prefixed : {O : Type 0} → (ℕ → Reader O) → Reader O
  unfolding read_inner
  decode_u16_prefixed d = do len ← p.decode_uint 2; read_inner d len
