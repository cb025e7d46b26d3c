-- ===== src/Codec/Base.antt =====
-- Results of the codec layer, `std::io::Cursor` and the two directions of a codec. A writer takes
-- the bytes of the `Vec<u8>` so far and returns them extended; a reader takes a cursor and returns
-- the value with the advanced cursor.
use daphne.Common.{ℕ, ◌+◌, ◌^◌, List, ◌++◌, ltb, length, take, drop, if◌then◌else◌}

abbrev pub Bytes : Type 0
Bytes = List ℕ

-- `prio::codec::CodecError`, by the variants that the code builds or meets.
pub data CodecError : Type 0 where
  io other unexpected_value : CodecError
  bytes_left_over length_prefix_too_big : ℕ → CodecError

-- A codec call returns, fails with a `CodecError`, or panics.
pub data Result {ℓ} (A : Type ℓ) : Type ℓ where
  ok : A → Result A
  err : CodecError → Result A
  panic : Result A

-- `position()`, and the bytes of `get_ref()` from there on. Nothing reads the bytes before it.
pub record Cursor : Type 0 where
  pub position : ℕ
  pub rest : Bytes

-- A Rust buffer holds less than `isize::MAX + 1` bytes, on a target with 64-bit addresses.
abbrev pub isize_end : ℕ
isize_end = 2 ^ 63

abbrev pub usize_end : ℕ
usize_end = 2 ^ 64

abbrev pub Writer : Type 0
Writer = Bytes → Result Bytes

abbrev pub Reader : Type 0 → Type 0
Reader A = Cursor → Result (A × Cursor)

infixr 5 ◌>>◌
unfoldable pub ◌>>◌ : Writer → Writer → Writer
◌>>◌ w k bytes = elim (w bytes) [ ok b ↦ k b | err e ↦ err e | panic ↦ panic ]

-- `Ok(())` at the end of an encoder.
unfoldable pub done : Writer
done bytes = ok bytes

infixl 5 ◌>>=◌
unfoldable pub ◌>>=◌ : {A B : Type 0} → Reader A → (A → Reader B) → Reader B
◌>>=◌ r k c = elim (r c) [ ok (a, c') ↦ k a c' | err e ↦ err e | panic ↦ panic ]

unfoldable pub pure : {A : Type 0} → A → Reader A
pure a c = ok (a, c)

unfoldable pub fail : {A : Type 0} → CodecError → Reader A
fail e c = err e

-- `bytes.extend_from_slice(s)`
unfoldable pub extend : Bytes → Writer
extend s bytes = ok (bytes ++ s)

-- `read_exact` into a buffer of `n` bytes
unfoldable pub read_exact : ℕ → Reader Bytes
read_exact n c =
    if ltb (length c.rest) n
    then err io
    else ok (take n c.rest, record { position = c.position + n; rest = drop n c.rest })
