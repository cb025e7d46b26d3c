-- ===== src/Codec/Prio.antt =====
-- What the code takes from the crate `prio::codec` (not part of the repository): the big-endian
-- integers and the length-prefixed vectors of the TLS presentation language, with the laws that
-- its documentation states.
use daphne.Common.{ℕ, zero, suc, ◌+◌, ◌/◌, ◌%◌, ◌^◌, ◌<◌, ◌≡◌, List, [], ◌∷◌, ◌++◌, length}
use daphne.Codec.Base.{Bytes, CodecError, Result, ok, err, Cursor, Writer, Reader, ◌>>◌, done}

-- The last `w` base-256 digits of `v`, most significant first.
abbrev pub to_be_bytes : ℕ → ℕ → Bytes
to_be_bytes zero v = []
to_be_bytes (suc w) v = (v / 256 ^ w % 256) ∷ to_be_bytes w v

abbrev pub IsByte : ℕ → Type 0
IsByte b = b < 256

-- `w` writes the bytes `s` behind whatever was written before.
pub record Appends (w : Writer) (s : Bytes) : Type 0 where
  pub at : (bytes : Bytes) → w bytes ≡ ok (bytes ++ s)

-- One element after the other.
unfoldable pub each : {A : Type 0} → (A → Writer) → List A → Writer
each e [] = done
each e (x ∷ xs) = e x >> each e xs

-- The run of a vector's decoder over its body: items are decoded until no byte is
-- left, and each takes at least one.
pub data Items {A : Type 0} (d : Reader A) : Cursor → List A → Type 0 where
  end : {c : Cursor} → c.rest ≡ [] → Items d c []
  item :
      {c c' : Cursor} {x : A} {xs : List A}
      → d c ≡ ok (x, c')
      → length c'.rest < length c.rest
      → Items d c' xs
      → Items d c (x ∷ xs)

-- The first argument of each field is a size in bytes, of the integer or of the length prefix:
-- `encode_uint 2` is `u16::encode`, and `encode_items A 4` is `encode_u32_items`.
pub record Prio : Type 1 where
  pub encode_uint : ℕ → ℕ → Writer
  pub decode_uint : ℕ → Reader ℕ
  pub encode_items : (A : Type 0) → ℕ → (A → Writer) → List A → Writer
  pub decode_items : (A : Type 0) → ℕ → Reader A → Reader (List A)
  pub get_encoded : Writer → Result Bytes
  pub get_decoded : (A : Type 0) → Reader A → Bytes → Result A

abbrev pub at_body : Bytes → Cursor
at_body s = record { position = 0; rest = s }

pub record PrioLaws (p : Prio) : Type 1 where
  pub encode_uint_lem : (w v : ℕ) → v < 256 ^ w → Appends (p.encode_uint w v) (to_be_bytes w v)
  pub decode_uint_lem :
      (w v pos : ℕ) (rest : Bytes)
      → v < 256 ^ w
      → p.decode_uint w (record { position = pos; rest = to_be_bytes w v ++ rest })
        ≡ ok (v, record { position = pos + w; rest = rest })
  pub decode_uint_short :
      (w : ℕ) (c : Cursor) → length c.rest < w → (e : CodecError) × (p.decode_uint w c ≡ err e)
  pub encode_items_lem :
      (A : Type 0) (w : ℕ) (e : A → Writer) (xs : List A) (body : Bytes)
      → Appends (each e xs) body
      → length body < 256 ^ w
      → Appends (p.encode_items A w e xs) (to_be_bytes w (length body) ++ body)
  pub decode_items_lem :
      (A : Type 0) (w pos : ℕ) (d : Reader A) (xs : List A) (body rest : Bytes)
      → Items d (at_body body) xs
      → length body < 256 ^ w
      → p.decode_items A w d
          (record { position = pos; rest = to_be_bytes w (length body) ++ (body ++ rest) })
        ≡ ok (xs, record { position = pos + w + length body; rest = rest })
  pub get_encoded_lem : (w : Writer) → p.get_encoded w ≡ w []
  pub get_decoded_lem :
      (A : Type 0) (d : Reader A) (s : Bytes) (x : A) (c : Cursor)
      → d (at_body s) ≡ ok (x, c)
      → c.rest ≡ []
      → p.get_decoded A d s ≡ ok x
