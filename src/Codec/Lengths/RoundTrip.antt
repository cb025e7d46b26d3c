-- ===== src/Codec/Lengths/RoundTrip.antt =====
-- The length-prefixed strings and structures are read back as they were written.
use daphne.Common.{
  false, drop-append_add, ℕ, ◌+◌, ◌-◌, ◌^◌, ◌<◌, ◌≡◌, refl, ap, ◌∙◌, ◌++◌, ltb, length, arith,
  length-append, append_assoc, append-nil, take-append, drop-append, lt→ltb, [],
}
use daphne.Codec.Base.{panic, usize_end, Bytes, ok, Writer, Reader, ◌>>=◌}
use daphne.Codec.Prio.{Prio, PrioLaws, to_be_bytes, at_body, Appends}
use daphne.Codec.RoundTrip.{
  bind-ok, Reads, RoundTrips, RoundTrips-uint, RoundTrips-array, vector, length-to_be_bytes, seq-ok,
  Reads-bind, Appends-seq, Appends-done,
}
use daphne.Codec.Lengths.{
  encode_bytes, decode_bytes, encode_u16_bytes, decode_u16_bytes, encode_u32_bytes,
  decode_u32_bytes, encode_prefixed, fill_length, read_inner, close_inner, decode_u16_prefixed,
}

-- `fill_length` over a placeholder `zeros` in front of `s`.
fill_length-eq :
    (size : ℕ) (bytes zeros s : Bytes)
    → length zeros ≡ size
    → length s < 256 ^ size
    → fill_length size (length bytes) (bytes ++ (zeros ++ s)) ≡ ok (bytes ++ vector size s)
unfolding fill_length
fill_length-eq size bytes zeros s hz short =
    let cut = drop-append_add bytes (length zeros) (zeros ++ s) ∙ drop-append zeros s in
    let fits : length s < 256 ^ length zeros = rw hz short in
    let total : length (bytes ++ (zeros ++ s)) ≡ length bytes + length zeros + length s =
      omega (arith, length-append bytes (zeros ++ s), length-append zeros s) in
    let len : length bytes + length zeros + length s - length bytes - length zeros ≡ length s =
      omega arith in
    let enough : ltb (length bytes + length zeros + length s) (length bytes + length zeros)
        ≡ false =
      ground arith in
    rw (← hz, total, len, enough, lt→ltb _ _ fits, take-append bytes (zeros ++ s), cut)

read_inner-Reads :
    {O : Type 0} (d : ℕ → Reader O) (x : O) (s : Bytes)
    → Reads (d (length s)) x s
    → Reads (read_inner d (length s)) x s
unfolding read_inner close_inner ◌>>=◌
read_inner-Reads d x s h = record {
  at = λ pos rest fits.
      let body = append-nil s in
      let inner : d (length s) (at_body s) ≡ ok (x, record { position = 0 + length s; rest = [] }) =
        rw append-nil at (h.at 0 [] (omega (arith, ap length body, length-append s rest, fits))) in
      ground (arith, length-append s rest, take-append s rest, drop-append s rest, inner, fits);
}

module _ {p : Prio} (laws : PrioLaws p) where
  RoundTrips-bytes :
      (size : ℕ) (input : Bytes)
      → length input < 256 ^ size
      → RoundTrips (encode_bytes p size input) (decode_bytes p size) input (vector size input)
  unfolding encode_bytes decode_bytes
  RoundTrips-bytes size input short =
      let array = RoundTrips-array (length input) input refl in
      let prefix = RoundTrips-uint laws size (length input) short in
      let written = Appends-seq prefix.appends (Appends-seq array.appends Appends-done) in
      record {
        appends = record {
          at = λ bytes. rw (lt→ltb _ _ short) (
              written.at bytes
              ∙ ap (λ s. ok (bytes ++ (to_be_bytes size (length input) ++ s))) (append-nil input));
        };
        reads = Reads-bind _ prefix.reads array.reads;
      }

  pub RoundTrips-u16_bytes :
      (input : Bytes)
      → length input < 256 ^ 2
      → RoundTrips (encode_u16_bytes p input) (decode_u16_bytes p) input (vector 2 input)
  unfolding encode_u16_bytes decode_u16_bytes
  RoundTrips-u16_bytes = RoundTrips-bytes 2

  pub RoundTrips-u32_bytes :
      (input : Bytes)
      → length input < 256 ^ 4
      → RoundTrips (encode_u32_bytes p input) (decode_u32_bytes p) input (vector 4 input)
  unfolding encode_u32_bytes decode_u32_bytes
  RoundTrips-u32_bytes = RoundTrips-bytes 4

  pub Appends-prefixed :
      (size : ℕ) (e : Writer) (s : Bytes)
      → 0 < 256 ^ size
      → length s < 256 ^ size
      → Appends e s
      → Appends (encode_prefixed p size e) (vector size s)
  unfolding encode_prefixed
  Appends-prefixed size e s pos short h = record {
    at = λ bytes.
        let zeros = to_be_bytes size 0 in
        seq-ok (p.encode_uint size 0) _ ((laws.encode_uint_lem size 0 pos).at bytes)
        ∙ seq-ok e _ (h.at (bytes ++ zeros))
        ∙ rw (append_assoc bytes zeros s)
            (fill_length-eq size bytes zeros s (length-to_be_bytes size 0) short);
  }

  pub RoundTrips-u16_prefixed :
      {O : Type 0} (e : Writer) (d : ℕ → Reader O) (x : O) (s : Bytes)
      → length s < 256 ^ 2
      → RoundTrips e (d (length s)) x s
      → RoundTrips (encode_prefixed p 2 e) (decode_u16_prefixed p d) x (vector 2 s)
  unfolding decode_u16_prefixed
  RoundTrips-u16_prefixed e d x s short h = record {
    appends = Appends-prefixed 2 e s (omega arith) short h.appends;
    reads =
        Reads-bind (read_inner d) (RoundTrips-uint laws 2 (length s) short).reads
          (read_inner-Reads d x s h.reads);
  }

  pub decode_u16_prefixed-past_end :
      {O : Type 0} (d : ℕ → Reader O) (n pos : ℕ) (tail : Bytes)
      → n < 256 ^ 2
      → pos + 2 + n < usize_end
      → length tail < n
      → decode_u16_prefixed p d (record { position = pos; rest = to_be_bytes 2 n ++ tail }) ≡ panic
  unfolding decode_u16_prefixed read_inner
  decode_u16_prefixed-past_end d n pos tail u16 fits short =
      bind-ok (p.decode_uint 2) (read_inner d) (laws.decode_uint_lem 2 n pos tail u16)
      ∙ rw (lt→ltb _ usize_end fits, lt→ltb (length tail) n short)
