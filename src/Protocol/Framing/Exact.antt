-- ===== src/Protocol/Framing/Exact.antt =====
-- The frames are exactly the byte strings that the decoder accepts.
use native.Mathlib.Decide.{dec_lt}
use daphne.Common.{
  Bool, ◌≤◌, ℕ, suc, ◌+◌, ◌/◌, ◌%◌, ◌^◌, ◌<◌, ◌≡◌, ◌↔◌, refl, sym, ap, ◌∙◌, true, false, ◌==◌, ltb,
  if◌then◌else◌, [], ◌∷◌, ◌++◌, All, All-append_back, length, take, drop, take-append-drop,
  length-take, Bool-cases, inl, inr, arith,
}
use daphne.Codec.Base.{
  Bytes, Result, ok, err, unexpected_value, length_prefix_too_big, bytes_left_over, Cursor,
  CodecError, fail, isize_end,
}
use daphne.Codec.Prio.{Prio, PrioLaws, to_be_bytes, IsByte, at_body}
use daphne.Codec.RoundTrip.{bind-ok, bind-err, vector}
use daphne.Codec.Digits.{of_be_bytes}
use daphne.Protocol.Framing.{
  PingPongMessageType, initialize, finish, message_code, usize_sub, frame_rest, frame_body, value,
  decode_ping_pong_framed,
}

All-take : (n : ℕ) (s : Bytes) → All IsByte s → All IsByte (take n s)
All-take n s h = (All-append_back IsByte (take n s) (drop n s) (rw (take-append-drop n s) h)).0

-- A string of at least `w` bytes begins with a number.
starts_with :
    (w : ℕ) (s : Bytes)
    → All IsByte s
    → w ≤ length s
    → (v : ℕ) × (rest : Bytes) × (v < 256 ^ w) × (s ≡ to_be_bytes w v ++ rest)
starts_with w s h enough =
    let (v, small, e) = of_be_bytes w (take w s) (length-take w s enough) (All-take w s h) in
    (v, drop w s, small, rw (sym e) (sym (take-append-drop w s)))

-- What is left after the length prefix, compared with it.
abbrev checked : ℕ → Bytes → Result Bytes
checked v rest =
    if ltb (length rest) v
    then err (length_prefix_too_big v)
    else if ltb v (length rest)
    then err (bytes_left_over v)
    else ok rest

value_if :
    (x y : Bool) (e f : CodecError) (s : Bytes) (c : Cursor)
    → value (if x then err e else if y then err f else ok (s, c))
      ≡ (if x then err e else if y then err f else ok s)
value_if true y e f s c = refl
value_if false true e f s c = refl
value_if false false e f s c = refl

frame_rest-checked :
    (bytes rest : Bytes) (v : ℕ) (r : Cursor)
    → length bytes ≡ r.position + length rest
    → drop r.position bytes ≡ rest
    → length bytes < isize_end
    → value (frame_rest bytes v r) ≡ checked v rest
unfolding frame_rest
frame_rest-checked bytes rest v r total tail fits =
    let available : usize_sub (length bytes) r.position ≡ length rest =
      omega (arith, total, fits) in
    let inside : ltb (length bytes) r.position ≡ false = ground (arith, total) in
    rw (available, inside, tail)
      (value_if (ltb (length rest) v) (ltb v (length rest)) (length_prefix_too_big v)
        (bytes_left_over v) rest r)

checked_self : (s : Bytes) → checked (length s) s ≡ ok s
checked_self s = ground arith

accepted :
    (b code v : ℕ) (rest message : Bytes)
    → (if b == code then checked v rest else err unexpected_value) ≡ ok message
    → (b ≡ code) × (v ≡ length rest) × (message ≡ rest)
accepted b code v rest message h = ground arith

module _ {p : Prio} (laws : PrioLaws p) where
  -- The decoder on a string of at least five bytes, by its type, its length prefix and its rest.
  frame_runs :
      (typ : PingPongMessageType) (b v : ℕ) (rest : Bytes)
      → b < 256
      → v < 256 ^ 4
      → 5 + length rest < isize_end
      → decode_ping_pong_framed p (to_be_bytes 1 b ++ (to_be_bytes 4 v ++ rest)) typ
        ≡ (if b == message_code typ then checked v rest else err unexpected_value)
  unfolding decode_ping_pong_framed frame_body fail
  frame_runs typ b v rest hb hv fits =
      let bytes = to_be_bytes 1 b ++ (to_be_bytes 4 v ++ rest) in
      let total : length bytes ≡ 5 + length rest = omega arith in
      let first =
        bind-ok (p.decode_uint 1) (frame_body p bytes typ)
          (laws.decode_uint_lem 1 b 0 (to_be_bytes 4 v ++ rest) hb) in
      ap value first ∙ elim (Bool-cases (b == message_code typ)) [
        | inl same ↦ rw same (
            ap value
              (bind-ok (p.decode_uint 4) (frame_rest bytes) (laws.decode_uint_lem 4 v 1 rest hv))
            ∙ frame_rest-checked bytes rest v _ total refl (omega (arith, total)))
        | inr other ↦ rw other
      ]

  frame_short :
      (typ : PingPongMessageType) (b : ℕ) (rest : Bytes)
      → b < 256
      → length rest < 4
      → (e : CodecError) × (decode_ping_pong_framed p (b ∷ rest) typ ≡ err e)
  unfolding decode_ping_pong_framed frame_body fail
  frame_short typ b rest hb short =
      let bytes = b ∷ rest in
      let digit : b / 1 % 256 ≡ b = omega arith in
      let read = laws.decode_uint_lem 1 b 0 rest hb in
      let first = bind-ok (p.decode_uint 1) (frame_body p bytes typ) (rw digit at read) in
      elim (Bool-cases (b == message_code typ)) [
        | inl same ↦
            let (e, h) = laws.decode_uint_short 4 (record { position = 1; rest = rest }) short in
            (
              e,
              ap value first ∙ rw same (ap value (bind-err (p.decode_uint 4) (frame_rest bytes) h)),
            )
        | inr other ↦ (unexpected_value, ap value first ∙ rw other)
      ]

  frame_empty :
      (typ : PingPongMessageType) → (e : CodecError) × (decode_ping_pong_framed p [] typ ≡ err e)
  unfolding decode_ping_pong_framed
  frame_empty typ =
      let (e, h) = laws.decode_uint_short 1 (at_body []) (omega arith) in
      (e, ap value (bind-err (p.decode_uint 1) (frame_body p [] typ) h))

  pub frame_decodes :
      (typ : PingPongMessageType) (message : Bytes)
      → length message < 256 ^ 4
      → decode_ping_pong_framed p (message_code typ ∷ vector 4 message) typ ≡ ok message
  frame_decodes initialize message h =
      frame_runs initialize 0 (length message) message (omega arith) h (omega arith)
      ∙ checked_self message
  frame_decodes finish message h =
      frame_runs finish 2 (length message) message (omega arith) h (omega arith)
      ∙ checked_self message

  frame_accepted :
      (typ : PingPongMessageType) (b : ℕ) (rest message : Bytes)
      → b < 256
      → All IsByte rest
      → suc (length rest) < isize_end
      → decode_ping_pong_framed p (b ∷ rest) typ ≡ ok message
      → (b ∷ rest ≡ message_code typ ∷ vector 4 message) × (length message < 256 ^ 4)
  frame_accepted typ b rest message hb hs fits h = elim (dec_lt (length rest) 4) [
    | yes short ↦ let (e, h') = frame_short typ b rest hb short in cc
    | no long ↦
        let (v, rest', small, split) = starts_with 4 rest hs (omega (arith, long)) in
        let digit : b / 1 % 256 ≡ b = omega arith in
        let total = ap length split in
        let runs = frame_runs typ b v rest' hb small (omega (arith, total, fits)) in
        let run : (if b == message_code typ then checked v rest' else err unexpected_value)
            ≡ ok message =
          sym runs ∙ rw digit (rw (sym split) h) in
        let (type_ok, len, same) = accepted b (message_code typ) v rest' message run in
        (rw (type_ok, split, same, len), rw same (omega (arith, small, len)))
  ]

  -- A string is accepted as a frame of a type exactly when it is the frame of the message that is
  -- returned: for every codec with the laws of `PrioLaws` and every string of less than 2^63 bytes,
  -- the decoder returns `message` if and only if the string is the type's code, the length of
  -- `message` in four bytes and `message`, which has less than 2^32 bytes.
  pub decode_ping_pong_framed_iff :
      (typ : PingPongMessageType) (bytes message : Bytes)
      → All IsByte bytes
      → length bytes < isize_end
      → (decode_ping_pong_framed p bytes typ ≡ ok message)
        ↔ ((bytes ≡ message_code typ ∷ vector 4 message) × (length message < 256 ^ 4))
  decode_ping_pong_framed_iff typ [] message hb fits =
      let (e, h) = frame_empty typ in (λ h'. cc, λ h'. cc)
  decode_ping_pong_framed_iff typ (b ∷ rest) message hb fits = (
    λ h. frame_accepted typ b rest message hb.0 hb.1 fits h,
    λ h. rw h.0 (frame_decodes typ message h.1),
  )
