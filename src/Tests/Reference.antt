-- ===== src/Tests/Reference.antt =====
-- A `Prio` by its documentation, which shows that the laws can hold and lets the code run.
use native.Mathlib.Nat.{div-add-mod, div-div-eq-div-mul, pow-suc, mod-eq_of_lt}
use mathlib.Core.Path.{subst}
use daphne.Common.{
  sym, false, ◌≤◌, ℕ, zero, suc, ◌+◌, ◌*◌, ◌/◌, ◌%◌, ◌^◌, ◌<◌, ◌≡◌, refl, ap, ◌∙◌, List, [], ◌∷◌,
  ◌++◌, length, take, drop, ltb, if◌then◌else◌, arith, length-append, take-append, drop-append,
  lt→ltb,
}
use daphne.Codec.Base.{
  Bytes, CodecError, Result, ok, err, panic, io, length_prefix_too_big, Cursor, Writer, Reader,
  ◌>>=◌,
}
use daphne.Codec.Prio.{to_be_bytes, Appends, each, Items, Prio, PrioLaws, at_body}
use daphne.Codec.RoundTrip.{bind-ok, length-to_be_bytes}

from_be_bytes : Bytes → ℕ
from_be_bytes [] = 0
from_be_bytes (b ∷ bs) = b * 256 ^ length bs + from_be_bytes bs

digit : (v m : ℕ) → v / m % 256 * m + v % m ≡ v % (m * 256)
digit v m = omega (
  arith,
  div-add-mod v m,
  div-add-mod v (m * 256),
  div-div-eq-div-mul v m 256,
  ap (λ (t : ℕ). t * m) (div-add-mod (v / m) 256),
  ap (λ (t : ℕ). 256 * m * t) (div-div-eq-div-mul v m 256),
)

from-to_be_bytes : (w v : ℕ) → from_be_bytes (to_be_bytes w v) ≡ v % 256 ^ w
unfolding from_be_bytes
from-to_be_bytes zero v = omega arith
from-to_be_bytes (suc w) v =
    rw (length-to_be_bytes w v, from-to_be_bytes w v)
      (digit v (256 ^ w) ∙ ap (λ t. v % t) (sym (pow-suc 256 w)))

encode_uint : ℕ → ℕ → Writer
encode_uint w v bytes = ok (bytes ++ to_be_bytes w v)

decode_uint : ℕ → Reader ℕ
unfolding from_be_bytes
decode_uint w c =
    if ltb (length c.rest) w
    then err io
    else ok
        (from_be_bytes (take w c.rest), record { position = c.position + w; rest = drop w c.rest })

-- The body of a vector, with its length in front.
with_length : ℕ → Bytes → Result Bytes → Result Bytes
with_length w bytes (ok body) =
    if ltb (length body) (256 ^ w)
    then ok (bytes ++ (to_be_bytes w (length body) ++ body))
    else err (length_prefix_too_big (length body))
with_length w bytes (err e) = err e
with_length w bytes panic = panic

encode_items : (A : Type 0) → ℕ → (A → Writer) → List A → Writer
unfolding with_length each
encode_items A w e xs bytes = with_length w bytes (each e xs [])

-- One round for each byte of the body is enough, since an item takes at least one.
read_items : {A : Type 0} → ℕ → Reader A → Bytes → Reader (List A)
read_items fuel d [] c = ok ([], c)
read_items zero d (b ∷ bs) c = err io
read_items (suc fuel) d (b ∷ bs) c = elim (d c) [
  | ok (x, c') ↦ elim (read_items fuel d c'.rest c') [
    | ok (xs, end) ↦ ok (x ∷ xs, end)
    | err e ↦ err e
    | panic ↦ panic
  ]
  | err e ↦ err e
  | panic ↦ panic
]

decode_body : {A : Type 0} → Reader A → ℕ → Reader (List A)
decode_body d len c =
    if ltb (length c.rest) len
    then err (length_prefix_too_big len)
    else elim (read_items len d (take len c.rest) (at_body (take len c.rest))) [
      | ok (xs, _) ↦ ok (xs, record { position = c.position + len; rest = drop len c.rest })
      | err e ↦ err e
      | panic ↦ panic
    ]

decode_items : (A : Type 0) → ℕ → Reader A → Reader (List A)
unfolding decode_body decode_uint ◌>>=◌ read_items
decode_items A w d = do len ← decode_uint w; decode_body d len

decode_uint-to_be_bytes :
    (w v pos : ℕ) (rest : Bytes)
    → v < 256 ^ w
    → decode_uint w (record { position = pos; rest = to_be_bytes w v ++ rest })
      ≡ ok (v, record { position = pos + w; rest = rest })
unfolding decode_uint
decode_uint-to_be_bytes w v pos rest h =
    let s = to_be_bytes w v in
    let len = length-to_be_bytes w v in
    let front : take w (s ++ rest) ≡ s =
      subst (λ n. take n (s ++ rest) ≡ s) len (take-append s rest) in
    let back : drop w (s ++ rest) ≡ rest =
      subst (λ n. drop n (s ++ rest) ≡ rest) len (drop-append s rest) in
    let enough : ltb (length (s ++ rest)) w ≡ false =
      let e : length (s ++ rest) ≡ w + length rest = omega (arith, length-append s rest, len) in
      rw e (ground arith) in
    rw (enough, front, back, from-to_be_bytes w v, mod-eq_of_lt h)

read_items-step :
    {A : Type 0} (d : Reader A) (fuel : ℕ) (bs : Bytes) {c c' end : Cursor} {x : A} {xs : List A}
    → d c ≡ ok (x, c')
    → length c'.rest < length bs
    → read_items fuel d c'.rest c' ≡ ok (xs, end)
    → read_items (suc fuel) d bs c ≡ ok (x ∷ xs, end)
unfolding read_items
read_items-step d fuel [] e less ih = absurd (omega arith)
read_items-step d fuel (b ∷ bs) e less ih = rw (e, read_items) (rw ih)

read_items-Items :
    {A : Type 0} (d : Reader A) (fuel : ℕ) {c : Cursor} {xs : List A}
    → Items d c xs
    → length c.rest ≤ fuel
    → (c' : Cursor) × (read_items fuel d c.rest c ≡ ok (xs, c'))
unfolding read_items
read_items-Items d zero {c} (Items.end e) h = (c, rw e)
read_items-Items d (suc fuel) {c} (Items.end e) h = (c, rw e)
read_items-Items d zero (Items.item e less r) h = absurd (omega arith)
read_items-Items d (suc fuel) {c} (Items.item e less r) h =
    let (c', ih) = read_items-Items d fuel r (omega arith) in
    (c', read_items-step d fuel c.rest e less ih)

decode_body-Items :
    {A : Type 0} (d : Reader A) (xs : List A) (body rest : Bytes) (pos : ℕ)
    → Items d (at_body body) xs
    → decode_body d (length body) (record { position = pos; rest = body ++ rest })
      ≡ ok (xs, record { position = pos + length body; rest = rest })
unfolding decode_body
decode_body-Items d xs body rest pos items =
    let (c', run) = read_items-Items d (length body) items (omega arith) in
    let enough : ltb (length (body ++ rest)) (length body) ≡ false =
      ground (arith, length-append body rest) in
    rw (enough, take-append body rest, run, drop-append body rest)

-- `get_decoded`: nothing may be left over.
all_read : {A : Type 0} → A → Bytes → Result A
all_read x [] = ok x
all_read x (b ∷ bs) = err (CodecError.bytes_left_over (length (b ∷ bs)))

get_decoded : (A : Type 0) → Reader A → Bytes → Result A
unfolding all_read
get_decoded A d s = elim (d (at_body s)) [
  | ok (x, c) ↦ all_read x c.rest
  | err e ↦ err e
  | panic ↦ panic
]

get_decoded-all :
    (A : Type 0) (d : Reader A) (s : Bytes) (x : A) (c : Cursor)
    → d (at_body s) ≡ ok (x, c)
    → c.rest ≡ []
    → get_decoded A d s ≡ ok x
unfolding get_decoded
get_decoded-all A d s x c h e = rw (h, get_decoded) (rw e)

-- The model of the crate that the tests run with.
unfoldable pub reference : Prio
unfolding encode_uint decode_uint encode_items decode_items get_decoded
reference = record {
  encode_uint = encode_uint;
  decode_uint = decode_uint;
  encode_items = encode_items;
  decode_items = decode_items;
  get_encoded = λ w. w [];
  get_decoded = get_decoded;
}

encode_items-body :
    (A : Type 0) (w : ℕ) (e : A → Writer) (xs : List A) (body : Bytes)
    → Appends (each e xs) body
    → length body < 256 ^ w
    → Appends (encode_items A w e xs) (to_be_bytes w (length body) ++ body)
unfolding encode_items
encode_items-body A w e xs body h short = record {
  at = λ bytes. rw (h.at [], lt→ltb (length body) (256 ^ w) short);
}

decode_items-body :
    (A : Type 0) (w pos : ℕ) (d : Reader A) (xs : List A) (body rest : Bytes)
    → Items d (at_body body) xs
    → length body < 256 ^ w
    → decode_items A w d
        (record { position = pos; rest = to_be_bytes w (length body) ++ (body ++ rest) })
      ≡ ok (xs, record { position = pos + w + length body; rest = rest })
unfolding decode_items
decode_items-body A w pos d xs body rest items short =
    bind-ok (decode_uint w) (decode_body d)
      (decode_uint-to_be_bytes w (length body) pos (body ++ rest) short)
    ∙ decode_body-Items d xs body rest (pos + w) items

decode_uint-short :
    (w : ℕ) (c : Cursor) → length c.rest < w → (e : CodecError) × (decode_uint w c ≡ err e)
unfolding decode_uint
decode_uint-short w c h = (io, rw (lt→ltb (length c.rest) w h))

pub reference_laws : PrioLaws reference
unfolding reference
reference_laws = record {
  encode_uint_lem = λ w v h. record { at = λ bytes. refl };
  decode_uint_lem = decode_uint-to_be_bytes;
  decode_uint_short = decode_uint-short;
  encode_items_lem = encode_items-body;
  decode_items_lem = decode_items-body;
  get_encoded_lem = λ w. refl;
  get_decoded_lem = get_decoded-all;
}
