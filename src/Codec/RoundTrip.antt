-- ===== src/Codec/RoundTrip.antt =====
-- Rules by which an encoder and its decoder are shown to be inverse, one for each way to build them.
use mathlib.Core.Path.{subst}
use daphne.Common.{
  ◌∷◌, ℕ, zero, suc, ◌^◌, ◌<◌, List, map, flatten, All, ◌+◌, ◌≡◌, refl, sym, ap, ◌∙◌, [], ◌++◌,
  length, length-append, arith, append-nil, append_assoc, take-append, drop-append,
}
use daphne.Codec.Base.{
  CodecError, err, panic, Bytes, ok, Cursor, Writer, Reader, ◌>>◌, done, ◌>>=◌, pure, extend,
  read_exact, isize_end,
}
use daphne.Codec.Prio.{to_be_bytes, each, Items, Prio, PrioLaws, Appends}

-- `r` reads `s` as the value `x`, wherever `s` stands and whatever follows it.
pub record Reads {A : Type 0} (r : Reader A) (x : A) (s : Bytes) : Type 0 where
  pub at :
      (pos : ℕ) (rest : Bytes)
      → pos + length (s ++ rest) < isize_end
      → r (record { position = pos; rest = s ++ rest })
        ≡ ok (x, record { position = pos + length s; rest = rest })

-- `w` writes exactly `s`, and `r` reads `s` back as `x`.
pub record RoundTrips {A : Type 0} (w : Writer) (r : Reader A) (x : A) (s : Bytes) : Type 0 where
  pub appends : Appends w s
  pub reads : Reads r x s

pub seq-ok : (w k : Writer) {bytes out : Bytes} → w bytes ≡ ok out → (w >> k) bytes ≡ k out
unfolding ◌>>◌
seq-ok w k h = rw (h, ◌>>◌)

pub bind-ok :
    {A B : Type 0} (r : Reader A) (k : A → Reader B) {c c' : Cursor} {x : A}
    → r c ≡ ok (x, c')
    → (r >>= k) c ≡ k x c'
unfolding ◌>>=◌
bind-ok r k h = rw (h, ◌>>=◌)

pub bind-err :
    {A B : Type 0} (r : Reader A) (k : A → Reader B) {c : Cursor} {e : CodecError}
    → r c ≡ err e
    → (r >>= k) c ≡ err e
unfolding ◌>>=◌
bind-err r k h = rw (h, ◌>>=◌)

pub bind-panic :
    {A B : Type 0} (r : Reader A) (k : A → Reader B) {c : Cursor}
    → r c ≡ panic
    → (r >>= k) c ≡ panic
unfolding ◌>>=◌
bind-panic r k h = rw (h, ◌>>=◌)

pub Appends-seq :
    {w k : Writer} {s t : Bytes} → Appends w s → Appends k t → Appends (w >> k) (s ++ t)
Appends-seq {w} {k} {s} {t} hw hk = record {
  at = λ bytes. seq-ok w k (hw.at bytes) ∙ hk.at (bytes ++ s) ∙ ap ok (append_assoc bytes s t);
}

pub Appends-done : Appends done []
unfolding done
Appends-done = record { at = λ bytes. ap ok (sym (append-nil bytes)) }

pub Reads-bind :
    {A B : Type 0} {r : Reader A} (k : A → Reader B) {x : A} {y : B} {s t : Bytes}
    → Reads r x s
    → Reads (k x) y t
    → Reads (r >>= k) y (s ++ t)
Reads-bind {r} k {x} {y} {s} {t} hr hk = record {
  at = λ pos rest fits. rw (append_assoc s t rest) (
      bind-ok r k (hr.at pos (t ++ rest) (rw (append_assoc s t rest) at fits))
      ∙ hk.at (pos + length s) rest
          (omega (arith, fits, ap length (append_assoc s t rest), length-append s (t ++ rest)))
      ∙ ap (λ n. ok (y, record { position = n; rest = rest })) (omega (arith, length-append s t)));
}

pub Reads-pure : {A : Type 0} (x : A) → Reads (pure x) x []
unfolding pure
Reads-pure x = record {
  at = λ pos rest _. ap (λ n. ok (x, record { position = n; rest = rest })) (omega arith);
}

pub RoundTrips-bind :
    {A B : Type 0} {w k : Writer} {r : Reader A} (f : A → Reader B) {x : A} {y : B} {s t : Bytes}
    → RoundTrips w r x s
    → RoundTrips k (f x) y t
    → RoundTrips (w >> k) (r >>= f) y (s ++ t)
RoundTrips-bind f h g = record {
  appends = Appends-seq h.appends g.appends;
  reads = Reads-bind f h.reads g.reads;
}

pub RoundTrips-done : {A : Type 0} {x : A} → RoundTrips done (pure x) x []
RoundTrips-done {x} = record { appends = Appends-done; reads = Reads-pure x }

-- An encoder that is another's, behind a decoder that converts the value.
pub RoundTrips-last :
    {A B : Type 0} {w : Writer} {r : Reader A} (k : A → Reader B) {x : A} (y : B) {s : Bytes}
    → RoundTrips w r x s
    → k x ≡ pure y
    → RoundTrips w (r >>= k) y s
RoundTrips-last k y {s} h e = record {
  appends = h.appends;
  reads = subst (Reads (_ >>= k) y) (append-nil s) (Reads-bind k h.reads (rw e (Reads-pure y)));
}

pub length-to_be_bytes : (w v : ℕ) → length (to_be_bytes w v) ≡ w
length-to_be_bytes zero v = refl
length-to_be_bytes (suc w) v = ap suc (length-to_be_bytes w v)

-- A fixed-size array: `extend_from_slice`, and `read_exact` into an array of its size.
pub RoundTrips-array : (n : ℕ) (s : Bytes) → length s ≡ n → RoundTrips (extend s) (read_exact n) s s
unfolding extend read_exact
RoundTrips-array n s h = record {
  appends = record { at = λ bytes. refl };
  reads = record {
    at = λ pos rest _.
        rw (← h) (ground (arith, length-append s rest, take-append s rest, drop-append s rest));
  };
}

-- The writers of a list, one after the other, and the run of the decoder over what they wrote.
module _ {A : Type 0} (e : A → Writer) (d : Reader A) (f : A → Bytes) where
  -- An element that takes at least one byte, and round-trips.
  abbrev pub IsItem : A → Type 0
  IsItem x = RoundTrips (e x) d x (f x) × (0 < length (f x))

  pub each-Appends : (xs : List A) → All IsItem xs → Appends (each e xs) (flatten (map f xs))
  unfolding each
  each-Appends [] h = Appends-done
  each-Appends (x ∷ xs) h = Appends-seq h.0.0.appends (each-Appends xs h.1)

  pub Items-flatten :
      (xs : List A) (pos : ℕ)
      → All IsItem xs
      → pos + length (flatten (map f xs)) < isize_end
      → Items d (record { position = pos; rest = flatten (map f xs) }) xs
  Items-flatten [] pos h fits = Items.end refl
  Items-flatten (x ∷ xs) pos h fits =
      Items.item (h.0.0.reads.at pos (flatten (map f xs)) fits)
        (omega (arith, length-append (f x) (flatten (map f xs)), h.0.1))
        (Items-flatten xs (pos + length (f x)) h.1
          (omega (arith, fits, length-append (f x) (flatten (map f xs)))))

abbrev pub vector : ℕ → Bytes → Bytes
vector w body = to_be_bytes w (length body) ++ body

pub length-vector : (w : ℕ) (body : Bytes) → length (vector w body) ≡ w + length body
length-vector w body =
    omega
      (arith, length-append (to_be_bytes w (length body)) body, length-to_be_bytes w (length body))

in_bounds :
    (w pos : ℕ) (body rest : Bytes)
    → pos + length (vector w body ++ rest) < isize_end
    → 0 + length body < isize_end
in_bounds w pos body rest fits =
    omega (arith, fits, length-append (vector w body) rest, length-vector w body)

module _ {p : Prio} (laws : PrioLaws p) where
  pub RoundTrips-uint :
      (w v : ℕ) → v < 256 ^ w → RoundTrips (p.encode_uint w v) (p.decode_uint w) v (to_be_bytes w v)
  RoundTrips-uint w v h = record {
    appends = laws.encode_uint_lem w v h;
    reads = record {
      at = λ pos rest _. rw length-to_be_bytes (laws.decode_uint_lem w v pos rest h);
    };
  }

  pub RoundTrips-items :
      {A : Type 0} (w : ℕ) (e : A → Writer) (d : Reader A) (f : A → Bytes) (xs : List A)
      → All (IsItem e d f) xs
      → length (flatten (map f xs)) < 256 ^ w
      → RoundTrips
          (p.encode_items A w e xs)
          (p.decode_items A w d)
          xs
          (vector w (flatten (map f xs)))
  RoundTrips-items {A} w e d f xs h short =
      let body = flatten (map f xs) in
      record {
        appends = laws.encode_items_lem A w e xs body (each-Appends e d f xs h) short;
        reads = record {
          at = λ pos rest fits. rw (append_assoc (to_be_bytes w (length body)) body rest) (
              laws.decode_items_lem A w pos d xs body rest
                (Items-flatten e d f xs 0 h (in_bounds w pos body rest fits)) short
              ∙ ap (λ n. ok (xs, record { position = n; rest = rest }))
                  (omega (arith, length-vector w body)));
        };
      }
