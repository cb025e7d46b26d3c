-- ===== src/Share/Summary.antt =====
-- What an aggregate share says of the reports that it was made from.
use native.Mathlib.Nat.{mod-eq_of_lt}
use Prim.Native.Nat.{min, max}
use daphne.Common.{
  map-append, run, run-keeps, op-run-run, All-units, ℕ, suc, ◌+◌, ◌%◌, ◌<◌, ◌≡◌, refl, sym, ap, ◌∙◌,
  Option, none, some, List, [], ◌∷◌, ◌++◌, map, ◌==◌, true, false, ltb, All, length, length-append,
  replicate, zip_xor, zip_xor-zeros, zip_xor_assoc, length-zip_xor, zip_xor-zeros_right, append-nil,
  arith,
}
use daphne.Codec.Base.{Bytes}
use daphne.Errors.{ok}
use daphne.Messages.Ids.{ReportId}
use daphne.Task.{u64_end}
use daphne.Share.{
  Field, field32, field64, field128, Crypto, VdafAggregateShare, of_field32, of_field64,
  of_field128, DapAggregateShare, merge_result, merge_same, merge_data, merge, share_add_out_share,
}

-- The documented behaviour: shares are vectors, merged elementwise if they have the same length; a
-- digest has 32 bytes.
pub record CryptoLaws (c : Crypto) : Type 0 where
  pub size : (f : Field) → c.FieldShare f → ℕ
  pub add : (f : Field) → c.FieldShare f → c.FieldShare f → c.FieldShare f
  pub merge_field_lem :
      (f : Field) (a b : c.FieldShare f)
      → size f a ≡ size f b
      → c.merge_field f a b ≡ some (add f a b)
  pub size-add :
      (f : Field) (a b : c.FieldShare f) → size f a ≡ size f b → size f (add f a b) ≡ size f a
  pub add_assoc :
      (f : Field) (a b d : c.FieldShare f)
      → size f a ≡ size f b
      → size f b ≡ size f d
      → add f (add f a b) d ≡ add f a (add f b d)
  pub length-sha256 : (s : Bytes) → length (c.sha256 s) ≡ 32

-- A report with its output share over the field `f`.
pub record OutShare (c : Crypto) (f : Field) : Type 0 where
  pub report_id : ReportId
  pub time : ℕ
  pub share : c.FieldShare f

abbrev pub wrap : {c : Crypto} (f : Field) → c.FieldShare f → VdafAggregateShare c
wrap field32 s = of_field32 s
wrap field64 s = of_field64 s
wrap field128 s = of_field128 s

merge_same-wrap :
    {c : Crypto} (f : Field) (a b m : c.FieldShare f)
    → c.merge_field f a b ≡ some m
    → merge_same (wrap {c = c} f a) (wrap f b) ≡ ok (some (wrap f m))
unfolding merge_same
merge_same-wrap field32 a b m h = rw (h, merge_result)
merge_same-wrap field64 a b m h = rw (h, merge_result)
merge_same-wrap field128 a b m h = rw (h, merge_result)

min_assoc : (a b d : ℕ) → min (min a b) d ≡ min a (min b d)
min_assoc a b d = omega arith

max_assoc : (a b d : ℕ) → max (max a b) d ≡ max a (max b d)
max_assoc a b d = omega arith

abbrev pub checksum_of : (Bytes → Bytes) → List ReportId → Bytes
checksum_of sha256 [] = replicate 32 0
checksum_of sha256 (x ∷ xs) = zip_xor (sha256 x) (checksum_of sha256 xs)

-- Shares are equal if their fields are.
share-ext :
    {c : Crypto} (a b : DapAggregateShare c)
    → a.report_count ≡ b.report_count
    → a.min_time ≡ b.min_time
    → a.max_time ≡ b.max_time
    → a.checksum ≡ b.checksum
    → a.agg_data ≡ b.agg_data
    → a ≡ b
share-ext a b n lo hi sum agg = λ i. record {
  report_count = n i;
  min_time = lo i;
  max_time = hi i;
  checksum = sum i;
  agg_data = agg i;
}

suc-nonzero : (n : ℕ) → (suc n == 0) ≡ false
suc-nonzero n = ground arith

ltb-zero_suc : (n : ℕ) → ltb 0 (suc n) ≡ true
ltb-zero_suc n = ground arith

-- Two shares that both have reports.
merge-nonempty :
    {c : Crypto} (a b : DapAggregateShare c) (agg_data : Option (VdafAggregateShare c))
    → (a.report_count == 0) ≡ false
    → ltb 0 b.report_count ≡ true
    → merge_data a.agg_data b.agg_data ≡ ok agg_data
    → merge a b
      ≡ ok (record {
        report_count = (a.report_count + b.report_count) % u64_end;
        min_time = min a.min_time b.min_time;
        max_time = max a.max_time b.max_time;
        checksum = zip_xor a.checksum b.checksum;
        agg_data = agg_data;
      })
unfolding merge
merge-nonempty a b agg_data some_left some_right h = rw (h, some_left, some_right)

module _ {c : Crypto} (laws : CryptoLaws c) (f : Field) where
  abbrev ids : List (OutShare c f) → List ReportId
  ids xs = map (λ (x : OutShare c f). x.report_id) xs

  abbrev times : List (OutShare c f) → List ℕ
  times xs = map (λ (x : OutShare c f). x.time) xs

  abbrev shares : List (OutShare c f) → List (c.FieldShare f)
  shares xs = map (λ (x : OutShare c f). x.share) xs

  -- The number of reports, their first and last time, the exclusive or of the digests of their IDs
  -- and the sum of their output shares.
  abbrev pub summary : List (OutShare c f) → DapAggregateShare c
  summary [] = record {
    report_count = 0;
    min_time = 0;
    max_time = 0;
    checksum = replicate 32 0;
    agg_data = none;
  }
  summary (x ∷ xs) = record {
    report_count = length (x ∷ xs);
    min_time = run min x.time (times xs);
    max_time = run max x.time (times xs);
    checksum = checksum_of c.sha256 (ids (x ∷ xs));
    agg_data = some (wrap f (run (laws.add f) x.share (shares xs)));
  }

  -- Every output share has `n` elements.
  abbrev pub HasSize : ℕ → List (OutShare c f) → Type 0
  HasSize n xs = All (λ s. laws.size f s ≡ n) (shares xs)

  length-checksum_of : (xs : List ReportId) → length (checksum_of c.sha256 xs) ≡ 32
  length-checksum_of [] = refl
  length-checksum_of (x ∷ xs) =
      length-zip_xor (c.sha256 x) (checksum_of c.sha256 xs) ∙ laws.length-sha256 x

  checksum_of-append :
      (xs ys : List ReportId)
      → zip_xor (checksum_of c.sha256 xs) (checksum_of c.sha256 ys)
        ≡ checksum_of c.sha256 (xs ++ ys)
  checksum_of-append [] ys = zip_xor-zeros 32 _ (length-checksum_of ys)
  checksum_of-append (x ∷ xs) ys =
      zip_xor_assoc (c.sha256 x) (checksum_of c.sha256 xs) (checksum_of c.sha256 ys)
        (laws.length-sha256 x ∙ sym (length-checksum_of xs))
        (length-checksum_of xs ∙ sym (length-checksum_of ys))
      ∙ ap (zip_xor (c.sha256 x)) (checksum_of-append xs ys)

  checksum_of-ids :
      (xs ys : List (OutShare c f))
      → zip_xor (checksum_of c.sha256 (ids xs)) (checksum_of c.sha256 (ids ys))
        ≡ checksum_of c.sha256 (ids (xs ++ ys))
  checksum_of-ids xs ys =
      checksum_of-append (ids xs) (ids ys)
      ∙ ap (checksum_of c.sha256) (sym (map-append (λ (x : OutShare c f). x.report_id) xs ys))

  run-times :
      (op : ℕ → ℕ → ℕ)
      → ((a b d : ℕ) → op (op a b) d ≡ op a (op b d))
      → (x y : OutShare c f) (xs ys : List (OutShare c f))
      → op (run op x.time (times xs)) (run op y.time (times ys))
        ≡ run op x.time (times (xs ++ (y ∷ ys)))
  run-times op assoc x y xs ys =
      op-run-run op (λ _. Unit) (λ _ _ _ _. tt) (λ a b d _ _ _. assoc a b d) x.time y.time
        (times xs) (times ys) tt tt (All-units (times xs)) (All-units (times ys))
      ∙ ap (run op x.time) (sym (map-append (λ (x : OutShare c f). x.time) xs (y ∷ ys)))

  merge_field-shares :
      (n : ℕ) (x y : OutShare c f) (xs ys : List (OutShare c f))
      → HasSize n (x ∷ xs)
      → HasSize n (y ∷ ys)
      → c.merge_field f
          (run (laws.add f) x.share (shares xs))
          (run (laws.add f) y.share (shares ys))
        ≡ some (run (laws.add f) x.share (shares (xs ++ (y ∷ ys))))
  merge_field-shares n x y xs ys hx hy =
      let P : c.FieldShare f → Type 0 = λ s. laws.size f s ≡ n in
      let closed : (a b : c.FieldShare f) → P a → P b → P (laws.add f a b) =
        λ a b ha hb. laws.size-add f a b (ha ∙ sym hb) ∙ ha in
      let left = run-keeps (laws.add f) P closed x.share (shares xs) hx.0 hx.1 in
      let right = run-keeps (laws.add f) P closed y.share (shares ys) hy.0 hy.1 in
      laws.merge_field_lem f _ _ (left ∙ sym right)
      ∙ ap some (
          op-run-run (laws.add f) P closed
            (λ a b d ha hb hd. laws.add_assoc f a b d (ha ∙ sym hb) (hb ∙ sym hd)) x.share y.share
            (shares xs) (shares ys) hx.0 hy.0 hx.1 hy.1
          ∙ ap (run (laws.add f) x.share)
              (sym (map-append (λ (x : OutShare c f). x.share) xs (y ∷ ys))))

  -- For two lists of reports whose output shares are over one field and have one size, fewer than
  -- 2^64 reports together, and operations with the laws of `CryptoLaws`: merging the aggregate share
  -- that summarises the one with that of the other succeeds, and gives the aggregate share that
  -- summarises the concatenated list.
  pub merge-summary :
      (n : ℕ) (xs ys : List (OutShare c f))
      → HasSize n xs
      → HasSize n ys
      → length xs + length ys < u64_end
      → merge (summary xs) (summary ys) ≡ ok (summary (xs ++ ys))
  unfolding merge merge_data
  merge-summary n [] [] hx hy fits =
      ap ok (share-ext _ _ refl refl refl (checksum_of-ids [] []) refl)
  merge-summary n (x ∷ xs) [] hx hy fits =
      rw (append-nil xs, suc-nonzero (length xs))
        (ap ok (
          share-ext _ (summary (x ∷ xs)) (mod-eq_of_lt fits ∙ omega arith) refl refl
            (checksum_of-ids (x ∷ xs) []
              ∙ ap (λ l. checksum_of c.sha256 (ids l)) (append-nil (x ∷ xs)))
            refl))
  merge-summary n [] (y ∷ ys) hx hy fits =
      ap ok (
        share-ext _ _ (mod-eq_of_lt fits ∙ omega arith) refl refl (checksum_of-ids [] (y ∷ ys))
          refl)
  merge-summary n (x ∷ xs) (y ∷ ys) hx hy fits =
      merge-nonempty (summary (x ∷ xs)) (summary (y ∷ ys)) _ (suc-nonzero (length xs))
        (ltb-zero_suc (length ys)) (merge_same-wrap f _ _ _ (merge_field-shares n x y xs ys hx hy))
      ∙ ap ok (
          share-ext _ _ (mod-eq_of_lt fits ∙ sym (length-append (x ∷ xs) (y ∷ ys)))
            (run-times min min_assoc x y xs ys) (run-times max max_assoc x y xs ys)
            (checksum_of-ids (x ∷ xs) (y ∷ ys)) refl)

  one-summary :
      (x : OutShare c f)
      → summary (x ∷ []) ≡ record {
        report_count = 1;
        min_time = x.time;
        max_time = x.time;
        checksum = c.sha256 x.report_id;
        agg_data = some (wrap f x.share);
      }
  one-summary x =
      share-ext _ _ refl refl refl (zip_xor-zeros_right 32 _ (laws.length-sha256 x.report_id)) refl

  -- For reports whose output shares are over one field and have one size, fewer than 2^64 with the
  -- new one, and operations with the laws of `CryptoLaws`: adding the output share of one more report
  -- to the aggregate share that summarises the others succeeds, and gives the aggregate share that
  -- summarises all of them.
  pub share_add_out_share-summary :
      (n : ℕ) (xs : List (OutShare c f)) (x : OutShare c f)
      → HasSize n xs
      → laws.size f x.share ≡ n
      → suc (length xs) < u64_end
      → share_add_out_share (summary xs) x.report_id x.time (wrap f x.share)
        ≡ ok (summary (xs ++ (x ∷ [])))
  unfolding share_add_out_share
  share_add_out_share-summary n xs x hx h fits = rw (laws.length-sha256 x.report_id) (
      ap (merge (summary xs)) (sym (one-summary x))
      ∙ merge-summary n xs (x ∷ []) hx (h, tt) (omega arith))
