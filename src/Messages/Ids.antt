-- ===== src/Messages/Ids.antt =====
-- `id_struct!` of crates/daphne/src/messages/mod.rs: identifiers are arrays of 16 or 32 bytes.
use mathlib.Core.Path.{subst}
use daphne.Common.{append-nil, ℕ, ◌≡◌, length}
use daphne.Codec.Base.{Bytes, Writer, Reader, ◌>>◌, done, ◌>>=◌, pure, extend, read_exact}
use daphne.Codec.RoundTrip.{RoundTrips, RoundTrips-bind, RoundTrips-done, RoundTrips-array}

-- `[u8; len]`; `IsArray` is what the Rust type guarantees.
abbrev pub Array : ℕ → Type 0
Array len = Bytes

abbrev pub IsArray : ℕ → Bytes → Type 0
IsArray len s = length s ≡ len

abbrev pub AggregationJobId : Type 0
AggregationJobId = Array 16

abbrev pub BatchId : Type 0
BatchId = Array 32

abbrev pub CollectionJobId : Type 0
CollectionJobId = Array 16

abbrev pub ReportId : Type 0
ReportId = Array 16

abbrev pub TaskId : Type 0
TaskId = Array 32

unfoldable pub encode_id : Bytes → Writer
encode_id id = do extend id; done

unfoldable pub decode_id : (len : ℕ) → Reader (Array len)
decode_id len = do content ← read_exact len; pure content

pub RoundTrips-id :
    (len : ℕ) (id : Bytes) → IsArray len id → RoundTrips (encode_id id) (decode_id len) id id
unfolding encode_id decode_id
RoundTrips-id len id h =
    subst (RoundTrips (encode_id id) (decode_id len) id) (append-nil id)
      (RoundTrips-bind _ (RoundTrips-array len id h) RoundTrips-done)
