-- ===== src/Messages/Taskprov/Task/PastEnd.antt =====
-- A task configuration that ends inside its query configuration.
use daphne.Common.{ℕ, ◌^◌, ◌<◌, ◌≡◌, ◌∙◌, ◌++◌, flatten, length, length-append, map, All, arith}
use daphne.Codec.Base.{Bytes, panic}
use daphne.Codec.Prio.{Prio, PrioLaws, to_be_bytes, IsByte}
use daphne.Codec.RoundTrip.{vector, RoundTrips-items, bind-ok, bind-panic, length-vector}
use daphne.Codec.Lengths.RoundTrip.{decode_u16_prefixed-past_end}
use daphne.Messages.Taskprov.Task.{UrlBytes, decode_task_config, decode_url_bytes}
use daphne.Messages.Taskprov.Task.RoundTrip.{RoundTrips-url_bytes, task_info_items}

-- The task info and the two URLs, and a query configuration of `n` bytes that has only `tail`.
abbrev pub cut_task_config : Bytes → UrlBytes → UrlBytes → ℕ → Bytes → Bytes
cut_task_config task_info leader_url helper_url n tail =
    vector 1 (flatten (map (to_be_bytes 1) task_info))
    ++ (vector 2 leader_url.bytes ++ (vector 2 helper_url.bytes ++ (to_be_bytes 2 n ++ tail)))

-- `decode_u16_prefixed` does not check its length prefix against the buffer: whatever the task info
-- and the URLs, a query configuration whose prefix `n` exceeds the bytes that follow makes the
-- decoder of task configurations panic, where it should return an error.
pub decode_task_config-panics :
    {p : Prio} (laws : PrioLaws p) (task_info : Bytes) (leader_url helper_url : UrlBytes) (n : ℕ)
    (tail : Bytes)
    → All IsByte task_info
    → length (flatten (map (to_be_bytes 1) task_info)) < 256 ^ 1
    → length leader_url.bytes < 256 ^ 2
    → length helper_url.bytes < 256 ^ 2
    → n < 256 ^ 2
    → length tail < n
    → decode_task_config p
        (record { position = 0; rest = cut_task_config task_info leader_url helper_url n tail })
      ≡ panic
unfolding decode_task_config
decode_task_config-panics {p} laws task_info leader_url helper_url n tail bytes info leader helper
      u16 short =
    let info_wire = vector 1 (flatten (map (to_be_bytes 1) task_info)) in
    let leader_wire = vector 2 leader_url.bytes in
    let helper_wire = vector 2 helper_url.bytes in
    let end = to_be_bytes 2 n ++ tail in
    let info_len = length-vector 1 (flatten (map (to_be_bytes 1) task_info)) in
    let leader_len = length-vector 2 leader_url.bytes in
    let helper_len = length-vector 2 helper_url.bytes in
    let l0 = length-append info_wire (leader_wire ++ (helper_wire ++ end)) in
    let l1 = length-append leader_wire (helper_wire ++ end) in
    let l2 = length-append helper_wire end in
    let l3 = length-append (to_be_bytes 2 n) tail in
    let info_part =
      RoundTrips-items laws 1 (p.encode_uint 1) (p.decode_uint 1) (to_be_bytes 1) task_info
        (task_info_items laws task_info bytes) info in
    bind-ok (p.decode_items ℕ 1 (p.decode_uint 1)) _
      (info_part.reads.at 0 (leader_wire ++ (helper_wire ++ end)) (omega arith))
    ∙ bind-ok (decode_url_bytes p) _ (
        (RoundTrips-url_bytes laws leader_url leader).reads.at _ (helper_wire ++ end) (omega arith))
    ∙ bind-ok (decode_url_bytes p) _
        ((RoundTrips-url_bytes laws helper_url helper).reads.at _ end (omega arith))
    ∙ bind-panic _ _ (decode_u16_prefixed-past_end laws _ n _ tail u16 (omega arith) short)
