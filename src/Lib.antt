-- ===== src/Lib.antt =====
-- The verification library of Daphne, an implementation of the Distributed Aggregation Protocol.
--
-- The program. Clients upload encrypted reports to a Leader, which runs aggregation jobs with a
-- Helper; a Collector asks the Leader for the aggregate of a batch. The crate `daphne`
-- (crates/daphne/src) has the protocol itself: the wire messages (messages/), the tasks and the
-- batches that reports fall in (lib.rs), the roles (roles/) and the steps of an aggregation job
-- (protocol/). The server, the worker and the tools around it call this crate.
--
-- The files.
--   Common: the names and lemmas that all the files share. Common/Maps has hash maps as
--     association lists.
--   Codec: the layer below the messages. A writer takes the bytes of the `Vec<u8>` so far and
--     returns them extended, a reader takes a cursor and returns a value and the advanced cursor;
--     both may fail or panic. Codec/Prio states what is used of `prio::codec`, a crate outside of
--     the repository, as operations (`Prio`) and laws (`PrioLaws`). Codec/Lengths has the
--     length-prefixed helpers of messages/mod.rs; Codec/RoundTrip the rules by which the proofs
--     about messages are composed.
--   Messages: the messages of messages/mod.rs, by topic (Ids, Report, Batch, Aggregation,
--     Collection), with the identifiers of hpke.rs (Hpke), messages/taskprov.rs (Taskprov) and the
--     comparison of strings (Compare). The type `T` has `encode_t` for its `Encode` or
--     `ParameterizedEncode` and `decode_t` for its decoder, and the module RoundTrip below has its
--     wire format (`t_wire`) and its validity (`IsT`).
--   Errors: the errors and aborts of error/, as the failures of the operations.
--   Task: the task configurations, quantized times and batch spans of lib.rs, and what is used of
--     the VDAF configuration (vdaf/mod.rs).
--   Share, Span: the aggregate shares and the aggregate spans of lib.rs. `share_add_out_share` is
--     the method of `DapAggregateShare`, `add_out_share` that of `DapAggregateSpan`, `merge` and
--     `merge_span` likewise. The field vectors of the crate `prio` and the SHA-256 of the crate
--     `ring` are parameters (`Crypto`), with their documented laws (`CryptoLaws`). After an error
--     only the error is modelled: the callers drop the share.
--   Roles: `check_batch` of roles/mod.rs, over the trait `DapAggregator` as a record of its
--     methods. Roles/Calls has the calls that read and change the state of a deployment and may
--     fail, as functions from a state to an outcome and the next state, Roles/Tasks
--     `resolve_taskprov`, and Roles/Checks the other checks that the handlers share.
--   Request: the requests, responses and resources of lib.rs with the media types of constants.rs;
--     Request/Auth the bearer tokens of auth.rs.
--   Protocol: the aggregation protocol of protocol/aggregator.rs. Protocol/Framing has the
--     ping-pong frames, Protocol/Report the states of a report (`consume`, `initialize_report`),
--     Protocol/Init the request (`produce_agg_job_req`, which is `produce_agg_job_req_impl`, and
--     `consume_agg_job_req`) and Protocol/Job the response (`produce_agg_job_resp`,
--     `consume_agg_job_resp`); Protocol/AggShare encrypts an aggregate share. The preparation
--     calls of vdaf/ are the parameter `Vdaf`, encryption and decryption are functions
--     (`HpkeEncrypter`, `HpkeDecrypter`), and the deployment's initialization of reports a record
--     (`DapReportInitializer`). Protocol/Client makes a report (protocol/client.rs) and
--     Protocol/Collector unshards a collection (protocol/collector.rs).
--   Helper: the retry loop and the batch check of roles/helper.rs, over the storage of the
--     deployment as a parameter (`AggregateStore`), with its documented laws (`StoreLaws`). The
--     calls take the state of the storage and return the next one. Helper/AggShare has the
--     aggregate-share request, over the batches of the storage (`BatchStore`), with the whole
--     handler in Helper/AggShare/Handler.
--   Testing: the storage in memory of testing/mod.rs, an implementation of what the Helper asks of
--     a storage (Testing/Laws), and its batches (Testing/Batches), behind the look-up of the task.
--     After a failed merge the share of the bucket is taken to be unchanged.
--   Leader: the Leader of roles/leader/. Leader/Upload is `handle_upload_req`, Leader/CollJobReq
--     `handle_coll_job_req`, Leader/Peer `leader_send_http_request`, Leader/Run `run_agg_job` and
--     `run_coll_job`, and Leader/Process the processing loop `process`, all of mod.rs, over
--     records of the methods of the traits `DapAggregator` and `DapLeader`. Leader/Memory is the
--     state of in_memory_leader.rs: its calls are functions of the state, and the modules below it
--     take any sequence of them as a data type. Leader/Uploaded joins the handlers with that state, as the
--     aggregator of testing/mod.rs does.
--   Tests: implementations of the parameters that have the laws, and the theorems at concrete
--     inputs.
--
-- Conventions and bounds. Bytes and machine integers are natural numbers; a validity predicate
-- says which fit their type. `u64` arithmetic wraps at 2^64, as in a release build; `usize` has 64
-- bits, and a buffer holds less than 2^63 bytes, as every Rust allocation does. The parameter
-- `DapVersion` of the encoders and decoders is left out, since none of them reads it. An `async`
-- function is the call that it makes when it is awaited, and what the random-number generator
-- gives is an argument. No definition runs on fuel: all recursion is structural, and the Helper's
-- loop counts its three rounds down. A set of batch buckets is the list of its elements in the
-- order of insertion, and the map of a span an association list.
--
-- Not modelled. Text forms of identifiers (hex, base64, serde, Display), the variants behind the
-- feature `experimental`, the HPKE and VDAF computations, the network, the storage of deployments,
-- metrics and the audit log; the texts of media types and URLs; the resolution of an advertised
-- task (taskprov.rs); the proofs and the VDAF of pine/; the server, the worker and the tools
-- around the crate.
pub mod Common
pub mod Codec
pub mod Messages
pub mod Errors
pub mod Task
pub mod Share
pub mod Span
pub mod Roles
pub mod Request
pub mod Protocol
pub mod Helper
pub mod Leader
pub mod Testing
pub mod Tests
