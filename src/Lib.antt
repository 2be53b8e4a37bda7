-- ===== src/Lib.antt =====
-- A model of spl-rust: the framed multiplexing protocol between a dialing client and a home, with
-- the theorems that make its pure core correct.
--
-- Parts and files
--   Base       helpers: Boolean tests, lists on native numbers, results, bit operations, checked
--              arithmetic and association lists with their laws.
--   Frame      crates/spl-core/src/frame.rs. `FrameDecoder` is a record of its buffer; `encode`,
--              `feed`, `next_frame` and `drain` are the functions of the same names, and the decoder
--              after a call is returned beside its answer.
--   Http       crates/spl-core/src/http.rs: errors, byte search and chunk sizes. Http/Chunked has
--              `ChunkedDecoder` and `dechunk`, Http/Message the request head and `parse_response`.
--              The text of bytes, `String::from_utf8_lossy`, is a parameter.
--   Mux        crates/spl-core/src/mux.rs: the receive window of a stream. Mux/Upload has
--              `WindowedUpload`; what `poll_send` encodes is `poll_frame`. Mux/Carrier has
--              `CarrierDemux`: `feed` hands each frame to `handle_frame`, which has the branches of
--              the loop as functions of their own; `expect_stream` is `get_mut(..).expect(..)`.
--              Mux/Assembler has the `HttpStreamAssembler` of one stream, with the events in
--              Mux/Events, and Mux/Response `ResponseAssembler`.
--   Crockford  crates/spl-core/src/crockford.rs: the base32 text of pair links.
--   Pairlink   crates/spl-core/src/pairlink.rs: `parse` and the three forms of `parse_blob`. What the
--              source's `?` puts in front of the rest is a function with the rest as an argument.
--   Home       crates/spl-home/src/{config,error,mux}.rs. Home/Types has the data, Home/State the
--              acceptor and its shared steps, Home/Dispatch `handle_frame` and all its handlers,
--              Home/Feed the byte loop of `feed` and `drain_decoder`, Home/Calls the local side,
--              Home/Close how a carrier's end and its silence are published, Home/PairWindow the
--              admission of crates/spl-home/src/pair_window.rs, with the TLS handshake as a
--              parameter. Home/Boundary is no code of the source: it is a reader of frame boundaries
--              that `feed` is compared with.
--   Sni        crates/spl-bridge/src/sni.rs: `record_round` is a round of the loop over records in
--              `parse_client_hello_with_limits`, `push_bytes` its loop over bytes, `peek_round` a
--              round of `extract_sni_inner` on what a peek gives.
--   Lease      crates/spl-bridge/src/lease.rs: `LeaseSchedule`, and `turn`, one round of the loop in
--              `run_supervisor_with_clock`: an `Event` is the branch of `select!` that is ready with
--              the clocks it reads, and `Journal` the part of the registration it shares.
--
-- The home acceptor cuts the bytes of a carrier into frames with a `FrameDecoder`, gives each frame
-- to the handler that its flags name, and keeps one receive window and one send credit per stream.
-- The dialing side does the same for responses: the carrier routes DATA to the assembler of its
-- stream, whose events carry the wire bytes that the consumer returns to the window as it drains them.
--
-- Conventions
--   A byte is a number below 256 and a byte vector a list of numbers. `usize` and `u64` are 64-bit:
--   `checked_add` answers `none` from 2^64 on. A subtraction that the source checks is
--   `checked_sub`. A panic is a value of its own (`none` of `Mux.consume`,
--   `panicked` of `Answer` and of `Fed`, `panics` of `Handled`).
--   A hash map is an association list with one entry for each key, which the model keeps so.
--   Instants and durations of the leases are nanoseconds; the last instant is a parameter.
--   `&mut self` is explicit: a function takes the state and returns it.
--
-- Fuel
--   `drain` and `drain_decoder` loop while a frame is cut off the buffer. Each round takes eight
--   bytes at least, so one round more than there are bytes is enough. A round of `push` takes a byte
--   or ends a chunk's data, so two rounds more than there are bytes are enough; a round of `dechunk`
--   takes four bytes, one of the line splitter two, and a 64-bit number has at most twenty digits. A round over TLS records
--   takes five bytes, and one over protocols, names or extensions takes one, three or four.
--
-- Not modelled
--   Debug output; sockets, TLS, tasks and timers (spl-transport, spl-bridge and the driver in
--   crates/spl-home/src/connection.rs); the test-only listener ids of the home acceptor.
--
pub mod Base
pub mod Frame
pub mod Http
pub mod Mux
pub mod Crockford
pub mod Pairlink
pub mod Home
pub mod Sni
pub mod Lease
