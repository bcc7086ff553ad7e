-- ===== src/Lib.antt =====
-- A model of tensor_pool_c, tensors passed between processes through shared memory, with proofs.
--
-- A driver process owns the streams. Producers and consumers attach to a stream by messages; the
-- driver gives them leases, which they keep alive, and opens an epoch of shared memory files for the
-- stream. A producer writes frames into a ring of header slots and into pools of payload slots;
-- consumers read them there without copying. A producer keeps a registry of its consumers, and a
-- consumer of several streams joins them by a barrier.
--
-- The files, and the code that they are about:
-- - Common: lists under native indices, linear searches, machine words, signed offsets.
-- - Driver: src/driver/tp_driver.c and include/tensor_pool/driver/tp_driver.h. State has the types
--   and the tables; Cooldowns the cooldown of node ids; Ids the choice of node ids and stream ids;
--   Attach is tp_driver_handle_attach; Leases is tp_driver_handle_detach, tp_driver_handle_keepalive
--   and tp_driver_handle_expired_leases; Run is tp_driver_init, tp_driver_do_work and the sequence
--   of events. A handler takes the driver and gives the new driver and the messages that it sends.
--   Ownership, Epochs, Cooldowns/Expiry and Ids/Fresh hold the proofs.
-- - JoinBarrier: src/common/tp_join_barrier.c. State and Maps have the barrier and the loading of
--   merge maps, Update the four updates, Ready the tests for readiness and what is collected. An
--   update gives none where the code returns an error.
-- - ConsumerRegistry: src/client/tp_consumer_registry.c. The registry is the list of its entries.
-- - Frames: tp_producer_offer_frame, tp_producer_publish_frame (src/client/tp_producer.c) and
--   tp_consumer_read_frame (src/client/tp_consumer.c). Memory has the shared memory, the payloads byte
--   by byte, and the stores on it, Publish the list of stores of a publication, Read the read, whose four accesses may each
--   see another memory. Writer lets a producer do its stores one by one and
--   has the invariant, Stores proves it, Stays is about a word that stays, and Whole puts reads
--   between; Bytes is about the bytes of the payload slots, Pools about the choice of a pool.
-- - Trace: src/common/tp_trace.c. Generator has the operations; a round of the loop of
--   tp_trace_id_generator_next is a value, so that rounds of many threads can be put in any order.
--   Words, Order, Fields and Progress hold the proofs.
-- - CommandQueue: src/common/tp_mpsc_queue.c. Ring has the operations as whole calls, Threads as
--   single accesses of many threads. Slots, Loops, Inv, Writes, Refine and Session compare the calls
--   with a bounded queue, Single is about a ring of one slot, and Interleaved, Accesses, Steps and
--   Delivery are about the threads.
-- - Progress: src/client/tp_progress_poller.c. Poller has the operations; Entries, Turns, Ring and
--   Direct hold the proofs, Ring for a poller without a consumer and Direct for one with it.
-- - Tensor: tp_tensor_header_validate and what it calls (src/common/tp_tensor.c). Header has the
--   checks; Layout, Reverse, Strides and Places hold the proofs.
-- - Discovery: src/discovery/tp_discovery_service.c. Table has the entries and what changes them,
--   Query the search; Search and Streams hold the proofs.
-- - MergeMaps: the registry of src/common/tp_merge_map.c. Registry has the operations, Lookup the
--   proofs.
--
-- What the outside world answers (clocks, seeds, allocations, files) is a record `Env` that an event
-- of the driver brings with it; the theorems hold for all its answers. The headers of tensors are a
-- record `Codec` of functions, since they rest on generated code.
--
-- Loops are recursions on lists or on fuel. prune_loop and expire_loop run for the length of their
-- table, and every round drops an entry or passes one by; node_id_loop has the 1024 attempts of the
-- code and range_loop the size of the range, where the code has it too. The loops around a weak
-- compare and swap run over a list with one entry for each round: whether it fails, and for trace ids
-- what the clock reads; they give none where the list ends first, and the theorems say which lists
-- suffice. Machine integers are natural numbers with the wrap-around written out, also in the address
-- of a payload slot and in the size of an allocation. What C leaves open is an answer of its own:
-- `overruns` of the command queue, `crashes` of the discovery service.
--
-- Not modelled: the encoding of messages and the Aeron transport; the creation, mapping and
-- collection of files (a result of `Env`); reading configurations; the freeing of memory; the claims
-- of a producer, its descriptors, progress and metadata; the
-- decoding of tensor headers, the discovery client, the supervisor, and the client's conductor. The loads and stores of Frames
-- are seen in the order of the program: reordering by a weak memory model is left out, and so is a
-- store of the payload that is seen in part.
pub mod Common
pub mod Driver
pub mod JoinBarrier
pub mod ConsumerRegistry
pub mod Frames
pub mod Trace
pub mod CommandQueue
pub mod Progress
pub mod Tensor
pub mod Discovery
pub mod MergeMaps
