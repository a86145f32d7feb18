-- ===== src/Lib.antt =====
-- A verification library for BTC-Multipool-Cache-Miner (C++, src/).
--
-- The miner takes jobs from several pools, keeps the current job of each source in a slot, lets a
-- scheduler choose the slots for a launch on the GPU, and verifies and submits what the GPU finds.
-- A job comes in at an adapter (src/adapters), which normalizes it (src/normalize: byte order,
-- targets, Merkle root, midstate) and queues the work item. The pool router polls the adapters. The
-- registry (src/registry) publishes an item in its slot under a new generation, and the scheduler
-- (src/scheduler) repeats the work ids by weight. The kernels (src/cuda) hash
-- headers and put hits into a ring in device memory, which the loop of the program (src/tools) drains.
-- The router of submissions (src/submit) hashes the header again on the CPU, compares it with the
-- target, keeps the submission in the outbox (src/store) and hands it on; the block submitter writes a
-- whole block as text for the node. src/net speaks with the pools and the node.
--
-- Which file models what (the source's camelCase names are written in snake_case):
--   Base/           the library names and the helpers: tests, lists, texts, words, bits, faults,
--                   tables
--   Normalize/      Endian: endianness.h; Targets: targets.cc; Midstate: midstate.cc; Merkle:
--                   merkle.cc; Coinbase: coinbase.cc; RollingCaps: rolling_caps.h; Normalizer:
--                   normalizer.cc
--   Submit/         Sha256 and HashTarget: cpu_verify.cc; Router: submit_router.cc; Gbt:
--                   gbt_submitter.cc; Stratum: stratum_submitter.h
--   Cuda/           HitRing: hit_ring.h; LaunchPlan: launch_plan.h; AutoTune: auto_tune.h; Sha256d:
--                   sha256d.cuh; Engine: the mining kernels of engine.cu; Jobs: its table of jobs
--                   and its launches; DeviceRing: its ring of hits, from a block of threads to
--                   the drain
--   Registry        types.h and work_source_registry.cc
--   Scheduler       scheduler.h
--   Store/          Outbox: outbox.h; Ledger: ledger.h
--   Cache/          VramPages: vram_pages.cc and cache_manager.cc; PredictWorker: predict_worker.h
--   Adapters/       StratumAdapter, StratumRunner, GbtAdapter, GbtRunner, PoolRouter and PoolProfiles: the
--                   files of these names (StratumRunner: stratum_runner.cc, its receive loop over
--                   messages; GbtRunner: gbt_runner.cc, its rounds over templates)
--   Tools/          Runner: the loop of stratum_registry_runner.cpp (Slots: polling into the registry;
--                   Jobs: the device's job and the host's header; Hits: shares and blocks;
--                   Backpressure: penalties and threads; Replay: the outbox at the start)
--   Net/            Send: the send loops; StratumClient: stratum_client.cc; Base64 and RpcClient:
--                   rpc_client.cc
--   Obs/            Metrics: metrics.cc, its registry and the test of a request
--   Tests/          each result at a concrete input, and runs of the definitions
-- A module states the operations; its children prove what they are named for.
--
-- Numbers are native natural numbers; a cast or a 32- or 64-bit operation that can wrap around has its
-- remainder written out. A subtraction that can go below zero is written as the machine does it.
-- Arrays and strings are lists, a string that of its character codes. A write outside an array is the
-- fault `out_of_bounds` of Base/Checked, an exception is a result. Each method that holds the object's
-- mutex is one step; the state is passed and returned.
--
-- Fuel: `full_blocks` (midstate.cc, the loop over whole blocks) gets the length of the tail, and a
-- round takes 64 bytes; `level_loop` (merkle.cc) gets the number of ids, and a round at least removes
-- one; `load_loop` (outbox.h) gets the length of the file, and a round takes 92 bytes; `halve_while`
-- (launch_plan.h) gets 3 rounds from 256, after which its condition is false; `height_bytes`
-- (gbt_submitter.cc) gets 4 rounds of a byte each for a 32-bit height; `unroll_loop` (engine.cu) gets
-- one round more than the nonces of a thread, and a round takes at least two; `poll_source`
-- (stratum_registry_runner.cpp) gets more rounds than there are queued results; `emit` (rpc_client.cc)
-- gets two rounds, since a byte fills at most two digits; `send_all` gets the length of the text. The
-- proofs run each loop to its end.
--
-- Arguments instead of definitions, because their code is not in the repository: the answers of the
-- file system (the outbox's files), the client that calls the node, the client that sends a share, the
-- adapters behind the pool router, `std::hash`, the clock of the Stratum runner, the sockets (what
-- they take and what they bring, as events), the first line of the cookie file, and the reader of
-- JSON.
--
-- Threads of the GPU: an atomic operation is one step, and a block is the list of its hits in the
-- order in which its counter numbers them. A launch is the list of what its threads find, lane by
-- lane.
--
-- Not modelled: the calls of the CUDA runtime, sockets and TLS (src/net/socket_*.cc), logging, the
-- server of the metrics, the command line and the console of src/tools, the regular expression of the
-- node's URL and the text of the HTTP request, everything that reads or writes JSON with
-- nlohmann::json, which is not in the repository (configuration, ledger files, tuning profiles; the
-- members of block templates and the Stratum runner's messages are values), the connection and the
-- threads of the Stratum and GBT runners, and what a reader of the registry sees in the middle of a
-- write.
pub mod Base
pub mod Normalize
pub mod Submit
pub mod Cuda
pub mod Registry
pub mod Store
pub mod Scheduler
pub mod Cache
pub mod Adapters
pub mod Net
pub mod Obs
pub mod Tools
pub mod Tests
