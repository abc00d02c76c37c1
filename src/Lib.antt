-- ===== src/Lib.antt =====
-- HarvestMoE: the serving core of a mixture-of-experts engine (package fastmoe). Paths are from
-- the root of the repository.
--
-- The parts, and how they interact. The router's server (fastmoe/serve/router/model_rpc.py) takes
-- tokenized requests from the router (fastmoe/serve/router/manager.py) into a queue. The execution
-- engine (fastmoe/backend/execution_engine.py) packs them into micro-batches, runs the layers,
-- samples tokens and marks requests as finished; the server then answers the finished ones. The
-- keys and values of the tokens live in a pool of lines (fastmoe/backend/memory.py) or in a paged
-- cache (fastmoe/backend/paged_kv_cache.py). A tracker (fastmoe/backend/expert_tracker.py) records
-- where the weights of each expert are.
--
--   Base       Python values and calls: signed integers, lists, dicts, exceptions, and the tensor
--              operations that the program uses (Base.Tensor).
--   PagedKv    `BlockTable` (PagedKv.BlockTable) and `PagedKVCache` (PagedKv.Cache), with the
--              allocation of blocks (PagedKv.Allocation, PagedKv.Partition) and the reads and
--              writes of cells (PagedKv.Rows, RoundTrip, Isolation, Layers). PagedKv.Memory is an
--              implementation of the tensor operations. The capacity that the engine computes from
--              the free blocks is PagedKv.Capacity, with its bounds in PagedKv.CapacityBounds.
--   KvPool     `TokenToKVPool`: the lines that `alloc_cpu` hands out (KvPool.Lines), `store` and
--              `load` (KvPool.Offload).
--   Requests   `Req` (Requests.Req), `handle_batch_generate_request` (Requests.Admission, Accepted),
--              the tokens that a request collects (Requests.Decoding), and the answers of
--              `handle_finished_requests` and `handle_aborted_requests` (Requests.Finishing), and
--              the defaults of `GenerateReqInput` (Requests.Input). `SamplingParams` and its checks
--              are Requests.Sampling.
--   MicroBatches  `create_micro_batches` of the engine: one round of the greedy loop
--              (MicroBatches.Packing), and what the micro-batches hold (Conservation, Capacity).
--   Prefill    `Batch` of fastmoe/backend/task.py: the places of its sequences in the cache
--              (Prefill.Regions), a prepared batch (Prefill.Lines), and all micro-batches of a
--              queue (Prefill.Engine).
--   Schedule   the order of the calls in `batch_forward_step`, with `get_prefetch_e2p_idx`: what is
--              called for one micro-batch (Schedule.Decode, Schedule.Forward), the pinned slots
--              (Schedule.Pins), and a step of two micro-batches (Schedule.Two).
--   ExpertCache  the GPU cache of the experts in fastmoe/backend/execution_engine.py: its size and
--              the token pool (ExpertCache.Pool), the slots of the experts (ExpertCache.Mapping),
--              the tracker at the start (ExpertCache.Init, Own), and the slices of the prefetch in the
--              prefill (ExpertCache.Prefetch) and in a decode step (ExpertCache.Decode).
--   Serving    `exposed_step`, `batch_forward_step` and `flush_cache`: a step of the server from the
--              requests to the answers (Serving.Step), with the answers counted (Serving.Answered).
--   Router     `RouterManager` of fastmoe/serve/router/manager.py: what its two coroutines do in any
--              order (Router.Order).
--   Detokenizer  `DetokenizerManager` of fastmoe/serve/detokenizer_manager.py: the texts of an answer
--              (Detokenizer.Texts).
--   Tokenizer  `TokenizerManager` of fastmoe/serve/tokenizer_manager.py: the objects of the requests
--              (Tokenizer.Views, Answers), the outputs of a list of requests (Tokenizer.Outputs), and the
--              stream of one request (Tokenizer.Stream).
--   Ports      the search for free ports in fastmoe/utils/port_utils.py (Ports.Search, Find, Collect,
--              Allocate, Later; Ports.Free where no other program takes ports), and of
--              fastmoe/utils/utils.py `alloc_usable_network_port` (Ports.Init, First) and
--              `handle_port_init` (Ports.Init, Additional, Fallback, Main). Ports.Lists has the counts.
--   Tracker    `ExpertTracker`: its operations under the lock, the updates (Tracker.Updates), the
--              summaries (Tracker.Summary, Tracker.Totals), and the sync with the mapping tensor
--              (Tracker.Sync).
--   Reallocation  `ReallocationManager` of fastmoe/backend/expert_reallocation.py, and how the
--              server submits and ends a request (Reallocation.Manager).
--   Mover      `ExpertMover` of the same file: the free slots of a layer (Mover.Slots), and the
--              moves of an expert between GPU and CPU (Mover.Moves); the moves that the server makes
--              for a batch (Mover.Batch), and the slots under them (Mover.Own, OwnGpu, OwnBatch).
--
-- A method is a function of the object's state, with the name of the method. It returns the new
-- state together with a value or an exception (Base.Action); the state of an object that raised
-- is what the code had written until then. The `Lock` of the tracker is not reentrant: taking it
-- twice is the outcome `blocked`. Numbers are unbounded as in Python; identifiers are numbers,
-- since they are only compared. Every loop is a recursion over the list that it runs through, or
-- over the number of rounds that are left, which the code fixes before the loop: no fuel is used.
--
-- The tensor library is a parameter (`TensorLib`, `KvTensors`, `RowTensors`): reads and writes by
-- index, slices, and new tensors, with the documented behaviour of each as a law. The test modules
-- instantiate each by concrete functions.
--
-- The tokens that the models sample are parameters too (`Setting` of Serving), and so are the product
-- of the number of experts with a float that says how many stay on the GPU (`Config` of ExpertCache).
--
-- Left out: GPU kernels and the models, streams and events, the tokenizer, the processes and their
-- sockets, logging, and the scripts for benchmarks and plots.
pub mod Base
pub mod PagedKv
pub mod KvPool
pub mod Requests
pub mod Tracker
pub mod MicroBatches
pub mod Reallocation
pub mod Mover
pub mod Prefill
pub mod Schedule
pub mod ExpertCache
pub mod Serving
pub mod Router
pub mod Ports
pub mod Detokenizer
pub mod Tokenizer
