-- ===== src/Lib.antt =====
-- Verification of the serving runtime: a server for one language model, which keeps the KV memory
-- of the requests within a budget and composes their tokens into batches.
--
-- The parts and how they interact. HTTP requests go to the engine (src/engine.cpp), which admits
-- them while there are block credits (src/block_pool.cpp), looks for a cached prompt to start
-- from (src/prefix_index.cpp), releases the text of the tokens in whole characters
-- (src/utf8.cpp), and in each iteration asks the scheduler (src/scheduler.cpp) for a batch, that
-- a model runner executes. The limits of all this are one configuration (src/config.cpp).
--
-- What models which code:
--   Base           what the modules share: vectors as lists, Boolean tests, 64-bit words, integers,
--                  the standard exceptions as results, and `std::stable_sort`
--   BlockPool      include/llmserve/block_pool.h, src/block_pool.cpp: class BlockPool, every
--                  operation under its name. `refs_`, `free_`, `seen_` and `validation_epoch_` are
--                  the fields of a record that each operation takes and returns
--   Config         include/llmserve/config.h, src/config.cpp: EngineConfig::validate and
--                  validate_mini_cuda_config, with the capacity contract of
--                  include/minillm/cuda/kv_layout.h and the names in precision.h beside it
--   Scheduler      include/llmserve/scheduler.h, src/scheduler.cpp: schedule_batch, with its lambdas
--                  and loops as the functions before, add_decode and add_prefill
--   PrefixIndex    include/llmserve/prefix_index.h, src/prefix_index.cpp: class PrefixIndex, every
--                  operation under its name; the maps and sets of the standard library are
--                  association lists and ascending lists, and the trie is a pair of data types
--   Utf8           include/llmserve/utf8.h, src/utf8.cpp: class Utf8Buffer; `pending_` is the list of
--                  bytes that each operation takes and returns, one round of drain is drain_step
--   Request        include/llmserve/engine.h, src/engine.cpp: the events of class RequestHandle,
--                  which the engine emits and the client's connection takes
--   Runner         include/llmserve/model_runner.h: class ModelRunner, as a record of operations over
--                  a type of states, which is a parameter of the engine
--   Engine         include/llmserve/engine.h, src/engine.cpp: the members of Engine::Impl as a record;
--                  Engine.Construct is its constructor, and the functions of its thread are in
--                  Engine.Finish (terminal, finish, expire_requests, evict), Engine.Admit (admit,
--                  admit_waiting, cache_prompt), Engine.Batch (iteration) and Engine.Run
--                  (terminate_all, run), each a call in the sense of Engine.Action: it returns,
--                  throws or has no defined behaviour, and takes and returns the record;
--                  Engine.Clients is submit, cancel and statistics
--   Cuda           src/minillm/cuda/batch_state.h, batch_state.cpp: class BatchState, the ledger of
--                  the lengths of sequences; src/minillm/cuda/page_table.h, page_table.cpp: class
--                  PageTableState, the map from the blocks of a sequence to physical pages. Both are
--                  state machines, whose phase is a field of the record
--   PagedKv        include/minillm/paged_kv.h, src/minillm/paged_kv.cpp: class PagedKV, the pages of
--                  the CPU's KV cache, which sequences share until one of them writes
--   CudaRunner     src/mini_cuda_runner.cpp: class MiniCudaRunner, as a runner of the engine, over the
--                  CUDA runtime, of which include/minillm/cuda/runtime.h is the interface
--   Parallel       include/minillm/parallel.h, src/minillm/parallel.cpp: how a run of
--                  ParallelExecutor shares out an index range, as a relation of steps of the workers
--
-- Conventions. A member function takes the object and returns what it returns together with the
-- object after it; where it can throw, the result is `err` with the class of the exception. An
-- operation that changes the object before it throws returns that object too. An unsigned 64-bit
-- number that the code increments or decrements wraps around; a sum or a counter of calls that
-- stays far below 2 ^ 64 does not. An unchecked index that is out of range is an outcome of its own,
-- `undefined`, in Engine and PagedKv. The loops run over a list, so no fuel is needed, but for that
-- of Utf8Buffer::drain, which moves by up to four bytes a round: it has the number of pending
-- bytes as its fuel, which Utf8.Stream shows to be as good as more; and for those of the engine
-- that evict, which have the number of cached prompts as their fuel, since a round takes one away,
-- and the loop of admit_waiting, which has the number of waiting requests; the loop of submit for
-- an identifier, which has one more than there are registered requests, and Engine.Submission shows
-- that one of so many is free. The test files run the operations on concrete inputs.
--
-- The engine's thread is alone in changing its members. What it sees of the rest is the World: to
-- each reading of the clock and each look at a client there is an answer that nothing else
-- determines, so what holds for every World holds however clients and thread interleave. The loop of
-- `run` is a recursion over the rounds that the thread has made, which may be any number; where they
-- end without a stop it is still running, and what is behind the loop has not run.
--
-- The contracts. A pool is described by the ledger of the block tables that clients hold: the
-- count of a block is how many tables name it. An index is described by its entries alone: the
-- trie follows from them. A plan of the scheduler is described by the tokens it gives to each
-- item. An engine is described by its balance (Engine.Balance): the pool tracks the tables of the
-- active requests and of the cached prompts, and a sequence is free or has one holder; the calls of
-- the engine are proved against that with the rules of Engine.Logic. A paged cache is described by
-- what its sequences read.
--
-- Not modelled: the messages of exceptions, clock readings, logging, locks and threads; values of
-- an enumeration outside of those listed; the engine's telemetry and the timings of events; the
-- other model runners, the runtimes and the HTTP server; the model files, tokenizer and forward
-- passes, which are floating-point code over third-party libraries.
pub mod Base
pub mod BlockPool
pub mod Config
pub mod Scheduler
pub mod PrefixIndex
pub mod Utf8
pub mod Request
pub mod Runner
pub mod Engine
pub mod Cuda
pub mod PagedKv
pub mod Parallel
pub mod CudaRunner
