-- ===== src/Lib.antt =====
-- Verification of metrics_monitor: a heap allocator, readers of system metrics under /proc, and
-- the loop that publishes them as gauges.
--
-- The parts of the program and their models:
--
-- lib/memory, the allocator. Memory is a function from 8-byte word addresses to words (Memory);
-- Alloc/Block reads and writes the fields of `struct s_block`; Alloc/State has the globals `base`,
-- `method`, `malloc_call` and the log file as the record Heap, and the system as the record Os,
-- whose `mmap` is a parameter with its documented behaviour in IsMmap. Alloc/Words has `size_t`
-- arithmetic and `align`, Alloc/Find `find_block`, Alloc/Ops the operations on blocks
-- (`split_block`, `copy_block`, `valid_addr`, `fusion`, `extend_heap`), Alloc/Api `my_malloc`,
-- `my_free`, `my_calloc`, `my_realloc` and `mem_trim`, and Alloc/Report `memory_usage`,
-- `check_heap` and `external_frag`. Every function keeps its name in the source.
--
-- The abstract view of the heap is the list of its blocks: Alloc/Layout defines Cell (an address,
-- a size, used or free) and Shows, which says that the links in memory from an address on give
-- that list. Alloc/Layout/* relates the operations to functions on the list; Alloc/Choice says
-- which block a policy is to choose; Alloc/Invariant has the invariant: blocks that do not
-- overlap, inside regions of the system. Alloc/Malloc, Alloc/Free, Alloc/Realloc, Alloc/Calloc,
-- Alloc/Copy and Alloc/Trim are about the operations of these names on such lists, Alloc/Move
-- about the branch of `my_realloc` that moves a block; Alloc/Release has what a block's own links
-- must be for it to be freed. Alloc/Session has sequences of calls of `my_malloc`, `my_free`,
-- `set_method` and of `my_realloc` in place, and of writes of the caller to its allocations, as
-- the relation Reach, with the allocations that are alive and what was written to them last. A
-- call of `my_free` is a step of it where the block's field `ptr` is wrong, so that nothing
-- happens, or where its links are right and the free blocks that it swallows stand side by side;
-- likewise for `my_realloc` where it grows the block. The branch of `my_realloc` that moves a
-- block, and `my_calloc`, which clears more than its block, are no steps. Alloc/Free/Ready has
-- what `my_free` needs of all links of the list, for the next call too. Alloc/Faults is about
-- blocks that `split_block` made or that are not neighbours in memory, and about regions that are
-- too short.
--
-- src/metrics.c, the readers: Stdio models what they use of `fgets` and `sscanf`, on lists of
-- bytes; Metrics/Counters, Metrics/Memory, Metrics/Cpu and Metrics/Traffic have the readers, each
-- a function of the content of its file (`none` where it cannot be opened) and of the static
-- variables it keeps. Stdio/Fields and Metrics/Traffic/Lines describe the lines that the kernel
-- prints. The type `double` is a parameter, the record Double of Double.antt.
--
-- src/expose_metrics.c and src/main.c, the updates and the main loop: Expose has one function for
-- each `update_*`, which gives the gauge and the value it is set to, or the error message that it
-- prints. Expose/Round is
-- one round of the main loop, Expose/Main the start of `main` and its loop with the values that
-- the gauges hold, where `prom_gauge_set`, called with the static pointers, is the parameter Client
-- with its documented behaviour IsClient, and Expose/Init is `init_metrics`, with the Prometheus client as the parameter Prom.
--
-- src/sim_alloc.c, the simulation of random allocations: Sim, with `rand` as a parameter;
-- Sim/Liberar is about its loop that frees the remaining pointers. `init_sim` leaves its loop
-- before the first simulation; the loop body behind that is the definition iteracion.
--
-- Loops over the block list run on fuel, one unit for each block; the theorems ask for more fuel
-- than the list has blocks, and say that the loop then ends. The other loops are structural.
-- Integers are natural numbers with the wrap-around of their width written out.
--
-- Not modelled: the HTTP server, the threads that run beside the main loop with their mutex and
-- semaphore, the sleeping, `log_close`, the time of day in the log, and what is only printed.
--
-- Tests has concrete systems, heaps and files, and the theorems applied to them.
pub mod Base
pub mod Pairwise
pub mod Memory
pub mod Double
pub mod Alloc
pub mod Stdio
pub mod Metrics
pub mod Sim
pub mod Expose
pub mod Tests
