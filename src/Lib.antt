-- ===== src/Lib.antt =====
-- mlonmcu-sw is the target software of MLonMCU: benchmarks with their harness (lib/), and the
-- start-up code, drivers and C library of the simulated targets (cmake/targets/).
--
-- Parts and files:
-- - lib/openasip/crc: Crc.antt has reflect, crcSlow, crcInit and crcFast of crc.c for any standard
--   of crc.h (Crc/Standards). Crc/Linear and Crc/Table hold the algebra of the division and the
--   entries of the table, Crc/Fast the comparison of the two routines.
-- - lib/coremark: Coremark/Util is the checksum of core_util.c (crcu8, crcu16, crcu32, crc16), as a
--   division in Util/Words. Coremark/State is core_state.c: Machine is core_state_transition with
--   an independent Grammar, Input is core_init_state, Bench is core_bench_state, which runs the
--   machine over the text of core_init_state and adds its counts to the checksum. Coremark/Matrix is
--   core_matrix.c, with core_init_matrix in Matrix/Init. Coremark/Links has the operations of
--   core_list_join.c on a store of heads, with the merge sort in Links/Sort for any comparison
--   (ByIdx has cmp_idx), core_list_init in Links/Init and core_bench_list, which runs them all,
--   in Links/Bench; Coremark/Calc has the functions on its data, which run the state machine
--   and the matrix test and keep their results.
-- - cmake/targets/gvsoc/libc/malloc: Malloc/Heap is the memory with the headers of malloc_internal.h,
--   Malloc/Internal the functions of malloc_internal.c. Malloc/Chunks is the same allocator on a
--   list of chunks (first fit, and insertion with joins), Malloc/Chain says which list a memory
--   holds, and Alloc, Release and Gaps prove that the functions do on the memory what Chunks does on
--   the list. Blocks says what first fit takes, Restore and Info state the results for the caller.
-- - cmake/targets/gvsoc/drivers: Drivers/Task has the tasks of pmsis_task.c and the queue that their
--   links make, Drivers/Uart the transfers and the interrupt handler of uart.c, and
--   Drivers/Uart/Device what a program calls (open, close, control, read and write). Fifo and Handler
--   keep the two queues of a device, Transfers lets interrupts end the transfers, Endless and Blocking
--   are about calls that wait, Bystander and Refused about tasks that are in no queue, and Devices
--   about open, control and close.
-- - lib/ml_interface/v2/mlifio: Mlifio has mlifio_to_file, with decimal numbers in Text, and Mlifio/Read
--   has mlifio_from_file. Header says how the reader takes the header apart, and RoundTrip what it
--   reads of what was written.
-- - Base holds the words, lists, bits and partial results that the parts share.
--
-- Numbers: C's unsigned types are native numbers, with the wrap-around written out; signed values
-- are given by their patterns. `int` and `long` have 32 bits, as on the targets. Memory is a list
-- of bytes from the pointer on, or for the allocator a function from addresses to headers.
--
-- Loops: a loop over a count is structural. The others run on fuel, and `none` stands for missing
-- fuel or an access out of the memory; `mlifio_from_file` keeps a division by zero apart from
-- these. `core_init_matrix` and `core_init_state` have a round for each byte of the block, the
-- scans of `core_bench_state` have one for each byte of the memory, and the walks of the allocator
-- and of the CoreMark list have one for each chunk or head and one for the end; the theorems show
-- that this is enough. A call that waits for the UART goes through the list of events that come
-- meanwhile, with no bound on their number.
--
-- Not modelled: debug prints (`__malloc_dump` and CORE_DEBUG), the driver of CoreMark, the other
-- drivers and allocators of gvsoc, the registers of the UART (its commands are a log), the interfaces
-- to model runtimes, standard input and output of mlifio.c, and copies of other projects (Dhrystone,
-- SHA-256 of Nettle, Classic McEliece, rvv-bench).
pub mod Base
pub mod Crc
pub mod Coremark
pub mod Malloc
pub mod Drivers
pub mod Mlifio
