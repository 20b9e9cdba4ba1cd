-- ===== src/Lib.antt =====
-- C_Programming is a set of independent C exercises under exercises/, each a program of its
-- own. This library models those with a data structure or an algorithm at their core and proves
-- what their functions promise.
--
-- How the files follow the code:
-- - Nodes.antt, with its children: the list node that exercises/10_linked_lists/linked_lists.c
--   and exercises/16_stack_and_queue/stack_queue.c share, and the memory it lives in. A heap
--   gives each address its node or nothing. A command is run on a heap and ends in a result, in
--   exit(1), or in undefined behaviour: a null or dangling pointer followed, a node freed
--   twice, an int that overflows.
-- - LinkedList.antt: exercises/10_linked_lists/linked_lists.c. Each function keeps its name
--   without the prefix list_, and list_free is destroy. The structure List is passed and
--   returned by value.
-- - StackQueue.antt: exercises/16_stack_and_queue/stack_queue.c: the functions stack_* and
--   queue_* (stack_free and queue_free are destroy) over the same heap, brackets_balanced, and
--   main. StackQueue/Levels.antt is bfs_order, whose loop is given the size of the tree and one
--   more as its rounds. StackQueue/Calls.antt states the sequences of calls to which both
--   containers reply.
-- - SearchTree.antt: exercises/15_binary_search_tree/bst.c, the functions bst_* (bst_free is
--   destroy). No node has two pointers to it, so a tree is a value; every node keeps its
--   address, and what is freed is listed by address.
-- - HashTable.antt: exercises/18_hash_table/hash_table.c, the functions hmap_* (hmap_free is
--   destroy). A key is the list of its bytes, a bucket the list of its entries, the array of
--   buckets a function on indices. The test of the load factor, which the source does in
--   floating point, is done exactly.
-- - Sorting.antt, with its children: exercises/17_sorting/sorting.c. Sorting.antt holds
--   bubble_sort, insertion_sort and selection_sort, Sorting/Merge.antt merge_sort and
--   Sorting/Quick.antt quick_sort, each with the functions that it calls. An array is a
--   function from its indices; quick_sort is given its length, so that a scan which leaves the
--   array is seen.
-- - Enums.antt, with its children: exercises/34_enums/enums.c. Each enum is a data type; its
--   last value, which the source uses as a sentinel, is none. The arithmetic on double is an
--   argument.
-- - Interleave.antt: threads as a list of positions in their code, of which a step moves one;
--   weights summed over the threads.
-- - Threads.antt, with its children: exercises/24_threads/threads.c. Threads.antt holds
--   bq_push, bq_pop, bq_close, producer, consumer and section_condvar, where a step is one call
--   of a queue function by one thread, since each holds the mutex throughout.
--   Threads/Conditions.antt adds its condition variables: a thread whose condition is false is
--   blocked until a signal, the broadcast or a spurious wake-up. Threads/Workers.antt is worker
--   and section_basics, Threads/Race.antt unsafe_inc, Threads/Guarded.antt safe_inc and
--   Threads/LockOrder.antt safe_order, where a step is one shared access or one call of the
--   library. The steps of all threads in any order are a relation on the shared state.
-- - Atomics.antt, with its children: exercises/29_atomics/atomics.c: the atomic operations,
--   Atomics/Counter.antt safe_worker, Atomics/Maximum.antt the loop of section3_cas,
--   Atomics/Spin.antt the spinlock, and Atomics/Treiber.antt lf_push and lf_pop, with the
--   addresses of nodes as they are in the source, so that one that comes back is taken for the
--   old one (ABA). An atomic operation is one step, and all threads see the steps in one order.
--   A weak compare-exchange may fail for no reason.
-- - Semaphores.antt, with its children: exercises/30_semaphores/semaphores.c: the operations as
--   functions on the value, Semaphores/Pool.antt the workers that share the pool,
--   Semaphores/Handoff.antt the producer and its consumer, Semaphores/Deadline.antt the bounded
--   wait.
-- - Bits.antt, with its children: exercises/13_bit_manipulation/bits.c. A value of w bits is a
--   number below 2 ^ w, and each conversion to a narrower type is a remainder. The loop of
--   popcount has 33 rounds: each clears a bit of 32.
-- - Errors.antt, with its children: exercises/20_error_handling/error_handling.c: parse_int and
--   parse_percent with what they use of strtol, the calls that pass an error on, and
--   risky_divide and risky_sqrt_approx, which jump to the point that setjmp saved or end. The
--   value of errno is left out.
-- - Generics.antt, with its child: exercises/21_generics/generics.c: genvec_new, genvec_push,
--   genvec_get and genvec_free, generic_min with cmp_int, and the tagged variants. A void
--   pointer with a size is a value of a type parameter.
-- - Functions.antt, with its children: exercises/04_functions/functions.c, with main. A
--   recursive function is given the depth of calls that it may reach.
-- - Memory.antt, with its children: exercises/08_memory_management/memory.c, with main as the
--   events of a run for each answer of the allocator.
-- - Multiplexing.antt, with its children: exercises/28_io_multiplexing/io_mux.c: the loops of
--   section2_select, section3_poll and section4_epoll as functions of what the system answers,
--   and Multiplexing/Echo.antt the server of section6_echo_server as a function of the events.
-- - Sockets.antt, with its children: exercises/26_sockets/sockets.c: recv_all, send_msg,
--   recv_msg and the exchange of section_tcp. What happens at each read is an argument, an
--   error or the number of bytes that have arrived, so the theorems hold for every split into
--   partial reads. The loop of recv_all has a round for each byte asked for and one more, since
--   each read gives at least a byte.
-- - MultiFile.antt, with its children: exercises/19_multi_file/stats.c, vec2.c and main.c. The
--   operations on double are a record, so nothing is said of rounding; the variable stats_calls
--   is passed from call to call.
-- - Unions.antt, with its child: exercises/12_enums_and_unions/enums_unions.c, with main. An
--   enum is its number, a tagged union a data type.
-- - Signals.antt, with its children: exercises/23_signals/signals.c: write_int, safe_handler,
--   slow_operation and the loop of section_atomic_flag. When an alarm goes off is an argument;
--   the loop of write_int has a round for each place of its buffer.
-- - FunctionPointers.antt, with its children:
--   exercises/11_function_pointers/function_pointers.c, the callbacks, the dispatch table and
--   main. What qsort leaves is that of an insertion sort with the same comparator.
-- - Pointers.antt, with its children: exercises/06_pointers/pointers.c: double_it, reverse and
--   main. A text is a function from its offsets; a pointer into it is an offset.
-- - Variadic.antt, with its children: exercises/22_variadic/variadic.c. The arguments of a call
--   are a list of tagged values, since to read one as another type is undefined; what vsnprintf
--   makes of a format is a parameter.
-- - Prelude.antt: the numbers, lists and Boolean tests that the parts share, the texts, and the
--   signed integers of the values.
--
-- Conventions. The answer of malloc or calloc is an argument of the function that asks; what it
-- promises is that it is not null and not in use when it is asked for, so a freed address may
-- be answered again, and a null answer is the code's exit(1) where it is modelled. A loop over
-- a chain of nodes has the size of the structure plus one as its fuel; a chain of that many
-- nodes needs one round for each and one for the end, and each theorem that a function ends
-- includes that the fuel is enough. The loops of merge have one round for each place from lo to
-- hi, and the recursions of the sorts and the loop of partition one for each place of the
-- array. The sizes of lists, stacks and queues are compared with the largest int, 2147483647;
-- the capacity of a hash table is not. Stored values are only moved and compared, so they are
-- integers without bounds. An output is the list of the values that are printed; titles are
-- left out.
--
-- Not modelled: the exercises on the language alone, on files, processes and the terminal,
-- where the code calls the system and keeps no state of its own; floating point; the thread
-- attributes and the named semaphore, which are calls of the library; and the allocations of
-- the hash table that fail.
pub mod Atomics
pub mod Bits
pub mod Enums
pub mod Errors
pub mod FunctionPointers
pub mod Functions
pub mod Generics
pub mod HashTable
pub mod Interleave
pub mod LinkedList
pub mod Memory
pub mod MultiFile
pub mod Multiplexing
pub mod Nodes
pub mod Pointers
pub mod Prelude
pub mod SearchTree
pub mod Semaphores
pub mod Signals
pub mod Sockets
pub mod Sorting
pub mod StackQueue
pub mod Threads
pub mod Unions
pub mod Variadic
