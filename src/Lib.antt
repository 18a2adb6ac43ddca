-- ===== src/Lib.antt =====
-- Models of the programs of the course repository, and what they are proved to do.
--
-- Cache simulator (ASSN/ASSN4/csim.c)
--   Csim.antt models all of it but freeCache: Block, Set, Cache and the global variables are
--   records, initCache is init_cache, cacheAccess is cache_access with access_blocks for what it
--   does to one set, simulate and main have their names. The trace is the list of the lines that
--   fscanf reads; what getopt, atoi and fopen give are the arguments of main. An int is its 32-bit
--   pattern (u64_of_int extends its sign), and a read behind a set or a cache is the result none. malloc is
--   taken to succeed; where the number of sets or lines is no int, the array is empty.
--   Csim/Lru.antt holds the abstract set, a function from tags to the time of the last access,
--   Csim/Policy.antt and Csim/Sets.antt relate the code to it, Csim/Totals.antt and
--   Csim/Simulate.antt are about the counters, Csim/FirstAccess.antt about the start of a run.
--
-- Shell (ASSN/ASSN5/tsh.c)
--   Tsh/Jobs.antt models the job list and its routines, Tsh/Parse.antt parseline,
--   Tsh/Handlers.antt the signal handlers and waitfg, Tsh/Shell.antt builtin_cmd, do_bgfg and
--   eval. The global variables are the record Shell, to which the output and the signals sent are
--   added as a list of effects. A pid_t and an int are 32-bit patterns, a C string is the list of
--   its bytes, a pointer into the job list is the index of the slot. What kill, fork and the calls
--   on the signal mask answer is the record System. Signals are delivered while waitfg sleeps, in
--   the order of a list; and, in the read loop of main (Tsh/Main.antt), while it reads; a delivery
--   at another point of the parent is not modelled, nor is the child side of fork. The standard
--   input of main is a list of bytes, getopt and Signal are its arguments; its loop runs on fuel,
--   which the length of the input bounds. split_args runs on fuel, which the length of the line
--   bounds; wait_loop follows the list of signals, and is blocked where that ends. Tsh/Slots.antt
--   sees the list as a map from process ids to jobs, Tsh/JobMap.antt and Tsh/Deletion.antt are
--   about addjob and deletejob, Tsh/Jids.antt about job ids, Tsh/CommandLine.antt about parseline,
--   Tsh/Signals.antt, Tsh/Foreground.antt, Tsh/Resume.antt, Tsh/Waiting.antt, Tsh/Prompt.antt and
--   Tsh/Session.antt about the way from prompt to prompt, Tsh/NoCrash.antt and Tsh/ReadLoop.antt about the
--   end of main,
--   Tsh/Errors.antt about the errors of fg and bg.
--
-- Allocator (ASSN/ASSN6/mm.c on ASSN/ASSN6/memlib.c)
--   Mm.antt models the macros on header words and memlib.c, Mm/Heap.antt the functions mm_init,
--   coalesce, extend_heap, find_fit, place, mm_malloc and mm_free, Mm/Realloc.antt mm_realloc and
--   extend_heap_recycle. The memory is a function from the address of a word to its value, since
--   all accesses are to words at multiples of 4; memmove copies bytes of words in little-endian
--   order. The null pointer is none, a size_t has 32 bits as the build asks (-m32). The loops of
--   find_fit and extend_heap_recycle run on fuel, the break plus one, which is above the number of
--   blocks. The code under DEBUG and mm_check are not modelled. Mm/Blocks.antt says which words a
--   list of blocks has, Mm/Invariant.antt what a well-formed heap is; Mm/Place.antt, Mm/Fit.antt,
--   Mm/BestFit.antt, Mm/Placed.antt, Mm/Malloc.antt, Mm/Opened.antt, Mm/Extended.antt,
--   Mm/LastBlock.antt, Mm/Enlarged.antt, Mm/Answered.antt, Mm/Requested.antt, Mm/Coalesce.antt,
--   Mm/Merged.antt, Mm/Free.antt and Mm/Init.antt are about the functions; Mm/Layout.antt,
--   Mm/Settled.antt, Mm/NextTaken.antt, Mm/NextFree.antt, Mm/Coalesced.antt, Mm/Untagged.antt and
--   Mm/Freed.antt are about mm_free in a heap, with current_block and the epilogue, and
--   Mm/Reached.antt and Mm/Usable.antt about sequences of calls of mm_malloc and mm_free.
--   Mm/Resized.antt, Mm/Grown.antt and Mm/Kept.antt are about mm_realloc where the data stays in
--   its place. Its other ways are run in Mm/Tests.antt, a sequence of calls in Mm/HeapTests.antt.
--
-- Allocator driver (ASSN/ASSN6/mdriver.c)
--   Mdriver.antt models the list of payload ranges, add_range and remove_range, Mdriver/Valid.antt
--   eval_mm_valid, Mdriver/Trace.antt read_trace on the requests that fscanf reads. The allocator
--   and the memory are the record Package, a parameter: any functions at all; Mdriver/OnMm.antt
--   fills it with mm.c and memlib.c, and the tests run both together. The arrays blocks and
--   block_sizes are lists; an index behind them, which in the code is an access out of bounds,
--   makes the run undefined, as does a failed assertion. Mdriver/Util.antt models eval_mm_util,
--   whose quotient is the pair of its numbers, and eval_mm_speed; Mdriver/Peak.antt, with
--   Mdriver/Held.antt for the trace and Mdriver/Steps.antt for a request, says what they measure.
--   Mdriver/Ranges.antt and Mdriver/Checked.antt are about the ranges of a valid run.
--
-- Allocation exercise (Lab/LAB11/lab11.c)
--   Lab11.antt models first and best on lists of any length, the result of a process being none
--   where the code has -1. Lab11/Choice.antt, Lab11/Best.antt and Lab11/Room.antt are about the
--   blocks that are chosen.
--
-- Matrix transposition (ASSN/ASSN4/trans.c)
--   Trans.antt models trans, blocking, blocking_diag, blocking_64 and transpose_submit as the
--   lists of their stores to B, with the flat index of each element: A does not change, so the
--   values are the elements of A. Trans/Stores.antt is about lists of stores,
--   Trans/Transposed.antt about the blocks, Trans/Submit.antt about the functions that the driver
--   calls, Trans/Checked.antt about is_transpose.
--
-- Bit puzzles (ASSN/ASSN1/bits.c and its references in ASSN/ASSN1/tests.c)
--   Bits.antt models the eight puzzles and the integer references, an int or unsigned being its
--   32-bit pattern; bitOr is bit_or_of, since bit_or is the operation |. Right shifts keep the
--   sign. Bits/Floats.antt decodes a pattern (u2f) and has -f and 2 * f on decoded numbers,
--   Bits/Encoded.antt encodes a number (f2u), and Bits/References.antt has the references on
--   floats, where the cast of an int rounds to nearest. The loop of float_i2f has 32 rounds at
--   most, since a positive int is below 2 ^ 31. Bits/Words.antt, Bits/Count.antt with
--   Bits/Sums.antt, Bits/Floats.antt, Bits/Twice.antt and Bits/Rounded.antt with Bits/TopBit.antt
--   and Bits/Raised.antt are about the puzzles.
--
-- Test harness of the puzzles (ASSN/ASSN1/btest.c on ASSN/ASSN1/decl.c)
--   Btest.antt models gen_vals, Btest/Run.antt test_function and run_tests with their output as a
--   list of messages, Btest/Options.antt the command line, Btest/Table.antt the table test_set,
--   which names the puzzles and references of Bits. The array of the values is a list of at most
--   MAX_TEST_VALS; a store behind it is none. What pow, rand (through random_val), strtof,
--   strtoll, atoi and the alarm give is a parameter; the alarm makes test_function return its
--   one error. The loop over all values of a range has at most one round more than the array has
--   places: with that one, the array is exceeded. Btest/Order.antt, Btest/FloatVals.antt,
--   Btest/Values.antt and Btest/Generated.antt are about the values, Btest/Verdict.antt about the
--   tests of a function, Btest/Suite.antt and Btest/FullScore.antt about a whole run.
--
-- Timing (ASSN/ASSN6/clock.c, ASSN/ASSN6/fcyc.c, and the settings of ASSN/ASSN6/fsecs.c)
--   Timing.antt models the cycle counter of a Pentium, with what rdtsc gives as an argument and
--   the result rounded to a double (as_double), and the sampling: init_sampler, add_sample,
--   has_converged and fcyc. A double of fcyc.c is a value of any type with a comparison; the test (1 + epsilon) * x >= y is a parameter, as are the
--   measurements. The loop of fcyc runs on fuel, which maxsamples bounds. Timing/Elapsed.antt is
--   about the counter, Timing/Insertion.antt and Timing/KBest.antt about the samples that are
--   kept, Timing/Loop.antt about the end of fcyc.
--
-- Shared helpers are in Prelude.antt: Boolean tests, lists over the native numbers, words, and the
-- laws of the bit operations (Prelude/Digits.antt, Prelude/Masks.antt). Runs at concrete inputs
-- are in the Tests module of each part.
--
-- Not modelled: the drivers of the transpositions (ASSN/ASSN4), the estimate of the clock rate and
-- the compensation for timer ticks (ASSN/ASSN6/clock.c), ASSN/ASSN6/ftimer.c, the installation of
-- the alarm's handler and the programs that print a number (ASSN/ASSN1), the bomb and the farm
-- (ASSN/ASSN2, ASSN/ASSN3), the small programs that test the shell (ASSN/ASSN5/my*.c), and the
-- other exercises under Lab.
pub mod Prelude
pub mod Csim
pub mod Tsh
pub mod Mm
pub mod Mdriver
pub mod Trans
pub mod Lab11
pub mod Bits
pub mod Btest
pub mod Timing
