-- ===== src/Lib.antt =====
-- The C programs and libraries of the test framework, under usr/src/tools/stf: the library of hash
-- tables, the journal with the commands that write to it, the log of test programs, and the client of
-- the synchronisation server.
--
-- The hash table, contrib/hashtable/lib/libhashtable.c and hashtable_data.h beside it. A table is a
-- head (hashtable_t) with locks, options, functions and statistics, and slabs of entries. One slab is
-- the table: a key belongs to the slot that the hash function gives. Further entries with the same
-- slot hang from it on a chain, linked by `next`; unused entries are on the free chain. Each entry,
-- the table, the free chain and each statistic has a lock.
--
-- Files, each under Hashtable:
--   Lock      the calls of synch.h on a lock, as one thread sees them
--   Data      the structures, and World, the state that the functions pass on
--   Stats     ht_counter_init, ht_counter_add, ht_average_init, _update and _increment
--   Hash      ht_hash_bytes, ht_evaluate_threshold_default, and bcmp of the C library
--   Slab      ht_init_entries, ht_destroy_entries, ht_create_slab, ht_destroy_slab
--   Create    ht_create
--   Locate    ht_locate_entry_, ht_locate_entry, ht_locate_key
--   Insert    ht_insert_key, with the resize at its end as a parameter
--   Delete    ht_delete_key
--   Sweep     ht_sweep
--   Destroy   ht_destroy
--   Resize    ht_resize, and ht_insert_key with it at its end
--   Chain     chains in memory, memory with locks held, and the pairs that a chain stands for
--   Steady    what an operation on keys leaves alone
--   RoundTrip one operation after another
--   Table     the table as a whole, and its pairs slot by slot
--
-- The framework. A test runs under stf_timeout, which kills it at its time limit and writes the end of
-- the test case to the journal; stf_jnl_context puts the output of a command into the journal, line by
-- line and with tags. Test programs call libstf.c for entries of the journal, libjnl.c for messages
-- by level of detail (its buffers are kept in a hash table, one group for each thread), liblogapi.c
-- for a log with cleanup functions, and libmstf.c to wait for other machines.
--
-- Files, each under Stf:
--   Number    strtol of the C library, which atoi stands for as well, and signed words
--   Decimal   the numbers of %d
--   Timeout   parse_timeout and parse_value of bin/stf_timeout.c
--   Watch     clean_kill, wake_up and poll_process of bin/stf_timeout.c; Watch/Command is its main
--   Context   write_pipe of bin/stf_jnl_context.c, and the flush at the end of its main; Context/Copy
--             has read_pipe and the part of main that empties the pipes
--   Results   the codes of include/stf.h, get_status_name of lib/libstf.c, bin/stf_jnl_totals.c
--   Journal   lib/libstf.c: opening, the shared variables (struct jvars of include/stf_impl.h) and
--             their mutex; Journal/Entry has the functions for messages, test cases and
--             assertions and main of bin/stf_jnl_testcase_end.c, Journal/Start and
--             Journal/Run those for a whole run, Journal/Session sequences of calls
--   Jnl       contrib/jnl/lib/libjnl.c with jnl_private.h and contrib/jnl/include/jnl_detail.h:
--             Jnl/Probe the search that two functions share, Jnl/Levels jnl_dl_check,
--             jnl_dl_description_fetch, jnl_dl_level_fetch and the level that _jnl_init_ chooses,
--             Jnl/Log jnl_vlog_, jnl_log_ and jnl_result_ (compiled with variadic macros, as
--             contrib/jnl/include/jnl_feature_test.h says) and macros of jnl_proto.h beside it,
--             Jnl/Buffers _jnl_buffer_fetch, Jnl/Message jnl_vformat_message_,
--             jnl_format_message_ and the macros for the kinds of message
--   Logapi    contrib/logapi/lib/liblogapi.c
--   Mstf      lib/libmstf.c
-- The proofs of a file stand in its folder. Tests has small tables, runs and witnesses. Prelude has
-- the shared names.
--
-- State of the hash table: World has the head at hand, the heads that its field `old` leads to,
-- entries and slabs as functions from addresses, the break and the limit of memory, and `errno`.
-- Addresses are numbers in units of an entry; 0 is NULL. Keys are lists of bytes that the table does
-- not own. The two bits of `flags` are two fields. A step of the C code is a new World; `errno` is set
-- where the C code sets it. An `unsigned long long` is a number below 2 ^ 64, and size_t has 64 bits.
--
-- State of the framework: text is the list of its characters without the NUL at its end. An int, a
-- long and a time_t have 32 bits and are given by these, as in the programs of the time; hrtime_t has
-- 64. Static variables are the fields of a record. What the system answers (clock, poll, fork,
-- waitpid, open, mmap, mutex, sockets) is an argument. Calls that act outside (kill, sleep, entries of
-- the journal, lines of output) are listed in the result. Exit, what C does not define, and a loop
-- without end are values of the result.
--
-- Locks: what a call on a lock returns, and how it leaves the lock, for one thread; a call that
-- would block returns an error instead. A failing lock returns an error to every call, so that all
-- error branches run. Other threads are not modelled.
--
-- Fuel: the walks along chains and lists of slabs, which may be circular in a broken state, take a
-- fuel and return `none` when it runs out. A step of a walk takes one unit, so that the length of the
-- chain at hand is enough, and one unit more where the walk goes on to NULL; filling the free chain
-- takes two. ht_insert_key and ht_resize call each other; the new table never resizes, so that two
-- levels suffice. poll_process takes a unit for each round, read_reply for each read, and a cleanup
-- function that sets another one takes one. The search of Jnl/Probe takes a unit for each entry that
-- it looks at; 15 are enough for the tables of libjnl.c, which have 7 entries.
--
-- Not modelled: what `free` does to memory, and the order of two threads. In stf_timeout.c, the
-- handler of signals and the child between fork and exec; in stf_jnl_context.c, the set-up of main
-- and the wait for the child; in libstf.c, the functions that call others with the pid of the
-- process, and the format of the clock; in libjnl.c, what jnl_internal_error prints; in libmstf.c,
-- get_addr_from_string, whose answer is an argument. The commands that only call these functions,
-- the test programs of the suites and the shell scripts have no model here.
pub mod Prelude
pub mod Hashtable
pub mod Stf
pub mod Tests
