-- ===== src/Lib.antt =====
-- Verification of the C programs of the course "Systems Programming": the courier dispatch of
-- HW5, the log pipeline of HW4, the ingredient server of HW6, the trading server of the final
-- project, the word transport of HW3 and the file search of HW1.
--
-- HW5 (module Cargo) reads orders from a file, puts them into a priority queue and lets courier
-- threads deliver them, until all are delivered or SIGINT cancels the rest.
-- - Cargo.Order: HW5/inc/order.h and HW5/src/order.c, and order_less, the order of service.
-- - Cargo.Queue: HW5/src/priority_queue.c, the binary heap in an array: pq_create, pq_push,
--   pq_pop_blocking, pq_drain, pq_shutdown. An access outside the array is a fault. Its
--   children prove the sift loops, then the operations.
-- - Cargo.Parser: HW5/src/parser.c, over the bytes of the file; `grants` says which allocations
--   succeed.
-- - Cargo.Options: HW5/src/parse_cli_args.c, over the list of what getopt returns.
-- - Cargo.Stats: HW5/inc/stats.h and HW5/src/stats.c.
-- - Cargo.Shift: HW5/main.c and HW5/src/courier.c, as a step relation: one step is one critical
--   section or one atomic access of one thread. Cargo.Shift.Condition adds which couriers sleep
--   on the condition variable of the queue.
--
-- HW4 (module Logs) reads log files in several processes, routes the entries by level through
-- ring buffers in shared memory, and scores them by keywords.
-- - Logs.Ring: the ring buffer that HW4/src/utils/buffer.c and HW4/src/shm/shm_queue.c write
--   out for every region. Logs.Regions: the regions of HW4/inc/shm.h and
--   HW4/src/utils/internal_buffer.c.
-- - Logs.Entry: HW4/src/parser/log_entry.c, parse_log_line and its handlers.
-- - Logs.Score: HW4/src/processes/analyzer.c, the scores that a worker keeps and their merge
--   into region C.
-- - Logs.Readers: HW4/src/processes/reader.c, the byte ranges that run_reader gives its
--   threads.
-- - Logs.Args: HW4/src/parser/parser.c and HW4/src/parser/parser_files.c, from the options of
--   getopt to start_parsing.
-- - Logs.Dispatch: HW4/src/processes/dispatcher.c, run_dispatcher over the entries that it pops
--   from region A.
-- - Logs.Aggregate: HW4/src/processes/aggregator.c, calc_high_priority_score and sort_results.
--
-- HW6 (module Hogwarts) is a server with one thread: clients enrol as wizards or professors,
-- and wizards brew and consume ingredients of a common stock.
-- - Hogwarts.Stock: HW6/hogwarts.c, the ingredients and the spellbook of a client:
--   find_ingredient, spell_find, spell_add, spell_sub, and load_ingredients over the lines that
--   fgets returns.
-- - Hogwarts.Command: the commands cmd_brew, cmd_consume, cmd_spellbook, cmd_inspect,
--   cmd_scroll, cmd_roster, with the line that each sends back.
-- - Hogwarts.Session: handle_command, handle_client_input with the buffer of a client,
--   accept_new_connection, check_idle_timeouts, and the states that run_server reaches by them.
--
-- Final (module Trade) is a trading server with one thread: clients join as traders or
-- analysts, traders buy and sell the listed stocks, which moves the prices.
-- - Trade.Market: Final/ServerTrd.c, load_stocks, find_stock, the portfolio of a client, the
--   orders, and the listings with their arrays. The arithmetic of float is the parameter
--   Floats.
-- - Trade.Session: process_line, with one definition for each kind of line; a quantity above
--   INT_MAX and a write behind an array are outcomes of their own.
-- - Trade.Server: client_read, alloc_client, disconnect_client, and the states that the loop of
--   main reaches by them; the shutdown and the arguments of main.
--
-- HW3 (module Words) brings the letters of words to their floors and sorts them there, with
-- several processes on shared memory.
-- - Words.Word: a word of HW3/inc/structs.h with its sorting area;
--   HW3/src/processes/letter_carrier.c, find_task and place_char;
--   HW3/src/processes/sorting_proc.c; and init_word_info of
--   HW3/src/shared_memory/shm_init_utils.c.
-- - Words.Floors: HW3/src/processes/word_carrier.c, rr_pick and try_admit, and the counts of
--   the floors.
-- - Words.Elevator: HW3/src/processes/elevator.c, with the calls of letter_carrier.c that
--   board, ask and leave.
-- - Words.Input: HW3/src/check/file_control.c, with the lines that get_next_line returns as its
--   input, HW3/src/check/validate_words.c, and write_output_file of HW3/src/check/output.c.
--
-- HW1 (module Search) prints the files of a tree of directories that meet criteria, each below
-- its directories.
-- - Search.Pattern: HW1/src/regex.c, and HW2/src/regex.c, which looks for a part of the name.
-- - Search.Walk: HW1/src/compare.c, HW1/src/search_directory.c and HW1/src/print_tree.c, on a
--   tree of files as opendir, readdir and lstat show it.
--
-- Libc holds what the programs use of the C library: strings without the final NUL as lists of
-- codes, strtol, strtok, fgets, strncpy, sscanf.
--
-- Loops that are not structural run on fuel: i + 1 rounds for the sift up from i, size + 1 for
-- the sift down and the drain, and one more than the bytes of the file, of the keyword list or
-- of the line buffer for the loops over lines and keywords; each round of such a loop takes at
-- least one of them. Counters and scores only grow from 0 and are natural numbers; their
-- overflow is not modelled. The scores are doubles in the source, with integral values. A
-- quantity of HW6 above INT_MAX is an outcome of its own.
--
-- Not modelled: output to the logs, sockets, freeing of memory, and the failure of thread and
-- process creation; of HW4 the loops of the readers, the interleaving of its processes, and the
-- output files of the aggregator; the clients of HW6 and of the final project; the options of
-- HW1 and HW3; and of HW2 all but the patterns.
pub mod Common
pub mod Libc
pub mod Cargo
pub mod Logs
pub mod Hogwarts
pub mod Trade
pub mod Search
pub mod Words
