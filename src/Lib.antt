-- ===== src/Lib.antt =====
-- NCTUSS is a storage simulator. A kernel module presents a disk whose data and response times come
-- from an emulator on another machine, which simulates an SSD. While the module talks to the emulator
-- the whole operating system is paused, so that the time this takes does not count. A second module
-- is a RAM disk with the same timing, for comparison.
--
-- How the parts work together: the block layer calls the strategy function of
-- emulator_kernel/nctuss_emudisk_main.c. It enters each request in a table of slots, copies the data of
-- a write, pauses the OS, announces the request and moves its sectors with one UDP message each, and
-- then asks for the next responses. A processing task sleeps until their time, takes the requests out
-- of the table, completes them and asks again. The server of emulator_server/udp_server.cxx answers
-- one datagram at a time; it keeps the last reply and sends it again for a repeated id.
--
-- Files:
--   Base: shared names, list lemmas, the result type of code that may return, hang or fault
--   Timing: the tables of rates and size buckets, in udp_server.cxx and nctuss_ramdisk_main.c
--   Ssd: MySSDSim of udp_server.cxx (setup, submit_request, get_next_responses)
--   Wire: the structures nctuss_emu_request and nctuss_emu_reply and the types of messages
--   Server: one turn of main's loop in udp_server.cxx, put_sector and get_sector; Serve is the loop over
--     the datagrams, Start what main does before it, Database the branch of MyDb over Berkeley DB
--   Emudisk: nctuss_emudisk_main.c, with Slots (the table), Transfer (nctuss_emudisk_transfer, and in
--     Skbs its version without COMBINE_REQ_DATA), Pause (pause_OS, resume_OS), Calls (emulator_*, and in
--     Skbs the transfer without COMBINE_REQ_DATA), Strategy, Processing, Geometry
--     (nctuss_emudisk_getgeo), Statistics (the seq_file) and Init (loading and unloading). Simulation
--     says when two ways of calling the emulator lead to the same
--   Link: nctuss_receive_skb and communicate_with_emulator; Headers has skb_udp_finish
--   Ramdisk: nctuss_ramdisk_main.c, with Init for loading and unloading and Task for the start and the
--     sleep of its task; Run makes its functions the steps of one system
--   Led: nctuss_led.c
--   Ftrace: find_debugfs, tracing_file and trace_write of ftrace_processing/io_ftrace.c
--   System: the module's calls handled by the server. Data follows the bytes of a sector and, in
--     Sectors, of a whole request; Sync the requests in the table and on the channels: Submit and Query
--     are single messages, Start and Started one request of nctuss_emudisk_strategy, Waits and Loop its queue,
--     Asked its query for the next response, Called the whole function, and Turn a turn of the
--     processing task. Run makes all this the steps of one system, with Steady for what holds in every
--     world that is reached and Drained for what is reached in the end. Loaded is the start of the
--     system, and ReadBack the way of the data from a write to a later read. Network puts the loop of
--     communicate_with_emulator and the fates of its datagrams between module and server: Carried and
--     Calls compare one call with the direct one, Run the steps of the two systems; Startup starts the
--     server and loads the module, and ReadBack follows the data of a write to a later read
--
-- State is passed explicitly: the globals of each program are a record, and an operation maps it to an
-- `Outcome`, which is `done` with a result, `hang` for a `while(1)` of the source, or `fault` for an
-- access out of bounds. Integers are natural numbers. Where the source relies on the width of a type,
-- the bound is a hypothesis or the wrap-around is written out. A time is in nanoseconds, an id of -1
-- is the number `unused_id`. Bytes are numbers, and a buffer is the list of its bytes.
--
-- Loops over channels, slots, segments and buckets are recursion on the list. The loops that wait for
-- others are recursion on what the others do: `poll_until_replied` on the frames that each poll brings,
-- `exchange` on the fates of the datagrams, `process_due` and `process_all` on the readings of the
-- clock. A result says whether that list ran out first. A list of fates is long enough once it holds
-- one in which neither datagram is lost; readings are enough if there is one more than requests in
-- flight.
--
-- A step of System/Run is a whole call of a function, since each holds the queue lock from beginning to
-- end. What the steps ask of the outside is that the clock does not go back, that a fetched request is
-- later than it and on the disk, that the task wakes up no sooner than it set the timer for, and that
-- the ids of the messages have not used up 32 bits. A step of Ramdisk/Run is a whole call, too; it asks
-- only that a fetched request is on the disk, of at most 64 KB, and comes neither in the clock's first
-- 2^31 nanoseconds nor in the last 2^32 that its signed 64 bits can hold.
--
-- What lies outside the source is a parameter: how a request reaches the server and its reply comes
-- back (the `Net` of Emudisk/Calls.antt, which System.antt fills with the server itself and
-- System/Network.antt with the server behind a network), the results of kernel calls in Init and of
-- socket calls in Server/Start.antt, strtol, the kernel's checksums, and the database library, of which
-- Server/Database.antt says what it relies on. Not modelled: the kernel's own locks and scheduling, the
-- branches under USE_FIQ, which is off, opening and closing the database file, the server's messages
-- and its signal handler, fiq.S and the rest of the trace tools.
pub mod Base
pub mod Timing
pub mod Ssd
pub mod Wire
pub mod Server
pub mod Emudisk
pub mod Link
pub mod Led
pub mod Ftrace
pub mod Ramdisk
pub mod System
