-- ===== src/Lib.antt =====
-- wc3hook: the library that is loaded into Warcraft III and makes it an environment for agents
-- (wc3hook/*.c). A client sends requests over a pipe; requests that touch the game run as jobs on the
-- game's own thread. The game is frozen between requests: a virtual clock replaces the system's, a
-- step gives the simulation a number of milliseconds and lets the clock run until they are played, and
-- orders and observations pass at the standstill.
--
-- The parts, and the files that model them:
-- - Step (wc3hook/step.c): step mode. `State` is the globals g_stepmode, g_stepping, g_step_target and
--   the others, and `Game` the fields of the engine's game object that the code reads.
--   `step_request`, `step_mode`, `step_to`, `step_restart`, `step_finish` and `step_end_after_turn` are
--   the functions of those names; Step/Update is GameUpdate_hook, split where it branches, with the
--   engine's own GameUpdate as an argument; Step/Turns is TurnProducer_hook and TurnTime_hook.
-- - Clock (wc3hook/clock.c, clock_math.h): the anchor of the virtual clock, `set_speed` and `freeze`
--   (clock_set_speed, clock_freeze), its lock-free reader (Clock/Seqlock), conversions (Clock/Units) and
--   timed waits (Clock/Waits, and what they answer in Clock/Waits/Answered). C doubles are a parameter, as are the system's waits.
-- - Jobs (wc3hook/rpc.c): run_on_game_thread and rpc_service_jobs as the interleaved steps of two
--   threads.
-- - Events (wc3hook/events.c, obsbin.h): the rings of each player, ev_record, order_record,
--   event_record, events_gather, orders_gather and the table of detours. What the code reads of the
--   game's objects is a parameter. A mask of players is the test of its bits.
-- - Act (wc3hook/act.c): the encoding of orders into W3G records (Act/Encode), act_apply (Act/Game,
--   Act/Apply), act_reserve and act_enqueue (Act), act_flush (Act/Flush). The game's answers and the
--   success of realloc are parameters; `none` is an abort or a write past an array.
-- - Setup (wc3hook/setup.c): the hooks of a match's configuration, shuffle_locations and
--   assign_starts_hook.
-- - Players (wc3hook/players.c): claim_agent, players_configure, players_unregister.
-- - Alloc (wc3hook/allocator.c, allocator_bins.h): arena_find_free, find_free, BlockAlloc_hook.
-- - Placement (wc3hook/placement.c): placement_find, the anchors that it steps through and the conflict
--   with sites that others are on their way to; the engine's search is a parameter (Placement/Clear).
-- - Features (wc3hook/features_obs.h, features.c): lookup (Features/Lookup), the open-addressing map
--   (Features/Table, Features/Placed, Features/Stored, Features/Growth, Features/Sets), order
--   classes; Features/Memory is update, what is remembered between observations (Features/Memory/Entries,
--   Features/Memory/Recall), and Features/Block is feat_write (Features/Block/Written). Floats and doubles
--   are parameters; times are milliseconds.
-- - Masks (wc3hook/masks.c, features_table.h): the masks of what a player may do. Masks has the reference
--   tables and the observation; Masks/Own is own_init, Masks/Own/Init/Counts what it counts and takes over, Masks/Allowed is allow, trainable,
--   researchable and buildable, Masks/Casts is learnable, castable and carried, Masks/Decide the sets of
--   feat_masks, Masks/Tables the tables that it writes,
--   Masks/Tables/Listing/Parts what they are made of. The contents of the generated tables are a parameter;
--   the words of orders and the bytes of sets are kept as they are packed. Features/Sets is the map as the set
--   that the masks use.
-- - Json (wc3hook/json.h): the writer of replies, its memory, and the accessors (Json); the memory's growth
--   (Json/Grow), the operations (Json/Write,
--   Json/Puts), whole values (Json/Tree), strings read back (Json/Quote).
-- - Chat (wc3hook/chat.c): chat_key, the queue of lines, and chat_write_json (Chat/Lines).
-- - Transport (wc3hook/transport.c): the cutting of the pipe's bytes into lines (Transport) and the choice
--   of a line's handler. The bytes that a read returns are up to the system.
-- - Rpc (wc3hook/rpc.c): the requests. Rpc/Server is the state (g_status, g_mode, g_obs_seq, ...), the
--   calls that handlers make and what the rest of the program answers; Rpc/Handle is rpc_handle with debug,
--   info and quit, Rpc/Create is create_game, reset and save_replay, Rpc/Steps is step,
--   Rpc/Play is features, observe and act; Rpc/Parse is act_parse, Rpc/Binary the binary observations, Rpc/Base64 base64_bytes,
--   Rpc/Replies reply_head, reply_error and write_binary. What
--   yyjson reads is a parameter, `Yyjson`. Of an error the code is kept, without its detail. A job is run in
--   time, or begun and waited out, or withdrawn (`run_job`); one that faults is left out here. Of
--   g_step_binary the players are kept.
-- - Prelude: words, integers, lists and tests.
--
-- Transport hands each line to Rpc, which reads it through Json's accessors, replies through its writer, and
-- passes orders to Act and steps to Step.
-- Setup closes at the hold that Step starts, and Players names the identities under which Act sends.
-- Step and Act meet in GameUpdate_hook, which flushes the orders before it supplies turn time; Jobs
-- carries every request that Act and Events serve.
--
-- Counts that wrap are kept with their wrap-around; the sequence number of the clock's anchor is compared
-- as the word that it is, and is taken not to come round while a reader waits. Changes of the clock are
-- taken as one step from their reading of the counter to their publication, so that readings which fall in
-- between are left out. The loop of `collect` has fuel: the capacity of its ring, which is enough because the cursor
-- is moved first. Theorems on steps hold for a paced engine: one that plays whole turns of 25 ms out of
-- the time it is given, and no more, and at least one on each frame while 25 ms are pending and a network
-- turn is available. One is available on a frame whose game time lies below the budget that an earlier
-- frame has published, so the host is taken to have sent its turns by then.
--
-- The loop over the types that upgrade has one round of fuel for each type of the table and one more: a
-- round that is not the last adds a type. The loops of `doubled` and `take_lines` have fuel
-- too: 33 rounds double the smallest memory past every size, and a text has no more lines than bytes. Sizes in the writer are words of 32 bits.
--
-- Not modelled: the rows and scalars of the features, the text of the replies and doubles in them, the
-- engine's search for a site, observation and staging, the glue to the engine and the system, generated tables, MinHook and yyjson
-- (third-party), and the Python client.
pub mod Prelude
pub mod Step
pub mod Clock
pub mod Jobs
pub mod Events
pub mod Act
pub mod Setup
pub mod Players
pub mod Alloc
pub mod Placement
pub mod Features
pub mod Masks
pub mod Json
pub mod Chat
pub mod Transport
pub mod Rpc
