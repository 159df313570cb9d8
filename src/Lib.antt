-- ===== src/Lib.antt =====
-- Kassandra: a service that performs fuzzy message detection for its clients inside an enclave.
--
-- The host downloads shielded transactions into its tables, relays the messages of clients, and asks
-- the enclave for rounds of detection. The enclave keeps the registered keys with the height up to
-- which each was checked, and answers with the indices found, encrypted for the client. The client
-- registers keys after a handshake, and queries the host for its indices.
--
-- Modules, and the code they follow:
--   Common      numbers, lists, bytes, and the outcome of code that may panic
--   Ranges      host/src/db/utils.rs, FetchedRanges
--   Fetcher     host/src/db/fetch.rs: Fetcher::sync, handle_fetched, DbConn; Fetcher.Tasks the tasks
--               of a sync, their channel, and the loop that takes their answers; Fetcher.Run the
--               passes of Fetcher::run, and new and save
--   AsyncCounter  host/src/db/utils.rs, AsyncCounter
--   Index       shared/src/db.rs, Index
--   IndexList   shared/src/db.rs, IndexList
--   External    cryptography, detection, randomness: the crates, as parameters
--   Messages    shared/src/communication/mod.rs; Messages.EncKey and Messages.Ciphertext the serde of
--               shared/src/db.rs and shared/src/ratls.rs
--   Framing     shared/src/communication/mod.rs: get_frame and write_frame, over the stream of
--               Stream and parameters for COBS and CBOR; Framing.Timed timed_read of
--               host/src/com.rs
--   Ratls       shared/src/ratls.rs, Connection
--   IndexSet    enclave/src/fmd.rs: IndexSet and check_flags
--   Process     processes that read and write messages
--   Enclave     enclave/src/lib.rs and enclave/src/ratls.rs
--   Database    host/src/db.rs, over parameters for SQLite; Database.Files DB::new over its files
--   Host        host/src/main.rs: handle_connection, handle_key_registration, handle_fmd;
--               Host.Serve the loop of main
--   Scheduler   host/src/scheduler.rs, NextQuery::poll
--   HostConfig  host/src/config.rs, Config
--   Client      client/src/config.rs, client/src/query.rs, client/src/ratls.rs, client/src/tdx.rs,
--               client/src/transparent.rs; Client.Commands client/src/bin/cli.rs and
--               client/src/lib.rs
--   Stream      shared/src/communication/tcp.rs
--   Serial      tdx/src/com.rs
--   Tdx         tdx/src/lib.rs, the random numbers
--   Transparent  transparent/src/main.rs, the quote
--   Runs        the source's own test values, and the theorems at concrete values
--
-- Numbers: a u64 is a natural number, with `% 2 ^ 64` where the source adds or subtracts. Bytes are
-- numbers, and a theorem that needs them below 256 says so. A panic is the value `panic` of Outcome,
-- or `crash` and `panics` of a process and a program. Maps are association lists or parameters.
--
-- Loops: structural recursion where the source goes over a vector. `batches` has a round of fuel for
-- each height, `chunks` one for each byte, and the binary search one for each element, which is
-- enough, since each round takes at least one of them. `get_frame` has a round for each byte of the
-- longest frame.
--
-- Tasks: a call of `sync` is a system whose tasks and loop move one at a time, in any order. The jobs
-- are spawned before any task moves, which changes nothing, since the loop takes no message before.
-- That a task that waits is polled again when what it awaits has changed is left to the runtime;
-- AsyncCounter shows where the counter does not see to it. Its atomic operations are taken one
-- after another.
--
-- Messages: the enclave is a tree of reads and writes, one pass of its main loop after another. The
-- host is a program that talks to the enclave and to the client; Host.Session runs it against the
-- enclave, over channels that lose nothing, with the messages of the client as a list. Errors of the
-- framing are values that the handlers take, and which a run does not produce. A read
-- from a client that sends nothing more hangs the host, as Framing.Timed shows that it does, and the
-- client is timed out only where its time is over at the first poll.
--
-- Detection: `chain` stands for the transactions of each height, with their flags, and IsView of
-- Host.Detection.Matches for tables that show them: that the rows up to the announced height are
-- there is a hypothesis, which the announcements of Fetcher.Storage can break, so that what is shown
-- of detection holds as long as the fetch job keeps it. Exact says what a
-- registered key is to hold.
--
-- Fetching: a statement of SQLite may fail, which panics or, in a drop, loses the log. A call of
-- `sync` may end by the shutdown signal or with panicked tasks, and Fetcher.Run.UpTo keeps the jobs
-- that were lost by it.
--
-- Files: the file of the client is its text or none, and each command reads and writes it. A format
-- is known by what it hands to a visitor, bytes or a sequence. The files
-- of the host are what SQLite's statements have made of them, each of which may fail.
--
-- Not modelled: the runtime that polls tasks, sockets, failing reads and writes of the client's file,
-- the parsing of arguments, serialization by CBOR, TOML, JSON and Borsh, the coding by COBS, and the
-- attestation of the platform beyond what the client compares. The messages of logging are left out.
pub mod Common
pub mod Ranges
pub mod Index
pub mod IndexList
pub mod External
pub mod Messages
pub mod Ratls
pub mod IndexSet
pub mod Process
pub mod Enclave
pub mod Database
pub mod Host
pub mod Fetcher
pub mod Client
pub mod Stream
pub mod Serial
pub mod Runs
pub mod Framing
pub mod AsyncCounter
pub mod Scheduler
pub mod HostConfig
pub mod Tdx
pub mod Transparent
