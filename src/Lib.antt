-- ===== src/Lib.antt =====
-- noir-sidecar: a JSON-RPC server that speaks Solana's interface over a Substrate node with a Solana
-- runtime. Paths are from the repository's root.
--
-- The program. A method of `src/rpc/solana/mod.rs` checks its arguments, asks the node for a block and
-- a slot, reads accounts through `src/client/solana.rs`, and encodes the answer; searches go through an
-- accounts index, `src/db/index`. Every read of the node is a `Client::request`: a message with a oneshot
-- channel on the queue of the one task that owns the WebSocket connection, `Client::run`. The index is
-- filled by a worker, `AccountsIndex::run`, that receives batches of keys from an event subscriber.
--
-- The files.
--   Prelude        Boolean tests, lists over the native numbers, results with their `?`, hash maps as
--                  association lists with one entry for each key, little-endian words.
--   Sdk            The data of the Solana crates that is built and taken apart.
--   Client         src/client/mod.rs, src/client/error.rs: messages, requests, errors.
--   Client/Loop    `Client::run`. A `Task` is the task's variables with its queue and the answers it has
--                  sent; `round` is one turn of the loop, `run` one turn for each `Turn`, which says how
--                  the signal, the connection, the node and the waiting receivers behave in it.
--   Client/Node    What the asynchronous code sees of the node: `deliver` may depend on all the requests
--                  so far. `Io` is state passing with errors and panics; an `unwrap` that fails panics.
--   Client/Codec   The encodings of other crates, as a record of functions.
--   Client/Calls   `Client::request`, `Client::state_call`.
--   Client/Served  A node made of the task of Client/Loop behind the channel, with the rounds that the task
--                  makes for each request.
--   Client/Solana  src/client/solana.rs, one function for each function there.
--   Client/Views   The reads of the client over a server that tells of one chain (`Chain`, `TellsOf`):
--                  `Gives` relates a computation to the result that it returns from every good node.
--   Index          src/db/index/mod.rs, src/db/index/traits.rs: the trait is the record `Indexer` of
--                  state-passing operations; Index/Contract is its specification, a set of entries.
--   Index/Sqlite, Index/Postgres
--                  src/db/index/sqlite.rs, src/db/index/postgres.rs, over an abstract engine. The laws of
--                  the engines (SqliteLaws, PostgresLaws) are those of a table with UNIQUE columns,
--                  in the states in which that table has been created and can be used.
--   Index/Tested   The test of src/db/index/sqlite.rs.
--   Index/Update   `AccountsIndex::run` and `update_index`, over any `Indexer`; Update/Backends relates
--                  two of them step by step, Update/Choice the two databases.
--   Index/Open     Opening the databases (src/db/sqlite.rs, src/db/postgres.rs), the constructors of the
--                  indices, and the wrapper `AccountsIndex`.
--   Rpc            src/rpc/mod.rs and src/rpc/solana/mod.rs. Rpc/Crates holds the functions and constants
--                  of the Solana crates as one record; Rpc/Verify the argument checks, Rpc/Filters the
--                  analysis of filters, Rpc/Encode the size limits, Rpc/Accounts and Rpc/Tokens the
--                  helpers of `Solana<I>`, Rpc/Methods the methods.
--   Rpc/Views      The answers of the methods that read the chain, as functions of the chain and of the
--                  index alone, which share with the methods their pure functions on arguments, filters and
--                  encodings; Rpc/Views/Served puts the connection task and a server behind them.
--   Rpc/Dispatch   The names of the trait `Solana`, `JsonRpcModule::create` and `handle_rpc_request`.
--   Rpc/Mock       src/rpc/solana/mock: the task of the machine (svm.rs) and the methods of the mock node
--                  (mod.rs), which share the pure parts of Rpc/Accounts, Rpc/Tokens and
--                  Rpc/Methods/Search with the real ones, as the source does or as its text repeats
--                  them. A call of `execute` runs the task until its request is served.
--   Event          src/event/mod.rs: the subscriber's loop, one `Turn` of the outside world a round.
--   Server         src/server.rs: the configured origins and `cors_layer`. Server/Serving is
--                  `SidecarServer::run`, with the routes of src/router/mod.rs.
--   System         src/main.rs: the tasks of a started sidecar. A `Step` is a round of the subscriber, one
--                  message for the worker, or anything that the methods make of the node; `Reach` is any
--                  order of them. System/Orders is about every order, System/Searches about an account
--                  on its way from an event to a search, System/Answers to the answer of a method.
--   System/Start   `main` without the feature mock, and src/config.rs: from the configuration to the
--                  first state of the tasks, and how the process ends.
--   System/Mock    `main` with the feature mock: the machine's task, the server and the signals that end
--                  them, as steps in any order.
--
-- Choices. Keys, signatures and hashes are the numbers that their bytes spell; JSON values are texts.
-- Numbers are unbounded where the source only carries them; words are bounded where it reads their
-- bytes or saturates. The loops of the three tasks run for a given list of rounds or messages, so no
-- fuel is invented; the machine of the mock node runs for as many turns as its channel has requests,
-- which is enough, since a turn takes one. `retry` is a `u8`, and `saturating_sub` is the subtraction
-- of the native numbers. The owner and the mint analysis have the same text in the source and are one
-- function of the offset of the key here. The order in which a source hash map is iterated is
-- unspecified; where an answer or a request shows it, it is a parameter of the model (`iterate_mints`,
-- `iterate_parsed`), a function of the map. A method reads the accounts index through a lookup,
-- since no method changes it.
--
-- `Client::run` awaits the Ctrl-C signal before each message, so it takes messages only in rounds in which
-- the handler of that signal cannot be installed. What is said of its answers is said of such rounds
-- (`HandlerFails`), and Loop/Signals is about the others.
--
-- The last parts meet in System: Start opens a database behind an `Indexer`, gives the worker's channel to
-- the subscriber's filter, and makes the module whose methods read the index as `lookup_of`. A message is
-- one step of the worker, so a search sees the index before or after a message and never within one.
--
-- Not modelled: the command line, whose one option is the path of the configuration, logging and the
-- module lists (src/cli.rs, src/logger.rs, src/lib.rs, src/db/mod.rs), which are I/O or declarations.
-- Log messages are left out. The constructors that only store their arguments (`Client::new`,
-- `SidecarServer::new`, `EventFilter::new`, `Solana::new`) are the records themselves.
pub mod Prelude
pub mod Client
pub mod Sdk
pub mod Index
pub mod Rpc
pub mod Event
pub mod Server
pub mod System
