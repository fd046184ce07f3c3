-- ===== src/Lib.antt =====
-- stoxdb is an in-memory table server: a record is a block of bytes with one place for each field of
-- db.conf, some fields are computed by formulas, and clients set, read, count and delete records over
-- a binary protocol, with conditions and orders. This library models its core; the list at the end
-- says what is proved of it.
--
-- The parts and their files:
--   * Prelude, Outcome, Double: lists and integers over native numbers; how a function ends (a value,
--     a message in `errmsg`, undefined behaviour, or never); `double` as an interface without laws.
--   * Base (base.cc): texts as lists of bytes; Base/Bytes has `setint*`, `getint*`, `setchar*` and
--     `getchar*`, one definition for all widths.
--   * Buffer (buffer.cc): `buffer_t` with its bytes, and the loop of `expand_buffer`.
--   * Expression (expression.cc): the kinds of nodes; Expression/Lexer reads a text
--     (`load_expression`), Expression/Check is `check_expression`, Expression/Computer is the class
--     `Computer`. Expression/Computer/Syntax says what a formula means.
--   * Logical (logical.cc): `load_logical` splits the nodes of a condition into comparisons, and
--     Logical/Check is `check_logical`. Logical/Check/Grammar is the language of conditions.
--   * Meta (meta.cc, datypes.h): fields, offsets and `has_circle`; Meta/Config is `load_config` over
--     the lines of the file.
--   * Record (record.cc): `formula_compute` reads the fields of a record and drives a `Computer`;
--     Record/Where is `compute_logical` with its array of 128 marks, and Record/Link the linking of
--     the names of a condition (`load_and_check_logical`).
--   * Record/Request has the parsers of the requests and `request_t`; Record/Store the map of records
--     and `setone`; Record/Set is `opt_set`, Record/Get `opt_get`, Record/Delete `opt_del`;
--     Record/Aggregate is `opt_agg`, with the groups and their values in its child modules;
--     Record/Reply has the bytes of an answer, Record/Order the comparison of two records, and
--     Record/Dump is `dump` and `load` over the bytes of the file.
--   * Connection (connection.cc): the manager's array of connections over a heap; Server (server.cc):
--     the handlers of read and write events; Server/Loop has what a round of the loop of
--     `Server::start` does, a new client, an event of a connection, and the cleanup, with the events
--     that epoll is asked to report of each connection; Server/Reach has the runs of the loop.
--   * Client (client/client.cc): Client/Column reads the server's list of fields, Client/Get builds
--     the request of a query and Client/Update collects the keys and settings of an update.
--   * Tests: each theorem at a concrete input.
--
-- How they interact: `load_config` reads formulas with the lexer, checks them with `check_expression`
-- and stores them in the fields; a request's condition is read by `load_logical`, checked by
-- `check_logical` and computed for each record by `compute_logical`, which calls `formula_compute`.
-- `opt_set` hands each key with its settings to `setone`, which computes the formulas that depend on
-- a field that was set, level by level. The server calls the methods of `Record` through
-- `process_data`. The bytes that Client/Get and Client/Update build are those that Record/Request and
-- Record/Set read; the answer of `opt_column` in Record/Reply is the one that Client/Column reads.
--
-- State is passed explicitly. A C++ vector that is used as a stack is a list with its top first, a
-- vector of nodes a list; nodes are never shared between two expressions. An access out of bounds, an
-- uninitialised read, a signed overflow and a division trap are undefined behaviour. The record map is
-- a list of keys and blocks in the order of the map's iteration.
--
-- Fuel: the loops of the lexer and of the split take the length of their input, since each round
-- uses up a character or a node; a fraction is divided by ten at most 400 times, since a finite
-- double is below 10^309; the loop of `expand_buffer` doubles at most 32 times, since an `int` has
-- 31 bits; the cleanup of connections takes their number; the loop of `setone` takes the number of
-- its bytes, since a round reads at least two; the list of fields and the file take the number of
-- entries that stands in front of them. `has_circle`, the levels of the formulas and the loop of
-- `opt_set` take any fuel, since they may run forever.
--
-- Not modelled: the sockets and the waiting of epoll, the client's socket, its status calls and its
-- printing, the command line tools, the main program, and freeing memory except that of connections.
-- The allocator, the clock, `read` with the number of bytes that it is offered, `write`, whether epoll
-- accepts a change, `std::sort` and the texts of messages are arguments.
pub mod Prelude
pub mod Outcome
pub mod Double
pub mod Base
pub mod Buffer
pub mod Connection
pub mod Expression
pub mod Logical
pub mod Meta
pub mod Record
pub mod Client
pub mod Server
pub mod Tests
