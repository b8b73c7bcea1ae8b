-- ===== src/Lib.antt =====
-- prayer.rs: scripts that play a space game. A script in PrayerLang is parsed into statements
-- (prayer-lang), compiled into typed actions (prayer-actions), and run from the lanes of a
-- scheduler (prayer-scheduler) by the engine of prayer-runtime, which also keeps the shared
-- knowledge of many sessions, such as the ledger of inventory that movements have reserved.
--
-- The files, and what they model:
--
-- - Actions and Actions.Requests: the requests, actions, envelopes and outcomes of
--   prayer-actions/src/lib.rs.
-- - Scheduler: prayer-scheduler/src/lib.rs. State has the scheduler's record and its checkpoint,
--   and Operations one function for each method of `impl Scheduler`, as a function from the
--   scheduler to a result and the scheduler behind it. The JSON value of a continuation is the
--   parameter J. Steps has the calls as a type, Op, with what they return, and runs of them;
--   Invariant, Priority, Ownership, Order, Conservation, Preemption, Checkpoint, Versions and
--   Restart have what is proved, and Tests its instances. The generation counter saturates at the
--   largest `u64`.
-- - Reservations: prayer-runtime/src/knowledge/reservations.rs. State has the claims, movements and
--   the ledger, Ledger the operations `reserve` and `transition`, and Reconcile `reconcile`. The
--   three hash maps are association lists. Amounts are `i64` with saturating arithmetic; the sum
--   that `reserve` enters wraps around. The identifier that `Uuid::new_v4` draws is an argument,
--   and what `reconcile` does with the JSON context of a movement goes by an interface, Json.
--   Counting and Totals count the claims, and Reserve, Refused, Transition, Reconcile and History
--   have the theorems.
-- - Lang: the words of a statement. Ast is prayer-lang/src/ast.rs. Lexer has `lex_transfer_parts`
--   of prayer-lang/src/parser.rs and `render_arg` of prayer-lang/src/render/mod.rs, over code
--   points. Clauses, Craft and Transfer have the parsers of a statement's words (`parse_buy_parts`,
--   `parse_sell_parts`, `parse_commission_ship_parts`; `parse_craft_parts`, `parse_recycle_parts`;
--   `parse_transfer_parts`, `parse_transfer_block_entries`), with all their messages, and Words the
--   words that the renderer writes. A list of words with an index is the list of the words left.
--   The loop over transfer clauses runs on fuel, as many rounds as there are words, and each takes
--   a word at least; out of fuel it has no result, which is told apart from a refusal. Quoting and
--   RoundTrip have the theorems, Tests their instances. Commands is the closure behind a command's
--   name in the parser, Catalog the default command catalog of prayer-lang/src/catalog.rs, Analysis
--   prayer-lang/src/analyzer.rs (Nodes its types, Resolve the identifiers in view, Transfer and
--   Pairs transfers, Program `analyze`), Compile prayer-lang/src/compiler.rs (Arguments, Command
--   for `command_action`, Program for `compile`), and Projection `render_action` of
--   prayer-lang/src/action_projection.rs, a keyword and the words before they are quoted. Scanner
--   has the text of a statement, `arg` and `statement` there, and the scan of a command's text in
--   the parser; Removed is `removed_syntax_diagnostic` as a test, and Scanned has the proof that
--   the scan undoes the quoting. A function that adds to a vector of errors returns what it adds. A
--   name is ASCII, as the parser has it, so that `to_lowercase` is `to_ascii_lowercase`. Pipeline
--   composes parser, analyzer and compiler with no identifier in view, for a text of one statement;
--   Readable says which actions are read back, Keywords, Numbers, Clauses, Services, Variadic,
--   Words and RoundTrip have the proof.
-- - Routes: the breadth-first half of prayer-state/src/graph.rs. Vectors has vectors with an index,
--   Table the search from one source over node numbers, and Names `build` and the queries over
--   names. A row of a matrix is a list of its own, and a vector that is sorted and deduplicated is
--   built by insertion. The search runs on fuel, a round for each node, and the loop over first
--   hops a hop for each node. Walk and Links have the walks that distances are compared to,
--   Invariant, Visit and Shortest the search, Places, Built, Queries, Paths and Within the queries.
-- - Protocol: the correlator of requests in spacemolt-lib-rs/src/transport/correlator.rs. Frames
--   has the frames, results and errors of src/protocol.rs and src/errors.rs there, over JSON values
--   that are an interface, Json; Correlator has every method. A oneshot channel is a number, drawn
--   in order, and the messages on channels and the calls of handlers are recorded in the state. A
--   hash map is an association list, so that the order in which all requests are rejected is that
--   of the list. Counting and Once have the theorems.
-- - Market: the orders of prayer-runtime/src/knowledge/virtual_market.rs, with `f64` as an
--   interface, Float. Orders has the functions, Normal what a normalized order is.
-- - Prelude: numbers, texts, lists, association lists, `i64` and decimal numbers, as the Rust
--   standard library has them.
--
-- Not modelled: the chumsky grammar but for commands, its diagnostics and spans, the validation of
-- a program against the catalog, the weighted half of the route graph, the runtime's engine and
-- orchestration, the rest of the shared knowledge, the game protocol library but for its
-- correlator, the SDKs and the HTTP service. Serialisation is generated code.
pub mod Prelude
pub mod Actions
pub mod Scheduler
pub mod Reservations
pub mod Lang
pub mod Routes
pub mod Protocol
pub mod Market
