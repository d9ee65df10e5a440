-- ===== src/Lib.antt =====
-- A model of docx-mcp, a server that ingests the documentation of Rust crates and .NET assemblies into a
-- graph database and serves it over MCP, with the theorems that make its own logic correct.
--
-- A request enters through the HTTP ingest server (crates/lib/docx-ingest), which checks it, asks the
-- solution registry (docx-core/src/services.rs) for the connection of its solution, and hands it to the
-- control plane (docx-core/src/control). That resolves the payload, calls a parser
-- (docx-core/src/parsers), stores symbols and doc blocks (docx-core/src/store), and builds the edges
-- between them. The daemon (crates/bin/docx-mcpd) configures and starts the servers.
--
-- Which file models which part, with paths below crates/lib where no other is given:
--   Models      docx-store/src/models.rs: the records; serde_json's Value in Models/Json.
--   Schema      docx-store/src/schema.rs: tables, relations, make_record_id, make_symbol_key; and the
--               readers of record ids in docx-core/src/control/data.rs.
--   Registry    docx-core/src/services.rs: SolutionRegistry is the map of entries with a heap that they
--               are addresses into; get_or_init is cut at its locks into insert_entry, read_handle,
--               rebuild and touch, and Registry/Tasks runs any number of requests, sweeps and removals
--               in any order, each step being what happens under one lock.
--   Rustdoc     docx-core/src/parsers/rustdoc_json.rs: the records in Rustdoc/Crate, the parser's state and
--               add_symbol in Rustdoc/State, the visitors and parse in Rustdoc/Visit, unique keys in
--               Rustdoc/Keys, what an item says of its symbol in Rustdoc/Items, types as text in
--               Rustdoc/Types, the sections of doc comments in Rustdoc/Markdown and what these hold in
--               Rustdoc/Entries. The visitors pass their state on and return how the visit ended.
--   Csharp      docx-core/src/parsers/csharp_xml.rs: documentation ids in Csharp/DocId, the clean-up of
--               texts in Csharp/Whitespace.
--   Ingest      docx-core/src/control/ingest.rs: resolve_ingest_payload in Ingest/Payload,
--               dedupe_symbols in Ingest/Dedupe, the builders of edges in Ingest/Edges,
--               Ingest/SymbolEdges and Ingest/BlockEdges, and ingest_rustdoc_json in Ingest/Pipeline.
--   Control     docx-core/src/control: metadata.rs in Control/Projects, data.rs in Control/Search and
--               Control/Adjacency.
--   Store       docx-core/src/store/surreal.rs: the pure functions of the store, and in Store/Session its
--               writes, as the statements that they send.
--   Api         docx-ingest/src/lib.rs: the checks, the error mapping and the handlers, which take the
--               registry before a request and return it after it.
--   Config      crates/bin/docx-mcpd/src/config.rs, and the checks in main.rs before the start.
--   Base, Text, Collections: what the parts share. A text is the list of its code points; a HashSet is
--               the list of its elements and a HashMap an association list. Where the code takes any
--               entry of a map, as the search for a live connection in services.rs does, the model takes
--               the first of the list. Tests holds the theorems at concrete inputs.
--
-- Loops are structural recursion. The search for a free symbol key counts in 32 bits; its fuel is the
-- number of used keys and one, which is enough because the candidates are distinct as long as there are
-- fewer than 2^32 - 2 used keys. The visit of a crate has one unit of fuel for each item of its index,
-- which is enough because only an unseen module uses one up; a type is rendered with its nesting as
-- fuel, which is enough because each level looks at parts of a value only.
-- Of a JSON object with several keys where rustdoc writes one, `inner`, the first is taken, and of JSON
-- itself only the tree of values is modelled: its reader and printer are serde_json's.
--
-- What the world answers is an argument: clock readings, pings and the builder of connections (Moment),
-- the file system (read_file), the control plane behind a handler (Control), the discovery of databases,
-- what the database answers to a statement after those before it, the ids that Uuid makes, what other
-- readings of the store return, and Unicode lower-casing. Writes that the store starts together and joins
-- are sent in the order of their list. A visit that does not finish, as in the parser above, is an error
-- of the ingest. Not modelled: the queries that SurrealDB runs, the C# ingest, the
-- MCP tools, axum's routing and decoding, and the walk over C# XML nodes.
pub mod Api
pub mod Base
pub mod Tests
pub mod Text
pub mod Collections
pub mod Models
pub mod Schema
pub mod Registry
pub mod Rustdoc
pub mod Csharp
pub mod Ingest
pub mod Store
pub mod Config
pub mod Control
