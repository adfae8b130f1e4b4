-- ===== src/Lib.antt =====
-- Verification of Mountaineer: its migrations, its caches, the metadata of its pages, and the client
-- that it builds.
--
-- Mountaineer is a web framework; its migrations bring a PostgreSQL database to the schema of an
-- application. A migration is a class with the revision it starts from, the revision it goes up
-- to, and two bodies. The commands sort all migrations by their revisions, read the revision that
-- is active from the table `migration_info`, and run bodies, each in a transaction of its own,
-- through an object that checks, records and sends SQL statements. A new migration comes from two
-- schemas, whose objects are found by handlers and put into an order. A page merges the metadata of
-- its controller and its layouts, and the client is written from the schemas of the server's API.
--
-- The files and the code that they model (paths from the repository's root):
--   Base: helpers. Base/Equality (`==` as an instance argument, if-then-else), Base/Numbers,
--     Base/Lists, Base/Dict (a Python dict as an association list in insertion order),
--     Base/FrozenSets (a frozenset as the list of its items), Base/Sorting (`sorted`),
--     Base/Strings (`join` and `repr`), Base/Exec (code that changes a state and may raise),
--     Base/Perms, Base/Results (code that touches no state and may raise), Base/TopologicalSorter.
--   Migrations/Database: the database that the migrations run on, as an interface. SQLAlchemy and
--     PostgreSQL are not code of this repository; the laws of the interface say what a
--     transaction does to the table `migration_info`; any statement may be refused. Tests/Memory is
--     an instance.
--   Migrations/Migrator: mountaineer/migrations/migrator.py. `MigrationSession` is a session with
--     its flag `okay_to_commit`, and `new_migrator` is the context manager around a body.
--     Migrator/Sessions holds lemmas on sessions and transactions.
--   Migrations/Revision: mountaineer/migrations/migration.py, `handle_up` and `handle_down`.
--     Revision/Atomicity treats them as transactions, Revision/Effects says what they have run.
--   Migrations/ClientIo: mountaineer/migrations/client_io.py, `sort_migrations`. ClientIo/Walk,
--     Chain, Order and Cycle hold the lemmas on its loop.
--   Migrations/Cli: mountaineer/migrations/cli.py, `handle_apply` and `handle_rollback`.
--   Migrations/Actions: mountaineer/migrations/actions.py. Actions/Types has the enums and the
--     constraints' arguments, Actions/Identifiers the check of names and the quoting of values,
--     Actions/Sql the text of the statements, Actions/Methods the methods of `DatabaseActions`.
--     Actions/Calls describes a call of a method as a value, Actions/Outcome compares the methods
--     with it, and Actions/Replay calls a recorded action again.
--   Migrations/Stubs: mountaineer/migrations/db_stubs.py, the objects of a schema. Stubs/Changes has
--     their `create`, `migrate` and `destroy`, Stubs/Agreement, Merging and Unchanged hold theorems.
--   Migrations/Serializer: `build_actions` of mountaineer/migrations/db_memory_serializer.py, with
--     Serializer/Unchanged for its theorems.
--     Serializer/Ordering is `order_db_objects`, over Base/TopologicalSorter for the standard
--     library's `graphlib`, with Ordering/Dependencies, Places and Complete for its theorems.
--   Migrations/Handlers: `is_type_compatible` of mountaineer/migrations/generics.py, with Fuel,
--     Finite and Accepts for its theorems. Handlers/Delegation is `register_handler` and `delegate`
--     of mountaineer/migrations/db_memory_serializer.py, Handlers/Typevars mountaineer/generics.py.
--   Migrations/Generator: `actions_to_code` of mountaineer/migrations/generator.py.
--   Controllers: mountaineer/render.py and mountaineer/controller.py: the metadata of pages and
--     `_merge_metadatas`, with Controllers/Unique for its theorem; Controllers/Header is
--     `_build_header`, Controllers/Page is `_generate_html`.
--   Config: mountaineer/config.py. Config/History has programs that use the registry.
--   ClientBuilder: the schemas of mountaineer/client_builder/openapi.py; ClientBuilder/Models is its
--     `gather_all_models`. ClientBuilder/Typescript and ClientBuilder/Parameters are
--     mountaineer/client_builder/typescript.py, ClientBuilder/Schemas is
--     mountaineer/client_builder/build_schemas.py, ClientBuilder/Links
--     mountaineer/client_builder/build_links.py, and ClientBuilder/Actions
--     mountaineer/client_builder/build_actions.py.
--   SourceMaps: `map_exception` of mountaineer/js_compiler/source_maps.py, with SourceMaps/Edits for
--     its theorem.
--   Cache: mountaineer/cache.py. pydantic, `json` and `hashlib` are parameters. Cache/Entries has
--     the laws of `LRUCache`, Cache/Transparency those of the wrapper of `extended_lru_cache`,
--     Cache/Loops is `AsyncLoopObjectCache`.
--   Tests: runs of the definitions, and applications of the theorems, on concrete inputs.
--
-- Fuel: the loop of `sort_migrations` runs on fuel. More fuel than there are migrations is enough
-- for migrations that form a chain; more than the size of two typehints is enough for
-- `is_type_compatible`, and more than the length of its longest chain of variables for
-- `expand_typevars`. `out_of_fuel` stands for a loop that does not end, and is not
-- an exception of the code.
--
-- An exception is a value of `Error` by its class; messages are left out. A coroutine is run to
-- its end: the code awaits each step before the next. Logging and console output are left out.
-- What user code in a migration does is a parameter, and the theorems say what they ask of it.
--
-- Not modelled: the reflection that finds the schema of an application (handlers and serializers),
-- the imports and the frame of a generated migration file, and the rest of the web framework
-- (routes, watching). `resolve_ref` of the client builder reads attributes by their names and is a
-- parameter. The walks over schemas run on fuel, without a bound that is enough: a schema without a
-- title may refer to itself. Paths of the operating system and imported modules are arguments.
pub mod Base
pub mod Cache
pub mod ClientBuilder
pub mod Config
pub mod Controllers
pub mod Migrations
pub mod SourceMaps
pub mod Tests
