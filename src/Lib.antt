-- ===== src/Lib.antt =====
-- velo-external-db: a server that lets a site query and change an external database through one
-- interface. A request passes the middleware, its filter is transformed and validated against the
-- schema of its collection, hooks may change its payload, and an adapter of the database turns it
-- into statements; items and errors are put into the form of the client on the way back.
--
-- Parts, the files that model them, and the code that they model:
-- Base: Booleans, lists, texts and results that the other files share.
-- Commons: libs/velo-external-db-commons/src/libs. A JavaScript value is a `Value`, an item is the
-- list of its entries, a thrown error is an `Error` in a `Result`. `Effects.Exec` is asynchronous
-- code over a store: what is awaited in turn runs in turn, and the calls that `Promise.all` starts
-- run one after the other, each at once; an adapter whose call reads what it writes later, so that
-- another call may come between, as `addColumn` of Firestore, has no such form. `Runtime` and
-- `Calendar` stand for what the program takes from its environment: identifiers, the clock, JSON,
-- SHA-1 and JavaScript's dates.
-- Types: the data of libs/velo-external-db-types/src/index.ts and collection_types.ts.
-- Converters: libs/velo-external-db-core/src/converters. `Filter` is filter_transformer.ts,
-- `Validation` query_validator.ts and query_validator_utils.ts, `Items` item_transformer.js,
-- `WixData` data_utils.ts, `Aggregation` aggregation_transformer.ts and utils.ts.
-- Schemas: libs/velo-external-db-core/src/utils/schema_utils.ts, by types, operators and columns.
-- Service: libs/velo-external-db-core/src/service. `Storage` holds the interfaces of an adapter and
-- of the package node-cache, which the services take as parameters. `SchemaInformation` is the
-- cache of schemas, `Schema` the collections, `Data` and `SchemaAwareData` the items, `Indexes`
-- indexing.ts and operation.ts. The state of
-- a service is a pair, the database and the cache; no call of the adapter changes the cache.
-- Web: libs/velo-external-db-core/src/web, spi-model/errors.ts, and the hooks of
-- data_hooks_utils.ts, schema_hooks_utils.ts and router.ts. `Payloads` is what a hook is given, and
-- `Router` the handlers of router.ts for items, with the requests of spi-model/data_source.ts;
-- `Collections` is its handlers for collections.
-- Security: libs/external-db-security/src/services/role_authorization.ts.
-- Postgres: libs/external-db-postgres/src. `Operators`, `Filter` and `Clauses` are
-- sql_filter_transformer.ts, `Statements` is postgres_data_provider.ts up to the call of the pool.
-- SQL is a list of pieces, texts and placeholders; `Sql.render` is the text that is sent. `Schema` is
-- sql_schema_translator.ts; `Provider` is postgres_schema_provider.ts with sql_exception_translator.ts
-- and postgres_capabilities.ts, over a pool, a parameter, that runs statements or fails.
-- MySql: libs/external-db-mysql/src, in the same division. SQL is text whose parameters are written `?`;
-- the package mysql, which quotes names, is a parameter. Values are taken as by the Postgres adapter
-- where the source has the same words. `Schema` is sql_schema_translator.ts.
-- MsSql: libs/external-db-mssql/src, in the same division. Parameters have names; the two counters that
-- number them are passed on from part to part. The package tsqlstring is a parameter.
-- Tests: concrete inputs for the theorems.
--
-- Bounds and fuel: every loop of the code goes over a list or a filter and is structural recursion,
-- so no function has fuel but the printing of a decimal numeral, whose fuel is the number itself.
-- Numbers are natural numbers or integers without a bound; JavaScript's rounding above 2 ^ 53 is not
-- modelled.
--
-- Not modelled: the drivers of the databases and their connections, the handlers of the router for
-- indexes, the names of collections and the indexes of the Postgres adapter, the schema providers of
-- MySQL and SQL Server, the other adapters, configuration, logging, pages and deployment. Members of
-- Object.prototype are no keys of an object, and integer keys of an object do not move to its front.
pub mod Base
pub mod Commons
pub mod Types
pub mod Converters
pub mod Schemas
pub mod Service
pub mod Web
pub mod Security
pub mod Postgres
pub mod MySql
pub mod MsSql
pub mod Tests
