-- ===== src/Lib.antt =====
-- Xensus, a registry of the persons of an organization and of their identifiers in other systems: a
-- Go server over one SQLite database. This library models the business rules (core), the statements
-- that they send (store, with the schema of migrations/0001_initial.sql), the printed form of IDs
-- (id), the configuration (config), the sign-in with its cookies and the gates (auth), the JSON
-- API (api, router.go), the pages and their forms (web), and the process that puts them together
-- (main.go, server.go, middleware.go, version.go).
--
-- The parts and their files:
--   Base: texts, lists and Boolean tests. A Go string is the list of its code points.
--   Sql: tables and the SELECT, INSERT, UPDATE and DELETE statements of the program as operations
--     on them. A table is its rows, newest first, with the AUTOINCREMENT counter. Sql/Order has ORDER
--     BY and LIMIT with SQLite's collations BINARY and NOCASE, Sql/Like its LIKE (a text has no NUL),
--     and Sql/Selected what such a SELECT returns. Only an INSERT can find a table full, at the rowid
--     2^63 - 1.
--   Store: one file for each file of store/ (Schema: the tables and structs). Each statement is a
--     definition of its function's name (insert_person is InsertPerson).
--   Store/Listings has the queries of all these files that return many rows, Store/Audit and
--     Store/Days store/audit.go, and Store/Migrations and Store/Opening store/store.go, where what
--     SQLite does with a script is a parameter, the Engine, and the file system another, the Platform.
--     Store/Names, Store/Entries and Store/Upgrade describe which migrations a start applies.
--   Store/Session: database/sql with the driver: the committed database, the open transaction,
--     and a driver that is a parameter. The driver decides for each call, counted from the beginning
--     of the session, whether it fails and what time SQLite's strftime and Go's time.Now give. A
--     COMMIT that fails commits nothing. A query through the handle db reads the committed database,
--     and one through tx that of the transaction. An Action is a Go function that returns (result,
--     error) and changes the session; or_rollback is the deferred Rollback.
--   Core: core/*.go, one file each; create_person is CreatePerson, and so on. An error keeps the
--     sentinel by which callers distinguish it and no message. An audit entry keeps its details as
--     the key-value pairs of the JSON object, which the program marshals in one place.
--   Registry: the specification: what each operation does to the database as a function of the
--     times and the arguments, without transactions and failures. Requests is the type of all
--     operations; the other modules hold the lemmas on what operations keep.
--   Core/Refinement: Core against Registry, one module for each file.
--   Core/Serve: any request, and sequences of them (serve_all). Identities, History, Maintenance
--     and Tenancy: properties of the database over sequences of requests with failing drivers.
--     Core/TestData, Core/Tests: a database in use, and the theorems at it.
--   Id: id/id.go, with strconv.ParseInt and the verb %06d in Base/Integers.
--   Config: config/config.go; strings.ToLower and os.Getenv are parameters, and a map of surfaces
--     is the function that looks one up.
--   Auth: the gates RequireUser and RequireSteward of auth/middleware.go.
--   Auth/Cookies is auth/session.go: a cookie holds the fields of its JSON object, sealed;
--     crypto/rand, the AEAD, base64 and encoding/json are the parameter Crypto.
--   Auth/Tokens: auth/bearer.go and auth/verifier.go, with the check of a token by go-oidc as the
--     parameter Inner.
--   Auth/World: tryAuthenticate; a World is what a process remembers of the tenant and its
--     database, and a Visit what it reads of a request, the time included.
--   Auth/SignIn: auth/handlers.go; the exchange of a code is the parameter Exchange, and the
--     address of the provider a function of state and nonce.
--   Auth/Startup and Auth/Setup: auth/authenticator.go, what a process starts with, with what go-oidc
--     discovers as the parameter Provider. Sealing, Entry, Binding, Arrival, Founding, Return and Journey: what
--     a sign-in does, from its cookies to the user of a later request. Auth/TestCrypto stands in for
--     Crypto in the tests.
--   Api: the handlers of api/*.go. Api/Routes has the table of the routes for POST, PATCH and
--     DELETE in router.go, and Api/Gates that of the routes for GET, with the gate that the
--     configuration chooses for each. Api/Reads, Api/AuditLog and Api/Records have the handlers that
--     read, and Api/Linked, Api/Exported, Api/Files and Api/Export describe the rows and the files of the export; the records
--     of a CSV file are those handed to encoding/csv. What encoding/json makes of a
--     body is a parameter: a value, io.EOF or an error. A message that quotes the request is kept as
--     a constructor with what it quotes.
--   Web: web/*.go. Web/Forms has the handlers that post and Web/Pages those that show, one definition
--     for each, with their answers (Web/Page); Web/Views and Web/Rows what the templates are given,
--     Web/Render the renderer, Web/Routes, Web/Visits and Web/Landing the routes, the gates, the
--     navigation and the landing page. What net/http makes of a form, url.QueryEscape, Encode,
--     time.Parse and html/template are parameters (the Display has those of the pages).
--     Web/Parity sets the forms against the API, Web/Twins and Web/Mirror the pages; Web/Navigation
--     sets the navigation against the gates and the landing page.
--   System: the whole. System/Requests puts Authenticate before the routes that change the registry,
--     System/Asked shows that a handler asks core for one operation at most, System/Moves that a
--     sign-in, a request or a form is a sequence of requests of sign-ins and of stewards. System/Steps
--     has the relation of what can happen, one thing after the other, restarts of the process
--     included, System/Agreement and System/Soundness what holds in every state that is reached.
--   Server: package main. Server/RequestId and Server/Middleware are middleware.go, Server/Version
--     version.go, Server/Health and Server/Run server.go and main.go, Server/Routes the table of all
--     routes in router.go: a Target is a request that matches a route, with what its handler reads.
--     Server/Running and Server/Lifetime follow a process from its start over the requests that it
--     serves to its end. What listening and shutting down come to is the parameter Ending. Store/Opening
--     ends with the disk of the Engine, Server/Run begins with the Database that is on it.
--
-- Every operation of core runs in a single transaction. SQLite serializes the transactions that
-- write: one that finds the database changed since it first read fails at its first write, which is
-- a failing call of the driver here. So sequences of requests are all that can happen to the
-- database. The role of a caller is looked up before, outside the transaction.
--
-- Definitions are by structural recursion. The digits of a number are at most 19, those of an
-- int64. Integers are int64 in the source. IDs come from the counter, which stops at 2^63 - 1; they
-- are natural numbers here.
--
-- The times in cookies are natural numbers, and a sign-in runs by itself: its clock reads one time.
-- The lock around the field tenantID and requests between the calls of one sign-in have no
-- counterpart. In System a request runs from the lookup of its caller's role to its answer before the
-- next one; that two requests whose roles are looked up first can do more is the demotion of two
-- stewards by each other in Core/Maintenance.
--
-- Not modelled: the templates themselves and the static files (web/templates, static), the JSON, CSV,
-- ZIP and HTML texts, the texts of log lines and of the help (main.go), time-outs, and which route
-- net/http chooses for a request. modernc.org/sqlite and database/sql are the driver parameter, with
-- SQLite's documented behaviour of the statements.
pub mod Base
pub mod Sql
pub mod Store
pub mod Core
pub mod Registry
pub mod Id
pub mod Config
pub mod Auth
pub mod Api
pub mod System
pub mod Web
pub mod Server
