-- ===== src/Lib.antt =====
-- Verification of the billing agent: a service that takes a customer's complaint, computes the
-- discrepancy between an invoice and a contract, and credits it, asks an approver, or declines.
--
-- How the program works. A request reaches an endpoint (src/api/routes/chat.py) behind authorization
-- (src/api/dependencies.py, src/infrastructure/security/identity_provider.py) and a rate limit
-- (src/api/rate_limit.py). The chat endpoint runs the workflow (src/agent/graph.py): a language model
-- reads the message, the billing service (src/application/services/billing_service.py) computes the
-- discrepancy and applies the rules (src/domain/rules/billing_rules.py), and the last node issues a
-- credit, asks for an approval, or leaves the case to a person. The approval endpoint decides on a
-- pending request. Both write through the repository
-- (src/infrastructure/persistence/repositories/billing_repository.py) in a session of their own. In
-- http mode the service asks a tool server (mcp_server/services/billing_service.py) through a client
-- with retries and a circuit breaker (src/infrastructure/mcp/client.py).
--
-- Which file models what.
--   Base, Base/*        shared names, integers in cents, lists, texts
--   Domain/Status       src/domain/enums/billing_status.py, with the parsing of each word
--   Domain/Errors       src/shared/errors.py, and the results of code that can raise
--   Domain/Models       src/domain/models/
--   Domain/Rules        src/domain/rules/billing_rules.py; Domain/Decisions is about it
--   Store               src/infrastructure/persistence/models.py: a row is a record, a table a list
--   World, World/*      the session of src/infrastructure/persistence/database.py, the clock, the
--                       identifiers, the counters of src/shared/observability.py, the mails of
--                       src/infrastructure/email/service.py; World/Post, World/Stays and
--                       World/Preserves are the rules by which the proofs follow a do block
--   Repository, /*      billing_repository.py, every method
--   Billing, /*         src/application/services/billing_service.py, every method; Billing/Client is
--                       the interface of the client it writes by
--   Workflow, /*        src/agent/graph.py, src/agent/state.py, src/agent/nodes/understand_request.py
--   Routes              src/api/routes/chat.py; `serve` is a sequence of requests
--   Seed                src/infrastructure/persistence/seed.py
--   RateLimit, /*       src/api/rate_limit.py
--   McpClient, /*       src/infrastructure/mcp/client.py, `_invoke_http_tool` and its helpers,
--                       and `_normalized_base_url`
--   LocalClient, /*     src/infrastructure/mcp/client.py in local mode: the time limit of a tool, its
--                       counters, and the five operations
--   RemoteClient, /*    the same client in http mode: the five operations, with the tool server of
--                       mcp_server/http_api.py behind a network that loses POSTs and responses
--   McpServer, /*       mcp_server/services/billing_service.py; McpServer/Api is mcp_server/http_api.py
--   Payload             a dictionary of JSON
--   Wire, /*            the dictionaries of the tool server, and how the client reads them
--   Llm, /*             src/infrastructure/llm/client.py; Llm/Fallback is its regular expression
--   ErrorHandler, /*    src/api/main.py, `app_error_handler`
--   Middleware, /*      src/api/main.py, the middleware and the trace id
--   App, /*             the endpoints behind authorization, rate limit and src/api/schemas/chat.py
--   Deployment          the application, the tool server and mcp_server/server.py on one database, by
--                       events one after the other
--   Facts, LocalClient/Facts, RemoteClient/Facts
--                       the facts of a bill from the session, from the local tools, and over http
--   Migration, /*       alembic/versions/20260923_0001_initial_schema.py
--   Auth, /*            src/api/dependencies.py, src/infrastructure/security/identity_provider.py
--   Safety, Approvals, Final, Once, Idempotency
--                       what the credits, the requests and the decisions on them satisfy
--   Preserved, /*       the program as a whole, on any invariant that its writes preserve: Final and
--                       Once fill its records of laws
--   Fixtures, Tests     a database and an environment, runs, and the theorems at concrete inputs
--
-- How it is modelled. A coroutine is an action `Env → World → Result A × World`: it returns or raises,
-- and passes the world on either way, as an exception does not undo an assignment. A world has the
-- committed tables and the session's changes, a function on tables that `commit` applies for good and
-- the close of the session forgets. `Env` holds what the code does not decide: the settings, the n-th
-- reading of the clock, the n-th random identifier, which tables the database refuses at a flush, and
-- which of several invoices it calls the latest. An attribute that the code sets on a row is a change
-- of the row with that primary key. Amounts are integers in cents, since every column that holds one
-- has two decimal places; instants are natural numbers in microseconds. A status is the text of its
-- column, as the code may meet a word that is no status. The language model, the identity provider,
-- the HTTP library with the server behind it and, for the service, the tool client are arguments;
-- `deployed` is the application with the local tool client and the client of the language model,
-- `connected` the one whose client calls the tool server. That server has the same database and clock,
-- and runs a tool as soon as a POST reaches it; a response that is lost does not undo that. A request
-- has a client of its own, with a closed circuit. The identity provider is a function
-- of the token, so that a token is not revoked and does not expire from one request to the next. The
-- unique columns of the schema are among the reasons for which the database may refuse a flush.
--
-- Bounds. Two definitions run on fuel. That of `show_ℕ` is the number itself, more than its digits;
-- that of `find_all`, the search of the regular expression, is the number of characters, and a theorem
-- says that it is enough: the amounts are those of an automaton without fuel. The attempts of a call to the tool server are counted down. Requests run one
-- after the other: the interleaving of two sessions is not modelled, nor a refusal at commit. A tool
-- call that times out is cut before it has committed or after; an argument says which calls are. A
-- number in a text is read without sign, blank or underscore, and an amount with at most two places:
-- the program writes no other. The model refuses a caller's length or amount in another notation, of
-- which the code reads some.
--
-- What is not modelled: logging, durations and histograms, the text of metrics, start-up and health
-- checks, the parts of other packages (the database below the session, the language model, the
-- identity provider, the protocol library that registers the tools), and the copying of the instants
-- of a tool's answer to ISO text.
pub mod Base
pub mod Domain
pub mod Store
pub mod World
pub mod Repository
pub mod Billing
pub mod Workflow
pub mod Routes
pub mod Safety
pub mod Preserved
pub mod Approvals
pub mod McpClient
pub mod Auth
pub mod McpServer
pub mod Idempotency
pub mod ErrorHandler
pub mod Migration
pub mod Middleware
pub mod App
pub mod Deployment
pub mod Final
pub mod Once
pub mod Payload
pub mod Wire
pub mod Llm
pub mod Facts
pub mod LocalClient
pub mod RemoteClient
pub mod RateLimit
pub mod Seed
pub mod Fixtures
pub mod Tests
