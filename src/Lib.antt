-- ===== src/Lib.antt =====
-- Account pool: a model of src/account_pool, a service through which agents act on social accounts.
--
-- The parts and the files that model them (paths are from the repository's root):
--   Domain/Enums, Domain/Models: src/account_pool/domain/enums.py and models.py, each enum a data type
--     and each pydantic model a record. Domain/Json: the values of a `dict[str, Any]`.
--   Runtime/World: the state that the services share, which is the tables of db/tables.py, the audit log,
--     the rate limiter and the two trackers of policy/, and the calls made of adapters and of the notifier;
--     and the environment that the program does not decide: the clock, random identifiers, adapters,
--     the cipher, settings. Runtime/Monad: a method is a function of the state into a result or an
--     exception and the state after it. Runtime/Errors: errors.py and the other exceptions.
--   Table, Db/Accounts, Db/Records, Db/Audit: src/account_pool/db/repositories.py and audit/log.py.
--   Policy/Guards, Engine, Context, Decisions: the guards of src/account_pool/policy/guards.py and
--     platform_rules.py, their order, and the loop of engine.py. Policy/Policies: policies.py.
--     Policy/RateLimit: ratelimit.py. Policy/Trackers, Policy/Promo: trackers.py.
--     Chain, Frame, Facts, Admission, Votes, Tightening, Lifting, Window and Ratio prove.
--   Locking: src/account_pool/actions/locking.py. Locking/Interleaving gives the steps of several agents
--     on one row, Locking/Exclusion what follows from the versions, Locking/Refinement
--     that the operations take such steps, Locking/Checkout and Asked what a checkout
--     returns, Locking/Obtaining when it does, and the checkin after it, Locking/Release what a
--     checkin needs.
--   Approvals: src/account_pool/approvals/queue.py.
--   Actions/Context, Drafts, Submit, Execute, Reads, Decide: src/account_pool/actions/service.py, a
--     definition for each method and for each branch of the long ones. Outcomes, Logging, Reading, Calls,
--     Gate, Review, Stale, Reopened, Keyed and Retry prove.
--   Accounts/Status, Identity, Service, Patch: src/account_pool/accounts/service.py and domain/ids.py; Honesty,
--     Administration and Patching prove. Vault: src/account_pool/vault/vault.py and provider.py, over a
--     cipher that is a parameter; Vault/Roundtrip proves.
--   Adapters/Interface: src/account_pool/adapters/base.py; an adapter is a function of the history of
--     calls. Adapters/Fake: fake.py. Adapters/Net: what the adapters of the network share, over a network
--     that is a parameter: the answer to a request, with its client, its method and its arguments, after
--     the requests before it. Adapters/Reddit, Mastodon, Bluesky, Twitter, Medium, Substack: the files of
--     these names, a definition for each method. Reddit/Refs: the references of reddit.py, its regular
--     expressions as matchers by clauses; Reddit/Posts: what the adapter shows; StatusIds: `_status_id` of mastodon.py and `_tweet_id` of
--     twitter.py. Xml: _feeds.py. Replay: the requests that a history of calls has led to, and how
--     the services see an adapter of the network. Registry: registry.py. Reddit/Links, Reddit/Owned,
--     StatusIds/Digits, Xml/Limit, Registry/Built and DryRun prove, and with Actions/Silence, SilentVerbs,
--     SilentReview and Actions/DryRun what the services do with these adapters in a dry run.
--   Db/Queries: the order of the audit log's query. Db/Keys: which row an idempotency key finds.
--   Support: src/account_pool/support.py; Support/Coverage proves.
--   Server/Routes, Rest, Answers: src/account_pool/server/rest_admin.py, a constructor for each route and a
--     definition for each handler; Server/Bodies reads the JSON of a body, Server/Views are the answers,
--     with `_account_summary` of mcp_server.py. Server/Tools, Mcp: mcp_server.py, a constructor for each tool
--     and each resource, and context.py. Access, Lifecycle, Inspection, Looking and Harmless prove.
--   Base/Chars: the methods of `str` that the adapters use, on lists of characters; Base/Runs: texts in a
--     class of characters.
--   Tests: a small pool, and the theorems at work on it.
--
-- How the parts meet: the action service loads the account and the draft, builds a context, asks the engine,
-- and refuses, queues an approval or executes; an execution calls the adapter and updates the trackers.
-- The lock service writes the account's row under its version, and the guard of the lock reads it. The REST
-- server checks the token of a request, reads its body, calls a service and gives its exception a status.
--
-- Choices: a moment is a natural number of microseconds since the year 1, and an addition of seconds raises
-- outside the years 1 to 9999. JSON has no floats. `str.lower` acts on what becomes a letter of ASCII. A table keeps the order of
-- insertion, and equal moments keep it in a sort. `checkout` has four rounds, as in the source, so its
-- fuel is the source's own bound; what other agents do between a round's read and its write is a parameter.
-- A fresh uuid is a value of an oracle; an append to the audit log is taken not to clash.
--
-- The matchers and the search for links recur on the text, `traverse` and `collect` on a list. The result of a
-- call of an SDK is JSON, and its attributes are fields. A body of a request whose value has another type
-- than the service is annotated with raises `TypeError` where it is read.
--
-- Not modelled: the SDKs and HTTP, which are the network; the parser of XML; FastMCP and FastAPI, whose checks
-- of arguments are taken as done; the page of ui.py; settings and wiring; the engine of the database; the
-- cipher, and the file of its master key; the description for agents of contracts.py; the validation of a
-- persona by pydantic, which is a parameter; texts that only a person reads.
pub mod Base
pub mod Table
pub mod Domain
pub mod Runtime
pub mod Adapters
pub mod Policy
pub mod Vault
pub mod Db
pub mod Locking
pub mod Approvals
pub mod Actions
pub mod Accounts
pub mod Support
pub mod Server
pub mod Tests
