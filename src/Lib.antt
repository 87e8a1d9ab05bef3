-- ===== src/Lib.antt =====
-- FortressWAF, a web application firewall in Go. The proxy hands every request to a pipeline of
-- inspectors; each may answer with a decision and a score, and the engine makes one decision of them.
-- Beside the pipeline stand a rate limiter, a session store, a rule engine and the metering of tenants.
--
-- The modules and the code they follow:
--   Base         lists, maps, numbers, texts and faults that the others share;
--   Pipeline     internal/engine/engine.go (Inspect, UpdateInspector, enrichExplainability,
--                finalDecision) and internal/engine/confidence.go;
--   Performance  internal/engine/performance.go (the circuit breakers, and Inspect, which the engine
--                calls in place of an inspector where performance isolation is on);
--   RateLimit    internal/ratelimit/ratelimit.go (the four algorithms, the limits, the cleanup);
--   Session      internal/session/session.go (the store, its indices by address and user, the cleanup);
--   Rules        internal/rules/rules.go (the table of rules, the matching, the default rules);
--   Billing      internal/billing/usage.go, features.go and license.go beside it;
--   Audit        internal/compliance/audit.go;
--   WebSocket    internal/engine/websocket.go (the frame parser, the inspector);
--   Ddos         internal/engine/ddos.go (the counters and the five detectors);
--   Adaptive     internal/engine/adaptive.go (the levels and the challenges);
--   Behavioral   internal/engine/behavioral.go (the windows, the entropy, the reputation);
--   Credential   internal/engine/credential.go (logins, brute force, tokens);
--   Tokens       internal/engine/auth.go (JSON web tokens, the cache of keys, OAuth introspection);
--   Desync       internal/engine/desync.go (the checks of request smuggling);
--   Graphql      internal/engine/graphql.go (the depth and the cost of queries, the limits);
--   Reputation   internal/reputation/reputation.go (the lists of addresses, the scores, their cache);
--   Siem         internal/siem/siem.go (the buffer of events, the flushes, the format CEF);
--   Tenants      internal/tenant (the tenants, their isolation, the partners).
-- WebSocket, Ddos, Adaptive, Behavioral, Credential, Tokens, Desync and Graphql are detectors of the pipeline. Each answers the
-- fields of a decision that Detection of Pipeline.Detection holds, and Adaptive reads the threat score
-- that the pipeline has added up before. Ddos and Behavioral share the sliding window of RateLimit.
--
-- A function of the source keeps its name, in lower case with underscores, and takes the state it
-- changes as its last argument and returns the new one. time.Now() is an argument, and so is the order
-- in which a loop visits a map, which Go leaves open. An error is a value of Option or of a data type;
-- a panic is `panic` of Base.Fault. The locks are left out: an operation is one step, also where it
-- takes two locks one after the other, as GetOrCreate of the session store and recordFailure do. In Siem
-- a step is a stretch between the locks, so that Send and flush are two steps or more. Loops
-- over slices are structural recursion. Only the loops of countPageSize, in Graphql.Measure, take fuel: as many
-- rounds as the text has bytes, which is enough since every round moves on by a byte of the text.
--
-- Numbers: counts, scores and times are natural numbers that stay below 2^63; limits and rates that
-- the configuration would make negative are left out, except where a type says otherwise. Floating
-- point is replaced by whole numbers of a unit that each file names, without the rounding errors.
--
-- Parameters: what an inspector answers (Inspector of Pipeline.Types), what the run-time does in a
-- guarded call (Call of Performance.Manager), regular expressions, addresses and text functions
-- (Library of Rules.Library), the hash and the formats of the audit log (Formats of Audit.Log), the
-- sort and the growth of a slice (arguments of Rules.Registry), the functions of strings, fmt and regexp
-- that the detectors call (sections of their modules), the random token of a challenge, the readers of
-- a JWT (TokenLibrary of Credential.Token), the cryptography of tokens (TokenLibrary of Tokens.Types), what
-- servers answer (Fetched of Tokens.Keys, Reply of Tokens.Introspection), the package net (Net of
-- Reputation.Lists), the readers of headers and queries (HeaderLibrary of Desync.Checks, GraphqlLibrary of
-- Graphql.Inspect), and JSON, base64, SHA-256 and ECDSA of the license keys
-- (LicenseLibrary of Billing.License).
--
-- Not modelled: the detectors that are tables of patterns, and the other protocol parsers; the texts of
-- the evidence of a decision; payments; compliance reports; the clients of outside services; the proxy, the API
-- server, the configuration and the dashboard; learning mode; the building of a request's context from
-- HTTP; logs and metrics.
pub mod Siem
pub mod Graphql
pub mod Desync
pub mod Reputation
pub mod Tokens
pub mod Base
pub mod Pipeline
pub mod Performance
pub mod RateLimit
pub mod Session
pub mod Rules
pub mod Billing
pub mod Audit
pub mod WebSocket
pub mod Ddos
pub mod Adaptive
pub mod Behavioral
pub mod Credential
pub mod Tenants
