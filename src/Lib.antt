-- ===== src/Lib.antt =====
-- ProxyDock is a control plane for fleets of Traefik proxies. A manager (apps/api) keeps fleets,
-- agents, proxy hosts, certificates and numbered revisions of a compiled configuration in a store,
-- and serves each agent the published revision of its fleet. A provider plugin
-- (providers/traefik-fleet) runs inside each Traefik, polls the manager, checks what comes back,
-- hands it over to Traefik and keeps the last good answer in a cache file. The store, the compiler
-- of configurations, the HTTP handlers, the bearer tokens, the label selectors, the webhook and
-- ACME workers and the plugin are modelled here, as functions on explicit state that can be run.
--
-- Prelude and its children: names of the libraries, Boolean tests, equality, association lists in
-- place of Go's maps, sorting, strings. A Go string is the list of its code points, the body of a
-- message or the content of a file the list of its bytes (Octets), an int, int64 or duration is its
-- 64-bit pattern, whose increment wraps around, a time is a number of nanoseconds, a nil pointer,
-- slice or map is `none`.
--
-- Model: the records of apps/api/internal/model/model.go, under the names of the structs and
-- fields.
--
-- Store: apps/api/internal/store/memory/memory.go. Store/State has the struct Store, the errors of
-- apps/api/internal/store/store.go and the results. Each method is a function of the method's name
-- in snake_case, in Store/Fleets, Agents, Tokens, ProxyHosts, Templates, Webhooks, Revisions,
-- Certificates, Acme and Audit. It takes the current time, which time.Now gives, its arguments and
-- the store, and returns the store with the result. The mutex makes each call one step. Go iterates
-- over a map in any order; the model does so in the order of its association list, so a theorem
-- about a result that depends on the order speaks of the list. Store/Table is the invariant of one
-- numbered table, Store/Invariant that of the store, with the calls as a data type (Op) and
-- sequences of calls (run); Store/Cases and the children of Store/Invariant prove that each call
-- keeps it. It needs fewer than 2^63 calls, so that no counter wraps around. Store/Publishing,
-- Queue, Credentials and AuditLog have the properties that the manager relies on.
--
-- Provider: providers/traefik-fleet. Provider/Config is config.go, Provider/Client is client.go and
-- verify.go, Provider/Cache is cache.go, Provider/Loop is fleet.go. encoding/json, base64, ed25519
-- and URL parsing are a record of functions (Externals). The manager is a function of the request
-- for each poll. The operating system's answers during a save are a record (SaveCalls), and a save
-- gives every state that the disk goes through. A run is the start from the cache file and then a
-- list of polls; only one goroutine uses the state. Provider/Vetting, LastGood and Restart have the
-- properties. Every recursion of the plugin is structural, on a list, so no fuel is needed.
--
-- Auth: apps/api/internal/auth/auth.go, the format of bearer tokens, with SHA-256 and the random
-- bytes as parameters; Auth/RoundTrip is about a minted token that is read back.
--
-- Labels: apps/api/internal/labels/labels.go, with the parsing of a selector and its matching;
-- Labels/Selection describes them by the text. The printing of a selector is not modelled.
--
-- Worker: apps/api/cmd/manager-api/webhook_worker.go, rounds of the worker on the queue of the
-- store. HMAC and the endpoints are parameters, and the clock is read once in a round;
-- Worker/Attempts is about the number of attempts. Worker/Acme is acme_worker.go and acme_renew.go
-- of the same folder, with the ACME client, the DNS solvers and the parsing of keys and
-- certificates as parameters. The loop over the queue, in Worker/Drain, runs on fuel, and one more
-- than the number of pending jobs is enough; Worker/Outcome is about the end of a job.
--
-- Compiler: apps/api/internal/compiler/compiler.go. Compiler/Names, Upstreams and Middlewares have
-- its helpers, Compiler/Sections renders the http, tcp, udp and tls sections, Compiler/Validation
-- is Validate and Compiler/Compile is Compile, each function under its Go name in snake_case
-- (Validate is validate_all). A document is a value of Model/Value until it is marshalled;
-- json.Marshal, SHA-256, url.Parse and fmt.Sprint are a record of functions (Libraries). A Go map
-- that the compiler fills is an association list in the order of its writes, and json.Marshal is a
-- function of that list. Compiler/Integrity and Compiler/Order have the properties.
--
-- Api: apps/api/internal/api. Api/Access is bearerHeader, isPublicPath, checkAdminAuth and
-- requireAdmin of api.go and authenticateAgent, Api/Configs is agent_handlers.go, Api/Revisions is
-- signRevision, fireWebhooks, handlePublishRevision and handleRollback of admin_handlers.go,
-- Api/Resources its handlers of fleets, agents and tokens and admin_tokens.go, Api/Hosts those of
-- proxy hosts and revisions, Api/Certificates those of certificates, Api/Hooks is
-- webhook_handlers.go and middleware_template_handlers.go, Api/Issuing acme_handlers.go, Api/Audit
-- audit.go with the chain of middlewares, Api/Answers the answers. A handler is a function of the
-- parts of the request that it reads and the store, and gives the store and the answer: a status
-- with the ETag header and the body, and where a handler goes on after decodeBody has refused its
-- input, the error and then what follows it. The JSON of bodies, events and snapshots is not
-- printed: a body that was decoded is an argument, a snapshot in a revision is the list that it
-- decodes to. The server's key, bootstrap token and libraries are a record (Server). Its children
-- Guard, Admins, Audited, Unchanged, Enrolment, Delivery, Publishing, Checked, Secrets and
-- HookSecrets have the properties; Delivery puts the manager and the plugin together. Each call of
-- a handler runs to its end before the next begins.
--
-- Tests runs the models at concrete inputs.
--
-- Not modelled: the routes of apps/api, and its handlers of health, keys and discovery; the
-- Postgres store, whose SQL runs in a database; ACME, DNS, Docker and cryptography clients of
-- third-party services and libraries; metrics, tracing, start-up and the web interface. In the
-- plugin: cancellation by Stop, logging, and Init's early check of the token.
pub mod Prelude
pub mod Model
pub mod Auth
pub mod Labels
pub mod Compiler
pub mod Store
pub mod Provider
pub mod Worker
pub mod Api
pub mod Tests
