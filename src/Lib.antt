-- ===== src/Lib.antt =====
-- A model of hoster, a platform that deploys applications from templates on nodes.
--
-- The program, in Go: a functional core (internal/core, values in and out) and a shell around it
-- (internal/engine, internal/shell, cmd) that stores the values and does the I/O. This library models
-- the core, and of the shell the store and the handlers of the engine, the orchestrator of containers,
-- and the decision that the app proxy takes for a request.
--
-- - Prelude and its children hold what the modules share: tests, lists, maps, texts as bytes, signed
--   integers with the wrap-around of int64, and float64 as a record of operations.
-- - Deployment: internal/core/domain/deployment.go. The record and the state machine; Create is
--   NewDeployment and the domains; Lifecycle and Paths hold the theorems on transitions; Start is
--   internal/core/deployment/planner.go.
-- - Template: internal/core/domain/template.go; Template/Slug has GenerateSlug and Slugify
--   (internal/core/domain/slug.go), Template/Create has NewTemplate.
-- - Provision: internal/core/domain/cloud.go, with the life of a provision in Provision/Lifecycle.
-- - Compose: internal/core/compose/types.go and parser.go. Compose/Loaded converts what compose-go
--   loads, and Compose/Parser/Converted and Published say independently what is made of it;
--   Compose/Parser is ParseComposeSpec, Compose/Parser/Totals has CalculateResources, and
--   Compose/Cycles detectCircularDependencies, which Order/Accepted joins to Order.
-- - Dns: internal/core/dns/verification.go, on the domains of Deployment.
-- - Order: TopologicalSort of internal/core/deployment/ordering.go; Relax, Build, Loop and Sorted hold
--   the proof, one loop of the code each.
-- - Plan: BuildContainerPlan with names, ports and types of internal/core/deployment; Plan/Variables is
--   SubstituteVariables, scanned byte by byte.
-- - Docker: internal/shell/docker/orchestrator.go over the interface Client of types.go. Prepare and
--   Start are StartDeployment, Spec and Configs what it hands to Docker, Stop the other operations;
--   Leaks, InOrder, Planned and FileNames hold theorems. It calls Order and Plan.
-- - Node and Scheduler: internal/core/domain/node.go and internal/core/scheduler/scheduler.go. The
--   scheduler calls the tests of the node.
-- - Auth: internal/core/auth/authorization.go; Auth/Limits is internal/core/limits/validation.go.
-- - Proxy and Server: internal/core/proxy and internal/shell/proxy/server.go. The server calls the
--   parser of hostnames, whose input GenerateDomain of Deployment/Create writes.
-- - Health: internal/core/monitoring/health.go.
-- - Engine: the state machines of internal/engine/schema.go and internal/engine/resources.go, and
--   Transition of internal/engine/store.go as a function of what it reads; Engine/Agreement joins it to
--   Deployment. Engine/Store is the store with the state of the database, of which Engine/Store/Create
--   and Validate are Create; Engine/Handlers has the handlers of deployments in
--   internal/engine/handlers.go, which call Proxy and the store, and Engine/Handlers/Provisions
--   destroyProvision.
-- - Examples: the theorems at concrete inputs.
--
-- A method on a pointer returns the record after the call. An error is a value: an Option that is
-- `none` for nil, or a Result. A string that is compared only is a native String, and one that is
-- walked is the list of its bytes. A type of strings with constants has a constructor for each
-- constant, and `other` for any other text that can come in. Calls of packages that are not of the repository, the
-- clock, random values, the database and the order of Go's maps are arguments.
--
-- Loops run by recursion on their list, or on fuel where the code has a condition: TopologicalSort
-- takes one unit for each service, which is enough since each turn gives out one that was not given
-- before; GenerateSlug takes the length of the text, which each turn makes smaller; AllocatePort takes
-- the number of ports; the search for circles takes the number of names, since each call marks one.
--
-- Docker is a function of the calls that were made before, each with its answer, so every behaviour of
-- a daemon is one such function. The database is a record of SQL statements over a state; what the
-- theorems need of an UPDATE is the record IsTable of Engine/Store/Moves.
--
-- Not modelled: List of the store, the workers and the routes of the API, the Docker, cloud
-- and billing clients, the commands, the web pages, encryption, and compose-go, whose result the
-- compose parser takes as a parameter. A handler takes what an orchestrator does for a row as a parameter.
pub mod Prelude
pub mod Deployment
pub mod Template
pub mod Provision
pub mod Compose
pub mod Dns
pub mod Order
pub mod Plan
pub mod Docker
pub mod Node
pub mod Scheduler
pub mod Auth
pub mod Proxy
pub mod Server
pub mod Health
pub mod Engine
pub mod Examples
