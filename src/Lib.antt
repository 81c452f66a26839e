-- ===== src/Lib.antt =====
-- es-ts-example: an event-sourced application in TypeScript.
--
-- The program has five packages that are modelled here. packages/event-sourcing keeps logs of
-- events: aggregates are folds of their events, an event store appends events under optimistic
-- concurrency, a repository loads, saves and commits aggregates, and projections fold logs into
-- read models. packages/domain says what a counter and a user are: their events, their reducers and
-- the decisions on commands. packages/application joins both: each slice sees its own events of one
-- shared log, command handlers load an aggregate, decide and commit, and queries build read models.
-- packages/cli parses arguments to an action, runs it over the handlers and prints lines. packages/web
-- makes page models from the read models, renders them to HTML, and runs the commands that forms post.
-- scripts/ holds checks that the repository is built with.
--
-- How the source is modelled:
-- - Effect: an action of effect/Effect is a function from the state behind its services (a Ref, a
--   disk) to an exit and the new state; an exit is a success, a typed failure, or a defect. Streams are
--   the list of their elements, since every client collects them.
-- - The collection functions that the program takes from effect (filter, map, groupBy, get and set of a
--   record, clamp) are list functions of their documented meaning. The file system, JSON, the schema
--   codec and the key-value store are parameters with named laws. The order of the keys of a JavaScript
--   object is a parameter.
-- - Numbers that count are natural numbers; a difference, as in the version that a save expects, is an
--   integer. Numbers beyond 2^53 are not modelled. Ids are strings.
-- - Every loop of the source is a structural fold, but for the batches of mutation runs, which recurse on
--   fuel: the number of packages is enough. The digits of a number are written by recursion on an
--   accessibility proof.
--
-- Files:
-- - Common and its children: shared names, lists, integers, decimal digits, UTF-16 lengths; Effect.
-- - EventSourcing.Aggregate, Decision, EventStore, Repository, Projection, ProjectionStore: the files of
--   the same name in packages/event-sourcing/src. EventStore.Contract is the specification of a store,
--   EventStore.Memory (makeInMemoryEventStore) and EventStore.JsonFile (makeJsonFileEventStore) implement
--   it, EventStore.Log and EventStore.Streams hold what is true of well-formed logs.
-- - Domain.Counter and Domain.User: packages/domain/src/counter and user, with Bounds, Bookmarks and
--   Replay for the proofs.
-- - Application.EventStore: packages/application/src/eventStore.ts (belongsToSlice, eventStoreFor), with
--   Streams, Collision and Narrowed. Application.Counter and Application.User: the folders of these names, with
--   Decide and Refuse (the state machine of a counter), Handler, Listing, Keys and ReadModel.
-- - Cli: packages/cli/src/index.ts, with Render (what is printed), Printed (the same texts, written out for
--   the proofs), Parse and Run (runCli over the handlers of packages/application/src; the RPC library
--   between both is taken as the call of the handler).
-- - Web: packages/web/src. Html is mvc/html.ts and mvc/jsx-runtime.ts (Escape, Element, Jsx); Models,
--   Messages and Factories are models, i18n and factories; Views is views, with Markup, Blank, Inert,
--   Pages and Shows for the proofs; Controllers is routes.ts and controllers; Server is server.ts, with Create,
--   Press and Shape; Runtime is runtime-config.ts and packages/web/bin/runtime.ts.
-- - Scripts: the checks of scripts/. Policy is policy-exceptions.ts, MutationScope lint-mutation-scope.ts,
--   MutationReports lint-mutation-report-health.ts and lint-mutation-baselines.ts, MutationTimed
--   mutation-timed.ts, LiteralUnions lint-literal-unions.ts, UnitTests lint-unit-test-architecture.ts,
--   CoveragePolicy lint-coverage-policy.ts, StrykerConfig lint-stryker-config.ts, Messages
--   lint-i18n-messages.ts, ExceptionHealth lint-policy-exception-health.ts, Suppressions
--   lint-suppression-policy.ts and lint-noop-scripts.ts, RepoPaths lint-repo-path-policy.ts, StepPairs
--   lint-bdd-step-duplication.ts and lint-bdd-support-architecture.ts, and WebSources
--   lint-web-css-tokens.ts, lint-web-ui-components.ts and lint-custom-rule-tests.ts. A check is a function
--   of what it reads to its violations; the engine of regular expressions, the parser of TypeScript and the
--   runs of processes are parameters.
-- - Linter: oxlint-plugins/es-ts-example/rules. Paths is shared/filename.mjs and shared/paths.mjs, Placement
--   mvc-file-placement/rule.mjs and view-filenaming-convention/rule.mjs, Models
--   mvc-model-requires-view/rule.mjs and mvc-model-requires-factory/rule.mjs, Ownership shared/mvc-ownership.mjs,
--   Sources shared/policy-paths.mjs and the rules that test the text of a file. The methods of texts are the fields
--   of Engine.
-- - Tests: concrete stores, logs and disks, on which the theorems are applied.
--
-- Interfaces: EventStore.Contract.Implements is what the repository and the handlers are proved
-- against; Streams is what a view of the log owes to them; IsReliable and IsFaithful are the laws of the
-- disk, the codec and the key-value store.
--
-- Not modelled: the dispatch of the HTTP router and the decoding of requests (parameters); the wiring of
-- layers and of the RPC library, the entry points, the listing of files by git, the other
-- rules of the linter in oxlint-plugins/, most of them on syntax trees, and the test support.
pub mod Common
pub mod Effect
pub mod EventSourcing
pub mod Domain
pub mod Application
pub mod Cli
pub mod Web
pub mod Scripts
pub mod Linter
pub mod Tests
