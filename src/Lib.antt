-- ===== src/Lib.antt =====
-- gorch: an orchestrator that registers services with dependencies between them and starts,
-- supervises and stops them.
--
-- The parts, and the files that model them:
-- - graph.go (lookupEntry, dependsOnRecursive): Graph.antt, with paths as a relation in Graph/Paths and
--   the search in Graph/Walks and Graph/Search, and its depth in Graph/Depth.
--   topoSort and topoSortForStop: Topo.antt and Topo/.
-- - register.go (Register, validateRegisterConfigLocked, registerDynamicCfg, commitDynamicLocked):
--   Register.antt. A registration has a function for each critical section: register_begin, register_check
--   (of a hot add) and register_finish; Register/Race interleaves two of them.
-- - service.go: Service.antt, Service/Options, Service/Errors. An error is its sentinels, less its text.
-- - entry.go (serviceEntry): Entry.antt, with the cron accounting (cronBegin, cronEnd, cronDrain) in
--   Cron.antt. orchestrator.go: Orchestrator.antt, where entries are references into a store, as the
--   program's list and index share pointers. Orchestrator/Registry is its invariant.
-- - membership.go (StartService to its claim, the selection of tearDown, removeEntryLocked):
--   Membership.antt. introspection.go, readiness.go and the queries of groups.go: Introspection.antt.
-- - config.go and initialize: Config.antt. The states of health.go: Status.antt. Contexts and channels
--   of the runtime, as far as they are pointed to: Runtime.antt.
-- - messenger.go: Messenger.antt. What panics in Go (a send on a closed channel, a second close) sets a
--   fault. Messenger/Runs has the steps in any order, Messenger/Delivery what each call does.
-- - lifecycle.go: Lifecycle.antt has the status, the stop metric and the owners; Lifecycle/Start is
--   startOneService, cut at the calls of the caller's code, Lifecycle/Stop the stop of an entry and the
--   end of tearDown (what other goroutines do in a stop is its input Meanwhile), Lifecycle/Exit handleServiceDone before and after its wait, and Lifecycle/Whole
--   Start and Stop of the orchestrator. Lifecycle/Waits puts the steps in any order, the parts of a
--   stop each on its own.
-- - groups.go (StartGroup, StopGroup, UnregisterGroup): Groups.antt.
-- - health.go (Health, runHealthChecks): Health.antt.
-- - cron.go (invokeCron, scheduleEntry, setupCron): Ticks.antt.
-- - membership.go (ReplaceService): Replace.antt.
-- Base.antt has the shared names, and Tests.antt small states on which the theorems are applied.
--
-- Registration, removal and the queries share the state of Orchestrator.antt; registration and StartService
-- call the graph's lookup, and the dependency search is what registration refuses cycles by.
-- A start takes an owner from the messenger, and an exit gives it back and drains it. Stop orders the
-- entries by topoSortForStop. Callbacks are recorded in the order of their calls, and not run.
--
-- Bounds. The cycle search recurses on the room left below maxDependencyDepth, so it goes as deep as
-- the program's. topoSort has as much fuel as it has entries, and each round visits one at least.
-- The walk over dependents has fuel for one level per entry and two more: a deeper visit would have to see a new name.
-- Go's int is unbounded here: a counter would have to pass 2 ^ 63 to differ. A range over a map is
-- taken in one order, where the program sorts what it gets from it.
--
-- Outside: what the caller's code does is an input (Call), and the parser of robfig/cron is the parameter
-- `parses`. Which of a call and its timer comes first is an input too (Run, Deadline, Finish, Window),
-- and gob is the parameter `encode`. Not modelled: the goroutines of Start's levels with the rollback
-- between them, the ticker of the health loop, the typed wrappers of the messenger, logging, goroutine
-- ids, floating-point backoff, the tools and the examples. The goroutine id that is set around a call of
-- the caller's code is left out too, since that code is not run.
pub mod Base
pub mod Status
pub mod Service
pub mod Runtime
pub mod Cron
pub mod Entry
pub mod Config
pub mod Orchestrator
pub mod Graph
pub mod Topo
pub mod Register
pub mod Membership
pub mod Introspection
pub mod Messenger
pub mod Lifecycle
pub mod Groups
pub mod Health
pub mod Ticks
pub mod Replace
pub mod Tests
