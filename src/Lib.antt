-- ===== src/Lib.antt =====
-- The control plane of Tokenity, a server of language models on a cluster of machines.
--
-- tokenity/control/instances.py keeps the model instances of a node: their life cycle, the memory
-- and the ports that they hold, the registry that owns them, the queue of generations that share
-- nodes, and the choice of the instance that serves a request. The registry calls the methods of
-- an instance; the scheduler of generations keeps the queue counters of the registry's instances;
-- the router reads the registry. tokenity/control/routing.py chooses the model of a request that
-- names none. tokenity/node_agent/watchdog.py probes the agent that runs all of this and
-- restarts it. tokenity/node_agent/agent.py is that agent: it takes a chat request to an instance and
-- tries other ones where that fails, holding a slot of the scheduler and a lease of the registry
-- meanwhile; it chooses ports before it asks the ledger for them; and it makes an instance ready when
-- all of its ranks report so. tokenity/process/supervisor.py starts, takes over and stops the
-- processes of a node. tokenity/mlx/hostfile.py writes the table of addresses and RDMA devices of a
-- distributed run, tokenity/serving/readiness.py keeps the state that a runtime publishes, and
-- tokenity/node_agent/recovery.py decides whether a restarted agent adopts a running one. In the
-- runtime itself, tokenity/serving/distributed_openai.py shares each request between the ranks and
-- loads the parameters in groups, and tokenity/inference/native_mtp drafts tokens with a head of the
-- model: generation.py verifies the drafts, cache.py and qwen.py take the rejected ones out of the
-- caches, and runtime.py installs the patches of mlx-lm that all of this needs.
--
-- Files, with the code that they are about (their children hold the proofs and the tests):
--   Lifecycle   InstanceLifecycle and _TRANSITIONS of tokenity/control/instances.py
--   Instance    ModelInstance: one function per method that changes it
--   Memory      MemoryReservationBreakdown, live_system_available_memory_bytes
--   Ledger      ResourceLedger
--   Registry    InstanceRegistry
--   Slots       GenerationSlotScheduler
--   Router      InstanceRouter
--   Routing     AutoRouter, RouterMetrics and their records of tokenity/control/routing.py
--   Watchdog    AgentWatchdog.tick of tokenity/node_agent/watchdog.py
--   Recovery    assess_recovery_record of tokenity/node_agent/recovery.py
--   Readiness   ReadinessState of tokenity/serving/readiness.py
--   Mtp/Cache   update_and_fetch, trim, restore_after_rejection of native_mtp/cache.py, and the update
--               of a linear layer of native_mtp/qwen.py
--   Mtp/Target  what generation.py decodes with, as an argument, and its counts
--   Mtp/Decode  _post_init, _mtp_next, _verify_cycle, _step_head and _emit of
--               native_mtp/generation.py; Decode/Plain is plain decoding, to compare with
--   Mtp/Assembled   Decode over the layers of Cache
--   Mtp/Patch   PatchTransaction, InstalledPatch and the installation of prepare of
--               native_mtp/runtime.py
--   Mtp/Fingerprints   _rank_fingerprints_match of native_mtp/runtime.py
--   Mtp/Prepare   prepare of native_mtp/runtime.py as the questions that a rank asks the others;
--               Prepare/Ranks answers them for all ranks in step
--   Serving/Control   tokenity_share_object and the headers of tokenity/serving/distributed_openai.py
--   Serving/Load      _parameter_eval_chunks of the same file
--   Agent/Gateway   the two loops of gateway_chat_completions of tokenity/node_agent/agent.py
--   Agent/Handoff   _acquire_generation_slot of the same file, as steps of a thread and a request
--   Agent/Ports     _allocate_instance_port and _allocate_collective_port, then ResourceLedger.reserve
--   Agent/Quorum    instance_quorum for a text model; Quorum/Reports is what a rank reports
--   Agent/Reconcile   reconcile_instance_runtime of the same file
--   Agent/Orphans     cleanup_startup_orphan of the same file
--   Supervisor  RoleSupervisor and _AdoptedProcess of tokenity/process/supervisor.py; Supervisor/Handles
--               is one process
--   Hostfile    build_hostfile of tokenity/mlx/hostfile.py
--   Common, Errors, Ratio   lists, dictionaries, texts, exceptions and floats that these share
--
-- Choices. A method that changes an object is a function from the object to the new one; a method
-- that may raise returns a Result, and where a change survives the exception the state is returned
-- beside it. A method that holds a lock for its whole body is one step; `acquire` of the scheduler
-- releases its condition while it waits, so it is a step up to the first wait (start) and one for
-- each wake-up (poll), and a run is any sequence of such steps. Clocks are natural numbers of
-- ticks, passed in. Ratios are exact millionths, with the infinities and NaN, where the source has
-- doubles: rounding is not modelled; Routing takes the arithmetic of floats as an argument instead.
-- A dictionary is an association list in insertion order; a set is a list. JSON values that the code
-- only stores are texts. Messages of exceptions are left out.
--
-- What mlx, mlx-lm, pickle and zlib do is an argument: Target (a model with its cache and sampler),
-- Layers (a cache layer) and Wire (the sum over ranks, pickles, the checksum). Their fields named
-- after two operations are what is relied on: two tokens in one pass add what two passes add, taking
-- back the last token gives the store of before as later reads see it, a sum in which one rank alone
-- is not zero is that rank's array, and a pickle is read back. TargetLaws of Mtp/Decode/Plain is what
-- decoding relies on; Mtp/Assembled fills it from Layers, for a model whose attention is causal.
--
-- What changes under a request or a supervisor while it runs is an argument that says what each of
-- its calls finds: Env of Agent/Gateway (the registry, the cursor, the slot, the connection) and Os
-- of Supervisor/Handles (process numbers with their start times, exits, answers to signals, the
-- clock), Table of Agent/Orphans (one process by its number), and World of Recovery (the process and
-- the status file that a record names). The check of an adopted process
-- and the signal right behind it are one call: what could happen between the two is left out. So is
-- the closing of a child's input. Env also says whether the payload for an instance can be encoded. A
-- sweep, `_terminate_related_processes`, is one event of the trace, with the command whose marker the
-- signalled groups have: which processes these are is not looked up. The rounds of a wait in which
-- nothing changes are one position of Agent/Handoff.
--
-- Three functions take fuel, for loops that the code does not bound by a count: failover of
-- Agent/Gateway, where as much as there are instance ids is enough, and await_exit of
-- Supervisor/Handles, where one round more than there are milliseconds to the deadline is enough
-- (Agent/Gateway/Ends and Supervisor/Waits), and await_end of Agent/Orphans, which waits in the
-- same way and whose theorems hold for any fuel. Every other recursion is on a list or on a count.
-- The responses of native prediction are those of a given number of calls, and lockstep of
-- Mtp/Prepare/Ranks makes a given number of steps, of which ranks that go on together need three.
--
-- Not modelled: the HTTP server of the agent and of the distributed runtime, launching of
-- instances, the reconciliation of their memory; of the supervisor the status that its methods
-- return, the log files and the search for processes by their command; tensor code, the inspection
-- of checkpoints for drafting, command line, scripts and the control application; of the automatic
-- choice the registry of profiles and the scores that are reported; of the watchdog the lock file,
-- the log file, the status server and the probes themselves; of host files the test of a loopback
-- address, which is an argument.
pub mod Common
pub mod Errors
pub mod Ratio
pub mod Lifecycle
pub mod Instance
pub mod Memory
pub mod Ledger
pub mod Registry
pub mod Router
pub mod Slots
pub mod Watchdog
pub mod Hostfile
pub mod Routing
pub mod Readiness
pub mod Recovery
pub mod Mtp
pub mod Serving
pub mod Agent
pub mod Supervisor
