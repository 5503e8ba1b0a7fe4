-- ===== src/Lib.antt =====
-- The distributed actor framework: engines that run actors, a remote that carries messages between
-- engines, a cluster of nodes that finds and activates actors, and a trading system built on them.
--
-- An engine (actor/) keeps a registry of processes. A message to an actor goes into the actor's inbox,
-- which is a growing ring buffer (ringbuffer/); the process takes batches out of it, calls the receiver
-- and restarts it after a panic. A message to another address goes to the remote (remote/): a router
-- actor has one stream writer for each address, which encodes a batch of messages into an envelope, and
-- a stream reader at the other end gives the messages to its engine. A node of a cluster (cluster/) runs
-- an agent, which keeps the members and the activated actors, and a provider, which finds the members.
-- The trading actors (trading/) pass prices to strategies, their signals to a risk manager, and the
-- orders to an executor.
--
-- Each package is a module, and each component one of its children:
-- - Common: shared tests, lists, keys and association lists, which stand for Go's maps; Decimal and
--   HostPort are the functions of Go's strconv and net that the program calls.
-- - Ringbuffer: ringbuffer/ringbuffer.go. Fifo is the specification, Inv the well-formed rings, Window
--   and Refine the contents of a ring, Popped what Pop and PopN take, Run the refinement.
-- - Safemap: safemap/safemap.go, with Refine, which compares it with a function.
-- - Actor.Pid, Actor.PidSet: actor/pid.go and actor/pid_map.go.
-- - Actor.Messages: the messages of actor/types.go and actor/process.go.
-- - Actor.Process: actor/process.go. Its children are named for what they prove: Good and Fuel (it
--   ends), Effect, Ran and Batch (a batch that is handled), Announce, Restart, Recover and Crash (a crash
--   and the restart), Seen, Survived and Survive (any number of crashes), GiveUp (no restarts left),
--   Release, Ended, Poison and Lost (the cleanup, and pills); Life has the making of a process and its Shutdown, and Delivery composes a
--   process with its inbox.
-- - Actor.Context: actor/context.go.
-- - Actor.Inbox: actor/inbox.go, as steps of goroutines that interleave.
-- - Actor.Opts, Actor.Engine, Actor.EventStream: actor/opts.go; actor/engine.go with
--   actor/registry.go, actor/response.go and the events of actor/event.go; actor/event_stream.go.
--   Actor.Engine.Routing says where messages go, and Fresh what a new engine is. Actor.Response and
--   Actor.Repeater are the goroutines of actor/response.go and of the repeated messages of
--   actor/engine.go and actor/context.go; Actor.EventLog has the log lines of actor/event.go.
-- - Cluster.Member, Cluster.MemberSet, Cluster.Activation: cluster/util.go; cluster/member_set.go;
--   cluster/activation.go with cluster/kind.go.
-- - Cluster.Messages and Cluster.Agent: cluster/agent.go with cluster/event.go. The children of Agent
--   are Members, Activated, Kinds, Activate and Spread.
-- - Cluster.Provider, Cluster.Consul, Cluster.Client: cluster/selfmanaged.go, where Exchange has two
--   providers that meet, cluster/consul_provider.go and cluster/cluster.go.
-- - Remote.Serialize: remote/serialize.go and remote/protoreg.go.
-- - Remote.Intern and Remote.Writer: remote/stream_writer.go with the interfaces of
--   remote/serialize.go; Remote.Reader, Remote.Router, Remote.Node: remote/stream_reader.go,
--   remote/stream_router.go, remote/remote.go. Remote.Table, Encoded and RoundTrip relate the writer
--   to the reader; Remote.Node.Life follows a remote through its calls, and Remote.Across composes two
--   engines, the router, the writer and the reader.
-- - Trading.Messages, Trading.Risk, Trading.Orders, Trading.Market, Trading.Strategies, Trading.System:
--   the files of trading/ and trading/strategies/; Orders has the order manager, the executor and the
--   monitor, Market the market data, the tickers and the strategy actors. Trading.Flow follows a price
--   through the strategy actor, the risk manager, the order manager and the executor.
--
-- How the code is modelled. An operation that mutates a struct is a function from the struct's record to
-- a new one; a lock makes a method one step. A handler of an actor gives its new state and the list of
-- what it asks of the engine, in order. A nil pointer is an Option; a panic is a constructor, or none
-- where a comment says so. Receivers, middlewares, producers, serializers, hash functions, the network,
-- random numbers and the current time are arguments. Numbers are native; int32 and int64 keep their
-- widths where the code can reach them: the counters of restarts and the indices of an envelope wrap
-- at 2^32, and a ring does not grow past the int64 limit. float64 is a type with its operations and no
-- laws. A cleanup waits for each child that it poisons; whether a child ends, is not known any more or
-- never ends is an argument for each PID, and a wait that never ends is a result of its own. A Go map is an association list with distinct keys, and its order stands for any order of a range.
--
-- Fuel. The restarts of a process call one another: the fuel is more than the restarts that are left,
-- which is at most 2^32. Sending calls itself for dead letters: two calls are enough while the event
-- stream is registered.
--
-- Not modelled: the libraries of Consul, zeroconf, protobuf, DRPC and gostackparse, which are arguments
-- with what the code reads of their answers; the goroutines of servers; the exchange connections, which
-- are stubs in the source; an inbox that is stopped and started again; printing; and generated code.
pub mod Common
pub mod Ringbuffer
pub mod Safemap
pub mod Actor
pub mod Remote
pub mod Cluster
pub mod Trading
