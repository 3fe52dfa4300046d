-- ===== src/Lib.antt =====
-- A model of SkyWalking Satellite, the agent that collects observability data of the SkyWalking
-- agents and forwards it. An event comes in at a receiver or a fetcher, waits in a queue, passes
-- the processor and is sent by the sender, which then acknowledges its offset to the queue.
--
-- Base: the names that all modules share: native numbers, lists with native indices, Boolean tests,
--   updates of a function at one place, integers.
-- Mmap: the persistent queue of plugins/queue/mmap.
--   Mmap.File is the memory-mapped file of a third-party package and the system calls, both
--   parameters; Mmap.Ram is an instance that shows that what is assumed of them can hold.
--   Mmap.Meta is meta/meta.go. Mmap.State is the state of queue.go with queue_lock.go, and
--   Mmap.Outcome what a call comes to: a value, an error, or a wait without end (spin).
--   Mmap.Segments is segment_operation.go, Mmap.Operation is queue_operation.go with isEmpty and
--   IsFull, Mmap.Offset the text form of an offset, Mmap.Service the rest of queue.go.
--   Position, Linear, Layout, Bytes, Kept, Quiet, Access, Write, Length, Read carry the proofs;
--   Fifo has the contract of the queue, and History its runs under interleaving.
--   The files keep their bytes while they are not mapped, since the mapping is shared and the file
--   system keeps what was flushed; a crash that loses bytes written and not flushed is not modelled.
--   An operation of the queue runs to its end before the next begins: the code has one producer
--   and one consumer per partition, and a lock per segment. The loop of doSwap runs on fuel, and out
--   of fuel the call is still waiting; the theorems hold for every fuel. The rounds of writeBytes
--   and readBytes are bounded by the length plus one, which is enough since each round but the last
--   moves at least one byte. A statement `Ensures Fail P` says that a call that returns a value has
--   `P`, and that otherwise `Fail` holds: with the empty type for `Fail` the call returns.
-- Queues: plugins/queue/api, memory, none and partition, and the types of
--   internal/satellite/event. A queue is a record of operations, QueueOps, and the partitioned queue
--   works over any of them.
-- Gatherer: the routines of internal/satellite/module/gatherer over the partitioned queue, with their
--   counters. Gatherer.Conserve weighs the events over what any queue promises (Counting, in
--   Gatherer.Weights), and Gatherer.Memory shows it of the memory queue.
-- Sender: internal/satellite/module/buffer/buffer.go (Buffer), the routines store and listen (Store)
--   and the functions consume (Consume, with its counters in Counted), SyncInvoke (Sync) and Shutdown (Shutdown) of
--   internal/satellite/module/sender/sender.go, and the fallbackers of plugins/fallbacker (Fallback).
--   Forwarders, fallbackers and the gatherer are parameters that act on a world.
-- Server: plugins/server/grpc/server_limiter.go and server_connections.go, the limit on connections,
--   with the atomic steps of any number of routines that accept, and close any number of times.
-- Client: plugins/client/grpc/lb, the choice of a connection.
-- Sharing: internal/satellite/sharing/sharing_plugins.go, the phases of the shared plugins.
-- Processor: internal/satellite/module/processor/processor.go, the way of the events of a partition
--   through the filters to the sender.
-- Pipe: a partition of a pipe from the processor to the batches of the sender, which the routine flush
--   of sender.go consumes, put together; Ends are the offsets that are acknowledged.
-- Registry: internal/pkg/plugin/registry.go, the plugins by category and name.
-- Boot: internal/satellite/boot/boot.go, the start with its early returns (Phases: how it ends). The
--   modules and the calls of other packages are records of functions on a world.
-- Telemetry: internal/satellite/telemetry. Center is telemetry.go, the choice of the exporters (Init).
--   Of metricservice, Labels and Vector are base.go and counter.go, a metric with a cell for every
--   combination of label values, over any hash and any numbers; Server is the registration of
--   counters, gauges and timers, Sending the round that writes and sends them. Inline, Pointer,
--   Totals, Appended and Timers are the theorems. A sub metric is a pointer, the number of a cell.
-- Receivers: plugins/receiver/grpc. Collect is nativemeter and nativelog, Als is envoyalsv2 with the
--   limiter of internal/satellite/module/buffer/limitor.go, whose flush may come at any time (Taken is what the stream takes in);
--   Limiter is the handshake of the receiver with the limiter, in numbers of messages, with the
--   sending of a message and the check behind it as two steps.
-- Forwarders: plugins/forwarder/grpc: nativelog (Log), nativeevent (Event) and nativemeter (Meter) over
--   Net, the streams of a client of which any call may fail: `fate` is an arbitrary choice.
--   A failing CloseSend ends a stream, as the client documents it, and so does the answer of RecvMsg;
--   nativemanagement (Management) and otlpmetricsv1 (Otlp) with calls that are no streams.
-- Config: internal/satellite/config/override_by_env.go, values replaced by environment variables. The
--   match of the regular expression, the environment and the parsing of a value are arguments.
--   Common is loader.go, the common fields of a pipe on their way to its plugins, up to the end of
--   Initializing in internal/pkg/plugin/registry.go; Queues.Partition.Initialize goes on from there, with
--   the panics of plugin.Get; what viper makes of a configuration is an argument.
-- Resolvers: plugins/client/grpc/resolvers, the targets of the gRPC client and the static addresses;
--   Kinds are the analyzers of what Kubernetes reports, Watch is the cache of kubernetes_kinds.go.
--
-- Integers: segment identifiers, offsets and lengths are int64 or int and never negative here; the
-- conversions of the metadata file are written out, and the theorems name the bounds under which no
-- value reaches 2 ^ 63. Counters of connections and partitions are int32 and stay far below.
--
-- Not modelled: the Prometheus and pprof exporters, the reading of the configuration file, the
-- discovery in Kubernetes, and the receivers and forwarders that only pass one message on to a
-- generated gRPC client or into an event; the documentation generator under internal/satellite/tools.
pub mod Base
pub mod Boot
pub mod Client
pub mod Config
pub mod Forwarders
pub mod Gatherer
pub mod Mmap
pub mod Pipe
pub mod Processor
pub mod Queues
pub mod Receivers
pub mod Registry
pub mod Resolvers
pub mod Sender
pub mod Server
pub mod Sharing
pub mod Telemetry
