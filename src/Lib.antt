-- ===== src/Lib.antt =====
-- A verification library for jkfr, a Go library for microservices: connection pools for rpc and grpc
-- servers, retries and load balancing on top of them.
--
-- Pool is gokit/transport/pool/pool.go and options.go, the pool of connections to one server. A client
-- is one connection slot (Pool/Client). The clients of a pool stand in slots, those that are connected
-- also in a map (Pool/Clients). A client whose connection has failed or has been idle for too long is
-- taken out of its slot and queued for closing (Pool/Recycle). Pool/Calls has the exported calls, and
-- Pool/Calls/Trace the histories of a pool, which are sequences of calls and goroutine steps.
--
-- Grpc is gokit/transport/pool/grpc/pools.go, the pools of several servers and the calls over them:
-- the list of pools with the map of addresses (Grpc), the choice of a pool (Grpc/Pick), the goroutine
-- that closes idle pools (Grpc/Idle), the calls with their retries (Grpc/Call), and NewGRPCPools
-- (Grpc/New). Grpc/Trace has the histories. Below it, a GRPCPool is a number: what opening it, a call
-- over it and IsConnected answer is an argument (Net), and the list `closed` says which have been
-- closed. A pointer to an stpool is a number that a store takes to its fields.
--
-- Rpc is gokit/transport/pool/rpc/pools.go, which is a copy of the grpc file but for the choice of a
-- pool (Rpc), the calls, in which a retry takes the next pool (Rpc/Call), and its constructor. Where
-- the code is the same, so are the definitions.
--
-- Retry is gokit/transport/retry.go: calls to the endpoints that a balancer picks, until one succeeds.
-- What each attempt comes to is an argument.
--
-- Balance is gokit/utils/lb/least.go: a balancer that offers the endpoint with the fewest running
-- calls. Its indices are int64, and a negative one panics; the drawn numbers and the source's list of
-- endpoints are arguments.
--
-- Codec is gokit/transport/pool/rpc/timeout_codec.go, the codec between net/rpc and the codec that
-- writes and reads: it keeps the requests that wait for a response and answers those that wait too
-- long. The goroutine that reads and those that write take turns by steps under mtReq (Codec/Sound),
-- of which the methods are sequences (Codec/Methods). Codec/Input has the loop of net/rpc that reads,
-- Codec/Waiting what the codec is without its list and pointers. net/rpc pushes no request under the
-- number of one that waits; that is a condition of the step.
--
-- Factory is the dialing of net/net.go and the factories over it in gokit/transport/pool/rpc/fatory.go
-- and grpc/fatory.go, which are what the clients of a Pool dial with (Factory/Contract). Single is the
-- calls of gokit/transport/pool/rpc/pool.go and grpc/pool.go over the Pool of one server.
--
-- HostAddr is ParseHostAddr and GetRandomHostAddr of net/net.go, over texts as lists of characters.
--
-- Registry is gokit/registry/option.go and registry.go, the settings of a registration with consul and
-- what is registered (Registry/Server). It reads addresses by HostAddr and variables by Environ, which
-- is os/env.go.
--
-- Middleware is gokit/transport/endpoint/endpoint.go: the composition of middlewares around an
-- endpoint, and the counters of the default ones.
--
-- ClientCache is the part of gokit/transport/rpc/client.go that keeps clients by name. GetRPCClient is
-- a sequence of steps of a goroutine, and the steps of any number of goroutines interleave. RpcClient
-- is the Call of such a client, over the endpoints of Middleware; its settings are
-- gokit/transport/rpc/client_option.go (RpcClient/Settings).
--
-- RpcServer is gokit/transport/rpc/server.go and server_fatory.go: a run of a server is the sequence of
-- what it does, from its settings (RpcServer/Settings, which is server_option.go) through the listener
-- and the registration of Registry to the serving and the deferred calls.
--
-- Collector is prometheus/utils/utils.go, the keys under which collectors are kept.
--
-- Pointers. A client is made by new_client alone, which gives it a tag that no other client has, so a
-- pointer to a client is its tag, and a heap takes tags to clients. A change of a client is a change
-- of the heap, seen through the slots, the map and the queue alike.
--
-- Surroundings. The factory that dials, the clock, the errors of closing a connection and the order of
-- `range` over a map are arguments (Env). Where a theorem needs that the factory returns either an
-- error or a connection, that is a hypothesis (IsFactory, Factories), which Factory/Contract shows of
-- the factories here; that `range` visits the keys of the map and nothing else is another (IsRange).
--
-- Concurrency. A pool has two models. In the first, a call or a round of a goroutine is one step, and
-- nothing comes between (Pool/Calls/Trace): what a call returns and what it changes is said there. In
-- the second, what runs under one lock is a step, and the steps of all goroutines mix, until Close
-- (Pool/Calls/Overlap): Connect and push are two steps, and the goroutine of the recycle list receives
-- in one step and takes clients out in others. GetRPCClient and the methods of the codec hold their
-- locks for parts only, and are several steps. A send to a channel that blocks and the goroutines' exit
-- signals are left out. The methods of the pools of several servers are steps under mtNew and mtPool.
-- What a server does in its run is in order, but the goroutine of do_register goes on by itself
-- (Registry/Server): a run only starts it.
--
-- Numbers. Capacities and durations are natural numbers, durations in nanoseconds. Products of setters
-- and settings are int64 that wrap: the retry interval, the idle time and the wait time. The use counter
-- is an integer without a bound, which it would take 2^63 calls to reach, and the index of round_get is
-- a uint64 that wraps.
--
-- Fuel. The loop that drains the recycle list runs on fuel, and one round more than the list has
-- clients is enough: each round removes a client. remove_idle_time_out runs on one round more than
-- there are pools: each round removes a pool or goes on to the next. call_with_func runs on 10 rounds,
-- the most that SetRetryTimes allows, and Retry on one round more than the limit, which makes at least
-- one attempt. The loop of net/rpc that reads is followed for one round more than there are requests,
-- and Itoa runs on one round more than the number.
--
-- Not modelled: logging, the generated protobuf code, the copies of go-kit's sd and of Go's math/rand,
-- the demos, and the code that only hands values to net/rpc, grpc, net/http, prometheus or consul. Of
-- the transport clients and servers, those of rpc are modelled: the cache of the clients, Call, the
-- settings, and the runs of a server.
pub mod Prelude
pub mod Balance
pub mod ClientCache
pub mod Codec
pub mod Collector
pub mod Environ
pub mod Factory
pub mod Grpc
pub mod HostAddr
pub mod Middleware
pub mod Pool
pub mod Registry
pub mod Retry
pub mod Rpc
pub mod RpcClient
pub mod RpcServer
pub mod Single
