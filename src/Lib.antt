-- ===== src/Lib.antt =====
-- Soil: a Go code base with an HTTP server, an ORM, caches and two RPC stacks. This library models
-- its logic and states what makes it correct.
--
-- The parts and their files:
-- Base holds what all share: Boolean tests on numbers, lists measured by native numbers, Go strings
-- as lists of bytes with the functions of packages strings and encoding/binary that the program
-- calls, and big-endian numbers.
-- Route is web/route.go, the route trees of the HTTP server. Node has the nodes and childOrCreate,
-- Insert has addRoute, Find has findRoute; panics are results, with what they leave in the trees.
-- The trees have no cycles and every node one parent, so pointers are positions. Package regexp and
-- the handlers are parameters. A map that is ranged over is a list in the order of the walk.
-- Route.Group is web/group.go: prefixes and middlewares of nested groups, over addRoute.
-- Net.Frame is micro/net/frame.go with writeFull of micro/net/common.go. A stream is the list of the
-- bytes still to come; an io.Writer is a parameter with its contract. The loop of writeFull has the
-- length of the data for fuel, since each round that goes on has sent a byte at least.
-- Net.Balancer is micro/net/balancer.go: the four pickers of the client. Candidates are of any type,
-- random numbers an argument. Net.Endpoint is micro/net/endpoint.go: parsing, merging and resolving
-- endpoint lists, and the health of a node; Atoi, SplitHostPort and the resolver are parameters.
-- Net.Streams is micro/net/pool.go, the pool of multiplexed streams: turns of Get, the end of a dial,
-- maintain, pings and Close; Steps has them in any order. What a stream says of itself is an argument.
-- Net.Calls is micro/net/stream.go: the channels of the calls that share one connection, and what the
-- reading goroutine and failures send to them; Matching has their steps in any order.
-- Net.Client is micro/net/client.go: the pick of a node, what a call notes about its health, and the
-- loop of attempts, which recurses on the attempts that may follow.
-- Pool is micro/pool/pool.go. Each function is what one call does while it holds the mutex, and
-- leaves a task for what the call does without it; Steps has the steps of calls that run side by
-- side, in any order. Dials and pings succeed or fail as an argument says. The pool's sync.Pool may hand
-- out any object that is not active; clients use no connection that they have given back.
-- Message is micro/rpc/message: Request and Response, their lengths and their codecs, with a panic
-- of the code as none. The loop over the pairs of a request has the length of the header for fuel,
-- since each round takes a byte at least.
-- LoadBalance has the gRPC pickers of micro/loadBalance and micro/route: random, round robin with and
-- without a filter, least active, and the smooth and the random weights, on uint32s written out.
-- Mutexes matter to the smooth weights only, where an early return keeps one.
-- Cache is cache/localCache.go: the list with its tail first, the map and the size, with a nil pointer
-- as a result. The sizes of values, which size.go finds by reflection, are arguments.
-- Orm is orm. Builder has the text and arguments that a builder gathers, as steps with errors;
-- Expression is builder.go with the types of column.go, aggregate.go, expression.go, predicate.go and
-- table.go; Select, Insert (with dialect.go), Update and Delete are the statements, Exec is what is
-- done with them and DoTx of db.go. Registry is internal/model/registry.go: tags, names and models
-- from what reflection says of a struct. To the statements the registry is a parameter, like package
-- valuer, the hooks and package database/sql. splitChunk has the number of rows for fuel, since each
-- round takes a row at least.
-- Web is web: Exchange says what net/http does with headers and writes of a response; Context and
-- Server are context.go and server.go over findRoute, with a handler as a function on contexts that
-- may panic and has ended its work when it returns, and the pool of contexts as a context that any
-- earlier request may have left;
-- Middlewares is errhdl, requestid, bodysize, timeout and recovery of web/middleware, Cors is cors,
-- RateLimit is ratelimit. Tokens are counted in parts, so that no floats are needed, and the clock is
-- read once for each request.
-- Net.Server is micro/net/server.go with handler.go: steps of the goroutines of connections and
-- requests on shared counters, in any order. Net.Options is options.go with the defaults.
-- Cache.Lock is cache/redis_lock.go with the scripts of cache/lua and retry.go. Redis is a parameter,
-- and no time passes; the retry loop has as fuel one round more than the strategy has retries left,
-- which is enough.
-- Rpc is micro/rpc with common.go, server.go and client.go: what Read gives is a list of segments,
-- services, serializers and compressors are parameters. A connection is read by one goroutine only,
-- whose loop has one round more than the connection has bytes and pieces for fuel.
--
-- Not modelled: reflection, SQL drivers, Redis, etcd, gRPC and net/http, which the code only calls;
-- generated code; logging and metrics. Lengths are below the machine limits unless a definition
-- writes the wrap-around out.
pub mod Base
pub mod Cache
pub mod Route
pub mod Rpc
pub mod Web
pub mod Net
pub mod Pool
pub mod Message
pub mod LoadBalance
pub mod Orm
