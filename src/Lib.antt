-- ===== src/Lib.antt =====
-- SentryDNS: a DNS forwarder that sends a query to an Iranian or to a global upstream, learns which
-- domains have Iranian addresses, and caches the answers.
--
-- The parts of the program and the files that model them:
--   Breaker      the circuit breaker of internal/resolver/resolver.go: recordFailure, recordSuccess,
--                isOpen, tryProbe, and the gauges that onStateChange writes; Threads has the same
--                methods as goroutines that take one atomic operation at a time
--   Domain       normalize of internal/store/store.go and the walk over a name's suffixes, which the
--                store and the resolver share
--   Dns, Netip   what the program uses of github.com/miekg/dns and of Go's net/netip
--   Cache        internal/cache/cache.go: Get, Set, evictOne, makeKey, responseMinTTL, the sweep
--   LearnedFile  the text format of the learned file, from load, writeAll and flushPersist of
--                internal/store/store.go
--   StateFile    internal/state/state.go: Load, Save and Update
--   Store        internal/store/store.go: the learned domains in memory, in the buffer and on disk;
--                Workers has the goroutines of cleanup and its channel, turn by turn, and Loops the
--                goroutines of persistFlusher and StartCleanup
--   Classifier   internal/classifier/classifier.go: New, IsIran and Reload
--   Base         lists, maps as association lists, byte strings, 32-bit and 64-bit counters, and in Float
--                the rounding of float64
--   Resolver     internal/resolver/resolver.go: Filter (isIranTLD, isPreferIran, isHijacked, extractIPs,
--                the static records), Query (query, queryIranDNS), Learning (resolveWithLearning),
--                Route (resolve), Handle (Resolve, ValidateDomain, IranDNSHealthy), Setup (New)
--                Proofs: Steps, Hijack, Cached, Answered, Clean, Stored, Keeps,
--                Learned, Replies, Untouched, Balance
--   RateLimit    internal/ratelimit: the token bucket of global.go, the windows of ratelimit.go
--                Proofs: Bucket, Window, Sweep
--   Config       internal/config/config.go: the defaults, Load and Validate; Ttl has the conversion of
--                the times to live in cmd/sentrydns/main.go
--   Server       cmd/sentrydns/main.go: the handler of a query with its guards, the setup from the
--                configuration; Schedule has parseCleanupSchedule. It calls Resolver and RateLimit
--                Guards has a series of queries. Proofs: Serve, Safety, Restart, Hijack
--   Main         cmd/sentrydns/main.go as a whole: Start has main up to the state in which it serves, with
--                each early exit, Life what its goroutines do then and the shutdown. It calls all parts
--                Proofs: Started, Known, Counts, Bounds, Clean
--   Logger       internal/logger/logger.go: New with the level and the outputs, and the log file
--   Updater      internal/updater/updater.go: update and what it calls; it replaces the file of the
--                Classifier and writes the StateFile
--   Metrics      internal/metrics/metrics.go: RestoreFromFile, the reset at midnight, Uptime;
--                Endpoints is server.go and Prometheus is prometheus.go. It reads what Store writes
--                into the StateFile
--
-- State and operations. A struct is a record with the fields that the code reads or writes, a map is
-- an association list without order, and a method is a function to the new record and its result. A
-- clock reading, the order of a `range` over a map and the outcome of a system call are arguments.
-- The disk is a field of the store. An operation that the source runs under one lock is one step; the
-- two locks of flushPersist are two functions, but no other call comes between them, and a write of its
-- lines does not fail once the file is open. The store calls StateFile for the counters it saves.
-- The server runs the resolver behind the rate limits; its state holds theirs. Where goroutines
-- interleave, a schedule is a list of steps, and each theorem holds of every list.
--
-- Numbers. Counters of type int32 and int64 wrap in Base.Words, a time is a number of nanoseconds
-- (of seconds in the state file and the metrics), the integers of the configuration are those of
-- Base.Int, and a time to live is a number below 2 ^ 32. The numbers of the state file, of learned domains
-- among others, are natural numbers. The float64 values of the token bucket are whole numbers of 2 ^ -82,
-- rounded to 53 bits after every operation; the float of the configuration is a whole number of
-- nanoseconds, and a negative duration counts as 0. Byte strings are lists of numbers.
--
-- Fuel. Of the code's loops only the walk over a name's suffixes needs fuel: each round cuts the name at
-- a dot, so that a name of n bytes takes at most n + 1 rounds, and that is the fuel given. The
-- rounding halves a number at most 128 times, which is enough below 2 ^ 181. The schedule that ends a
-- cleanup has as many turns as Store.Workers.Ends says.
--
-- Parameters. encoding/json, yaml, net/http, the text formats of net, net/netip, fmt and time, and what
-- the miekg/dns package computes are records of functions; a law that a theorem needs of them is a
-- named hypothesis.
--
-- Not modelled: the calls of the logger, which only write; in cmd/sentrydns/main.go the flags, the
-- network servers and the signals; the JSON encoder and the HTTP server of the metrics. In Main one call
-- of a goroutine follows the other; what goroutines do inside the calls of the breaker and of the
-- cleanup is in Breaker.Threads and Store.Workers. The goroutines of resolveWithLearning run one after
-- the other where they are started; the order in which their replies arrive is arbitrary. A call in
-- flight for the same key is represented by the result that it shares. Methods that only close the
-- channel of a goroutine (Stop of the cache, the limiter, the updater and the metrics) have no
-- definition.
pub mod Base
pub mod Breaker
pub mod Domain
pub mod Dns
pub mod Cache
pub mod LearnedFile
pub mod StateFile
pub mod Store
pub mod Netip
pub mod Classifier
pub mod Logger
pub mod Resolver
pub mod RateLimit
pub mod Config
pub mod Server
pub mod Updater
pub mod Metrics
pub mod Main
