-- ===== src/Lib.antt =====
-- mtg-multi: a Telegram proxy that serves several secrets. A client's connection passes admission
-- (blocklists, the pending-handshake limit), proves a secret in a fake TLS and an obfuscation
-- handshake, is checked against the limits of that secret, and is relayed to a data centre, directly
-- or, where an advertising tag applies, through Telegram's middle proxy. Counters of each secret feed
-- its quota and the throttle; a management API changes the set of secrets while streams run.
--
-- Prelude: shared names, Boolean tests, lists, signed integers, errors, exclusive or, texts (strings,
--   strconv, bufio.Scanner and net.SplitHostPort on ASCII), byte strings
--   (encoding/binary, io.ReadFull) and Go maps as association lists.
-- Middleproxy: mtglib/internal/middleproxy. Crc is hash/crc32, Tags is tags.go, Frame is frameConn
--   of frame.go (`write_packet`, `read_packet` over a wire with the bytes that will still arrive, the
--   bytes written and whether writes fail), Stream is stream.go (`write`, `read`, `build_proxy_req`),
--   Handshake is handshake.go and the key schedule of cipher.go, Cbc is cbcConn (`read`, `write`),
--   Exchange doHandshake, Manager manager.go: Manager.Config parses the published configuration,
--   `ensure_ready` and `tick` fetch, `dial_proxy_stream` dials.
-- Stats: mtglib/proxy_stats.go and counting_conn.go. One function for each method of ProxyStats;
--   Stats.Throttle is computeFairCaps, Stats.Usage the usage file, Stats.Quota the rollover.
-- Admission: mtglib/pending_handshakes.go, internal/logthrottle, internal/acceptretry and
--   mtglib/accept.go; Admission.Serve is the accept loop of proxy.go.
-- CircuitBreaker: network/circuit_breaker.go. `step` is one access of a dial or a timer callback to
--   the shared fields, `run` a sequence of them; a dial in flight is counted in `World`.
-- Tls: mtglib/internal/tls/utils.go and conn.go with records on (`write`, `read`).
-- Fake: mtglib/internal/tls/fake. Fake is the fragment reader and parseClientHello of utils.go,
--   Fake.Hello parseHandshake, parseSNI and ReadClientHelloMulti of client_side.go, Fake.ServerHello
--   SendServerHello of server_side.go.
-- Obfuscation: mtglib/obfuscation, the handshake frame, both ends of it and the conn around them.
-- Streams: ServeConn of mtglib/proxy.go and stream_context.go, over the modules above. `Answers` is
--   what the network answers one stream, `World` what streams share; `serve_body` is the body,
--   `run_deferred` its deferred calls; Streams.Telegram is doTelegramCall and
--   Streams.Addresses mtglib/internal/dc, which it takes as a parameter.
-- Secrets: mtglib/secret.go, secret_limits.go, the secretSet of proxy.go; Secrets.Swap is the
--   change of the set by ReloadSecrets and by the management API of proxy_api.go, and
--   Secrets.Swap.View the function from names to entries that a set stands for.
-- Options: mtglib/proxy_opts.go, New of mtglib/internal/dc/telegram.go and NewProxy: from the settings to
--   the state of a proxy that starts.
-- Api: the management API of mtglib/proxy_api.go, from a request (`serve_http`) to the change of the
--   set and the response; Api.Limits is the parsers of secret_limits.go.
-- Metrics: stats and events: `step` is the Prometheus observer, `emit` the statsd one, Metrics.Routing
--   the channels of the event stream, Metrics.Agreement the two observers side by side.
--
-- Integers: counters of 32 and 64 bits are bit patterns with the wrap written out. Instants and
-- durations are numbers of nanoseconds, 0 the zero time.
-- Fuel: `write_loop` takes the length of the buffer, since each round takes at least a length word;
-- Stream's `read_loop` takes the length of the input and one, since each round takes at least one
-- frame; Tls's `read_loop` takes the length of the input and one, since each round takes a record's
-- header; the reader of fragments takes the bytes that are asked for, and 12 rounds for fragments, since the
-- count of fragments stops it; the loops over extensions and names take the length of their buffer;
-- `fair_loop` takes the number of users, since each round but the last removes one.
-- Parameters: hex, base64 and JSON codecs, MD5, SHA-1, SHA-256, HMAC and the
-- key stream of AES-CTR, what rand.Read gives, sort.Strings, the calendar, and the clock.
-- What each is asked for is a hypothesis of the theorem that uses it.
-- A method that holds a mutex throughout is one step; ensureReady of the middle-proxy manager is its
-- look at Ready and, possibly after the steps of others, its fetch with startRefresh.
-- The values of a series are whole numbers, without the rounding of a float64 past 2^53.
-- Not modelled: sockets, AES and hashes, HTTP,
-- the relay's copying, traffic shaping, the other dialers, configuration and logging.
pub mod Prelude
pub mod Middleproxy
pub mod Stats
pub mod Admission
pub mod CircuitBreaker
pub mod Secrets
pub mod Tls
pub mod Fake
pub mod Obfuscation
pub mod Streams
pub mod Api
pub mod Metrics
pub mod Options
