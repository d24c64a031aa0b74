-- ===== src/Lib.antt =====
-- CLOSE generates network load with workers in containers and measures it. This library is a model
-- of its core with the theorems that make it correct.
--
-- The parts and their files:
-- * The control manager (control/manager.go, control/clients.go, control/worker.go) keeps the loaded
--   configuration and the maps of clients and workers, and starts, stops and cleans their containers:
--   Control/Types (its state), Control/Clients, Control/Workers and Control/Manager (one definition
--   for each method and for each turn of a loop), Control/Entries (the maps under these loops),
--   Control/Calls (the calls that cannot panic), Control/Keeps (one entry for each key) and
--   Control/Manager/History (sequences of operations); Control/Manager/Loading is about loadConfig,
--   and Control/Manager/Setup makes the manager and
--   starts it as cmd/control-web/main.go does.
-- * Package docker (docker/id.go, docker/config.go, docker/container.go, docker/manager.go) names,
--   configures, inspects, starts and stops one container: Docker/Id, Docker/Config, Docker/Container
--   and Docker/Manager; Docker/Cache is the cache of statuses (docker/cache.go), through which
--   Control/Clients/Status reads those of clients. The Docker client is the record Docker/Daemon: a
--   state and a function for each call, any of which may fail and may change the state in any way.
-- * Package udp is a worker: the sender (udp/send.go) takes ticks of the rate clock (udp/rate.go),
--   packs payloads (udp/payload.go) and sends them through a socket (udp/sock.go, udp/sock_udp.go,
--   udp/sock_syscall.go, udp/sock_ip.go, udp/packet.go); the receiver (udp/recv.go) counts them by
--   sender. Udp/Setup (addresses, socket and ID of a sender), Udp/Port (udp/port.go), Udp/Send,
--   Udp/Rate, Udp/Payload, Udp/Sock and Udp/Recv; Udp/Measure puts sender, network and receiver
--   together. Goroutines and select loops are step functions on events, and a run is a list of events
--   in any order, so that a theorem on all lists is one on all orders of these steps. A step
--   is a stretch of one goroutine, such as a send or what follows it; that two goroutines change one
--   variable at the same moment is not modelled.
-- * Package config: Config/Id (config/id.go), the identities under which workers are configured, and
--   Config/Sub (config/sub.go), the registration of a configuration in Redis, whose client is a record,
--   and Config/Sub/Alone, the one of workers that take no pushes;
--   Config/Redis (config/redis.go) reads and lists what is registered; Config/Push (config/config.go),
--   pushes to a worker and its answers, of which Udp/Send/Registration and Worker/Dummy/Registration
--   are two; Config/Url (config/url.go, stats/influxdb.go), the URLs of Redis and InfluxDB.
-- * Package stats (stats/influxdb.go, stats/reader.go, stats/writer.go, stats/stats.go): Stats/Influx,
--   the client of InfluxDB as a record and the queries, Stats/Series and Stats/Reader, the decoding of
--   their answers, and Stats/Writer, the points that workers write, at the pace of
--   Stats/Writer/Pacing.
-- * The statuses of workers (control/worker.go): Control/Workers/Cache, which asks the containers'
--   cache, Redis and InfluxDB, and Control/Workers/Status. Control/Configs (control/config.go) lists,
--   reads and pushes configurations, Control/Auth (control/auth.go) is the test of passwords, and
--   Control/Web (control/web.go) the handlers over all of these, as functions to their responses.
-- * Package logs (logs/logs.go, logs/follower.go, logs/writer.go, logs/msg.go): Logs/Distribution, the
--   goroutine that sends lines to followers, Logs/Follower, the buffer of one, and Logs/Message.
-- * Package icmp (icmp/conn.go, icmp/ping.go): Icmp/Conn and Icmp/Ping, a worker that matches the
--   responses to its requests, and Icmp/Ping/Receiver, its other goroutine.
-- * Polls is the loop that the workers of dns/worker.go and http/worker.go share, Polls/Dns and
--   Polls/Http are the two. Docker/Info (docker/info.go) reads the text that a swarm gives of its nodes, and
--   Docker/Info/Reading (docker/logs.go) has the calls for information and logs.
-- * Package worker (worker/main.go, worker/worker.go): Worker/Main, the choice and the start of a
--   worker; Worker/Dummy (cmd/close-worker/dummy.go), the smallest one.
-- * The shell (shell/shell.go, shell/config, shell/command): Shell/Commands, the registration and the
--   choice of commands and their requests, and Shell/Path (util/strings.go), the paths of these.
-- * Package util (util/stringset.go): Util/StringSet, sorted lists of texts with repetitions, used for
--   environments and constraints.
-- * Prelude and its modules are shared: tests, lists, maps with text keys, texts in their order,
--   machine words (`u64`, `sub64`: uint, uint64 and time.Duration wrap around at 2 ^ 64), results, and
--   actions on a state that end in a value, an error or a panic.
--
-- Names are those of the source in another spelling: `handlePacket` is `handle_packet`. A method
-- that changes its receiver returns the changed record; an error is a `Result` or an outcome; what Go
-- panics on is the outcome `panicked`. A range over a map goes over the entries of an association list
-- in their order, which stands for any order. An object that Go compares by address carries a number
-- as its address. There is no fuel: every loop of the model runs over a list or over a count.
--
-- Parameters: the Docker daemon, the clients of Redis and InfluxDB, floating point numbers, the
-- regular expression on container statuses, the HTTP client, decoding of JSON, TOML and URLs,
-- `fmt.Sprintf` with a configured format, the answers of the kernel to writes and reads, addresses and
-- name resolution,
-- hashes, random numbers, and the time, which events carry.
--
-- Not modelled: connections, the parsing of flags, log output and text for display; floating point
-- ratios; the handlers, routes and encoding of the web server that Control/Web has not, and its
-- start; what the shell does by reflection; websockets.
mod Prelude
pub mod Util
pub mod Config
pub mod Docker
pub mod Control
pub mod Udp
pub mod Worker
pub mod Logs
pub mod Icmp
pub mod Stats
pub mod Polls
pub mod Shell
