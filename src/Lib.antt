-- ===== src/Lib.antt =====
-- A model of redins, an authoritative DNS server that reads its zones from redis: the handling of a
-- request (handler/*.go), in the language of the checker, with what makes it correct.
--
-- A request (Request, handler/handler.go HandleRequest) finds the zone of its name (Zones, FindZone
-- and LoadZones), the location of the name in the zone (Zone, handler/zone.go FindLocation), and
-- follows CNAME records until it answers for the type of the query at the final location (Reply)
-- with its records (Answers, A to TLSA, getTtl and split255). Addresses pass a pipeline of filters
-- (Filter, of the same name): the health check (Healthcheck, handler/healthcheck.go
-- FilterHealthcheck and getStatus), the geographical filters (GeoIp, handler/geoip.go), and the
-- order (Ips, OrderIps). ANAME records are resolved (Aname, FindANAME), CAA records are searched
-- upwards (Caa, FindCAA), and the sections are signed (Dnssec, handler/dnssec.go). Zones and
-- locations come from redis through a cache (Loading, LoadLocation; Keys, LoadZone and
-- LoadZoneKeys), and names outside of all zones from other servers (Upstream, handler/upstream.go).
-- The context of a request is made of the message (Incoming, handler/request.go). A rate limiter
-- stands before the handler (Limiter, handler/limiter.go; Program, redins.go handleRequest).
--
-- The process reads a configuration (Config, and Program.Running, redins.go LoadConfig, Start, Stop
-- and main over its signals), listens by it (Servers, handler/server.go), and can verify it
-- (Program.Verify, redins.go Verify). Beside the requests run the updater of the zones and the log
-- (Updater, handler/handler.go NewHandler; Logs, the entry of a request, its queue between
-- LogRequest, NewHandler and ShutDown, the Format of handler/logformat/logformat.go, and in
-- Logs.Handling HandleRequest with its log), the checks of the addresses (Healthcheck.Probe,
-- handler/healthcheck.go HandleHealthCheck and Start) and the transfer of the configured checks
-- into redis (Healthcheck.Transfer, Transfer). Their events are explicit: a list of signals, ticks
-- or messages in the order in which they are taken.
--
-- Prelude has the shared types and lemmas: Boolean tests, the 64-bit int of Go as an integer with
-- its wrap-around written out (int_add and the others), lists by native numbers, and strings as
-- lists of codes. Records has the types of handler/dns_types.go, Message those of the records of an
-- answer. A state is passed and returned; a panic and the end of a loop's fuel are `none`; an error
-- result is a value. Clocks are arguments.
--
-- What is outside of the repository is a parameter: the in-process cache (Cache.GoCache), the radix
-- tree (Zones.RadixTree), the record cache (Loading.Ristretto), redis and the json decoding, the
-- databases and the float arithmetic of the geographical filters (GeoIp.Floats), the exchange with
-- other servers, and of miekg/dns the parsing, dns.Fqdn and the cryptography (Reply.Signing); their
-- laws are the documented ones, and Tests has instances. Backend is the interface between
-- HandleRequest and the parts that keep a state, and Handler joins those parts, over one state,
-- into an instance of it; its keys for the signing are an argument, which the zone cache keeps too.
-- What can panic is `none`: a filter, the loading of a zone, the lookups of the source for the log, and
-- the assertions of sign on the type of a private key. Calm and Dnssec.Fitting.Fits say where these do
-- not happen, and Handler.Loaded.IsSane what redis and the configuration must have for it.
-- The servers of redis that the health check writes and reads are Healthcheck.Store.StatusServer
-- and Healthcheck.Transfer.ConfigServer.
--
-- Fuel: the loops of HandleRequest and FindANAME count their rounds, and the model counts the same
-- 11 down. FindLocation has the length of the query and FindCAA and split255 that of the text and
-- one, each with a proof that it is enough. The swaps of reverseZone have the length of the text.
-- Transfer, which never ends by itself, counts its rounds.
--
-- Not modelled: the sockets and their goroutines, the pools and locks, the writing of the log and
-- the accessors that capnp generates (handler/logformat/request.capnp.go), the construction of the
-- parts in NewHandler, and the tools. The waiting in ShutDown is only a part of each signal that
-- redins takes: whether it ends. The cached record whose ttl FindANAME overwrites is a copy here:
-- its ttl is read only after it is written again. FindCAA looks locations up in the zone of the
-- request, where the source takes the zone that the cached record was loaded for, which may be an
-- older version of it. The tree of zones is not replaced while a request is handled, and Transfer
-- and a check do not write one item at the same time.
pub mod Prelude
pub mod Cache
pub mod Limiter
pub mod Config
pub mod Servers
pub mod Records
pub mod Ips
pub mod GeoIp
pub mod Healthcheck
pub mod Zone
pub mod Tests
pub mod Message
pub mod Answers
pub mod Filter
pub mod Zones
pub mod Dnssec
pub mod Backend
pub mod Caa
pub mod Aname
pub mod Reply
pub mod Request
pub mod Upstream
pub mod Loading
pub mod Keys
pub mod Incoming
pub mod Logs
pub mod Updater
pub mod Handler
pub mod Program
