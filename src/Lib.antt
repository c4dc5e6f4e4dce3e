-- ===== src/Lib.antt =====
-- Proxy Sentinel is an HTTP gateway: it routes each request to one of several backends, records it, and
-- guards itself by tokens, IP lists and limits. This library models the way of a request through it, the
-- administration that changes its settings, tokens and users, and the tables behind them.
--
-- How the parts interact. The router (Api/Router) puts a middleware in front of each handler: the session of
-- the web interface, the role of an administrator, or, for the proxy, the gate (Api/Gate) of IP lists, bearer
-- tokens and rate limits. A request that gets in enters `serve` (Proxy/Handler), which is ServeHTTP: it
-- settles the ID of the request, asks the routing rules and then the balancer for a backend, decides what
-- becomes of the body, rewrites the path, sends the request on, relays the answer through the recorder, and
-- hands a record to the log, which masks its secrets and whose queue drops its oldest records when it is
-- full. A failed exchange goes back to the balancer as MarkDown, and so does a failed probe. The handlers of
-- the administration check a request, write the tables, change what is in force, and audit what they did;
-- the start of the program reads the same tables back.
--
-- Which file models what (paths of the repository):
--   Storage            the records of internal/storage/settings.go; Storage/Settings is its table
--   Storage/Tokens     internal/storage/auth.go: the table proxy_tokens and its migration
--   Storage/Users      the same file: the table users
--   Storage/Logs       internal/storage/logs.go, Storage/Audits internal/storage/audit.go, Storage/HealthLogs
--                      the log of probes in internal/storage/health.go, and Storage/Paging their pages
--   Proxy/Balancer     internal/proxy/balancer.go: dynamicBalancer; `next` is Next, `mark_down` and
--                      `mark_up` are MarkDown and MarkUp, `set_backends` and `set_strategy` the setters
--   Proxy/Balancer/*   its laws (Health, Weighted, RoundRobin, Choice), and Probe, the HealthChecker
--   Proxy/Rules        internal/proxy/rules.go: ValidateRules and Match
--   Proxy/Rewrite      internal/proxy/rewrite.go: ValidateRewrites and Apply
--   Proxy/Handler      internal/proxy/handler.go: ServeHTTP with Director, ErrorHandler and writeLog;
--                      Forward is about what a backend is told, Relaying about the answer and the log
--   Proxy/Request      the same file: the request, clientIP, remoteIP, appendXFF, scheme
--   Proxy/Recorder     the same file: responseRecorder
--   Proxy/RequestId    the same file: resolveRequestID
--   Proxy/Paths        the same file: joinURLPath
--   Proxy/Decode       the same file: decodeResponseBody
--   Ipacl              internal/ipacl/ipacl.go: Compile and Allowed; Ipacl/Parse is ParseConfig
--   Ratelimit          internal/ratelimit/ratelimit.go: the token buckets
--   Auth/WebAuth       internal/auth/web_auth.go: the middleware, userState and AdminOnly
--   Auth/ProxyAuth     internal/auth/proxy_auth.go: the middleware of the bearer tokens
--   Api/Router         internal/api/router.go: the routes and their middleware
--   Api/Gate           the chain in front of the proxy, with directIP of internal/api/ipacl.go
--   Api/Acl            internal/api/ipacl.go: loadIPACL, getIPACL and updateIPACL
--   Api/LoginLimiter   internal/api/auth.go: loginLimiter
--   Api/Login          the same file: the login handler
--   Api/Tokens         internal/api/tokens.go: its handlers and rateLimitMiddleware
--   Api/Users          internal/api/users.go: its handlers
--   Api/Settings       internal/api/settings.go: updateBackends
--   Api/Logs           internal/api/logs.go: listLogs, getLog and exportCSV
--   Api/Audits         internal/api/audit.go: listAudits, getAudit and exportAuditsCSV
--   Api/Maintenance    internal/api/maintenance.go: postMaintenancePurge; and startRetention's tick
--   Start              cmd/sentinel/main.go: bootstrap, and the settings that the program starts with
--   Logger             internal/logger/db.go: Writer; Logger/Mask is internal/logger/models.go
--   Alert              internal/alert/engine.go: the rounds of checks, fire and deliver;
--                      Alert/Stored its rules, with updateAlertConfig of internal/api/alert.go
--   Config             internal/config/config.go: validate
--   Net                what the program uses of net/http, net and net/netip: header maps, host and port,
--                      addresses and networks
--   Base               shared names, Boolean tests, lists, maps, tables, texts and numbers
--   Scenarios          tests, and the theorems at concrete inputs
--
-- How state and operations correspond. A struct is a record, a method a function from the state to the new
-- state. The mutexes of the program make each method of the balancer and of the limiters one atomic step,
-- so interleavings are sequences of calls. A database table is the list of its rows in the order of their
-- ids, a statement a function on it, and an error of a statement a Boolean that the caller of the model
-- chooses; SQL is read as SQLite reads it, where the dialects differ. A string is the list of its bytes, a
-- map an association list, a nil pointer or a second result `ok` an option. A 64-bit word keeps its
-- wrap-around where it can matter: in the round-robin counter, in the sum of the weights, whose overflow
-- makes rand.Intn panic, and in the offset of a page. Byte limits and times are natural numbers; the
-- configuration lets no negative one through.
--
-- What lies outside is an argument: the clock, random numbers, url.Parse, the decompressors, the parsers of
-- net/netip, float64 arithmetic, encoding/json, SHA-256, the operator LIKE, strings.ToLower, the choice of
-- a pattern by http.ServeMux, the calendar, the webhook, bcrypt and the JWT library, the response to a
-- probe, and the exchange with the backend. The exchange gets the request that Director has prepared and
-- answers with the codes of 1xx answers, which httputil.ReverseProxy passes on through the recorder, and
-- then with a response or an error. What ReverseProxy sends is not what Director leaves: it removes the
-- headers of the connection, also those that the client's header Connection names, and appends to
-- X-Forwarded-For; Proxy/Handler/Forward takes that for an argument and states what it relies on. An upgrade
-- of the protocol, and a body that breaks off while it is copied, are not among the answers. Proxy/Decode
-- alone has a strings.ToLower of its own, for the names of encodings and types, which changes ASCII letters.
--
-- Bounds and fuel. Formatting numbers takes fuel for the digits of a 64-bit word, 20 decimal or 16
-- hexadecimal ones; trimming space takes the length of the text. The masking of a field takes the length of
-- the text and one round more, since every round goes on nearer to its end. All other recursion is
-- structural.
--
-- Not modelled: the connections, the schema and the dialects of the database, its aggregations, YAML and
-- the environment, the live stream, handlers that only read statistics or settings, a write of the audit
-- log that fails, which nobody looks at, the signature of the webhook, timeouts, the background loops
-- around the ticks that are modelled, and two calls of a limiter whose reading of the clock and whose lock
-- come in opposite orders.
pub mod Alert
pub mod Api
pub mod Auth
pub mod Base
pub mod Config
pub mod Ipacl
pub mod Logger
pub mod Net
pub mod Proxy
pub mod Ratelimit
pub mod Scenarios
pub mod Start
pub mod Storage
