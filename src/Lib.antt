-- ===== src/Lib.antt =====
-- gateway-core is an API gateway: a request passes the middleware (identifiers, limits of size and rate,
-- authentication), the router finds the route with the longest matching prefix, and the proxy asks the
-- circuit breaker of the backend for leave, retries, and tells it the outcomes. Beside the requests, an
-- envelope decides on proposals of agents to change limits, weights and cache times. This library
-- models the parts that keep state or decide, from the Go sources:
--
-- * CircuitBreaker (internal/circuitbreaker). FailureRate has the failure-rate breaker with its ring
--   buffer; Layers the adaptive, timeout and bulkhead decorators as a data type of stacks, of which
--   every layer shares the breaker at the bottom; Composite the stack that NewComposite builds, its
--   operations, and UpdateConfig. Composite/System is the gateway's use of a stack: a step relation of
--   requests that are admitted, end and release their slot, and of reloads. Spec is an abstract
--   breaker that keeps a list of outcomes and no ring buffer; Refinement relates the two. A method of
--   the source holds the mutex throughout, so that a run is a sequence of calls.
-- * Config (internal/config). Types has the records of the configuration; Durations the timeouts of a
--   route and of the server; Defaults is applyDefaults; Validate is validate, a function to the first
--   fault, with the sections and the routes proved in modules below it; Load is the pipeline of load,
--   with the environment, the YAML decoder and the parsers of net and net/url as parameters. Reload is
--   the reloader with its observers and callbacks as parameters; swap_in and settle are its two halves.
--   Watch is the loop over the events of the file with its debounce timer, the handler of SIGHUP and
--   Stop, as a step relation.
-- * Routing (internal/routing/match.go, matchRoute of internal/proxy/proxy.go): MatchesPrefix and the
--   choice among routes that are sorted by length.
-- * RateLimit (internal/ratelimit): limitsForPath, which scans the unsorted routes, and clientIP, with
--   the parsers and the containment test of package net as parameters. Table has the clients with their
--   token buckets, known by their addresses, and the janitor's evictions, in batches in Table/Evict:
--   its fuel is the number of keys, and a theorem there shows that it is enough. getLimiter stands by its
--   locked sections: in Table/Sections and Table/Idle other calls, and in the latter evictions, come
--   between them, while Limiter runs them in a row. Limiter has New, UpdateConfig and the middleware.
--   Whether a token bucket lets a request through is a parameter.
-- * Auth (internal/auth, routeRequiresAuth of internal/gateway): the middleware, with jwt.Parse as a
--   parameter that is given the key function and the options of the code.
-- * Envelope (internal/envelope): Proposal and Values have the dynamically typed values; Constraints,
--   Bounds, Dampener and Shadow the stages, each with a module of its theorems below it; Submit puts
--   them in a row. Agent is the pipeline of a planner and its reviewers that makes proposals. What an
--   agent or a simulator returns is a field, which for an agent depends on the run, and the clock and the state of the context are read
--   through arguments.
-- * Http (net/http, and internal/apierror in Http/Errors). Headers, requests and response writers as
--   the gateway uses them, after the documentation of net/http: the calls of a handler on its writer
--   are values, and Client is the server's own writer. Errors is WriteJSON.
-- * Proxy (internal/proxy). Writers has the latency writer, the recorder and the buffer; Router is New
--   with backendKey and buildTransport; Attempts the loop of ServeHTTP over the attempts of a request,
--   Serve the rest of ServeHTTP with the breakers. An attempt's outcome (a response, an error or a
--   panic) comes from a World, which stands for net/http/httputil, the backends, the clock and the
--   context. The events of a request are its attempts, its pauses and its metrics. A release that
--   blocks has no result. Beside these stand the theorems: Serve/Breakers, Serve/Protocol,
--   Serve/Retries, Serve/Backoff, Writers/Replay and Router/Resolve.
-- * Middleware (internal/middleware). Request identifiers, security headers, CORS, the body limit,
--   and Recovery as functions of handlers; Deadline as a step relation of the handler's goroutine,
--   which may panic, and the deadline, which write to one client. Stack is the whole stack, Logging
--   included, with the order of the calls that a run of Deadline makes as a parameter. Logging has the
--   redaction of sensitive fields, whose regular expression is a matcher of bytes, with what is proved of it in
--   Logging/Matching and Logging/Redact; Logging/Record the recorders, the capture of bodies and
--   Logging itself, around a handler that is given the body of its request; Logging/Capture its theorems.
-- * Gateway (internal/gateway). NewGateway as far as it makes breakers, router and limiter, with the
--   places where it can fail: whether the collectors of the metrics register, the mux takes the
--   endpoints and the certificate loads is a parameter (Surroundings). The log level of a path, the paths that bypass the router, and OnReload. Serving and Loaded put the parts
--   together, from the bytes of a file to the requests that are served.
-- * Admin (internal/admin). The allowlist, the three endpoints, the redaction of the configuration and
--   the pages of the limiters, with the numbers that are read from a query.
-- * LogWriter (internal/logging). The rotating log file on a directory that is a list of files under
--   their names; which calls of package os fail is a parameter of each operation. Sorted has
--   the order of their names; Rotation, Cleanup and Exact have the theorems.
-- * TlsUtil (internal/tlsutil). The certificate loader, and its loop, reloads and files as a step
--   relation; what `tls.LoadX509KeyPair` gives for the contents of the files is a parameter. Served has
--   the theorem.
-- * Health (internal/health). Liveness, and readiness with its probes, which ask the breakers of the
--   proxy, and its cache.
-- * Base has Boolean tests, lists, Go's int64 with its wrap-around over the native numbers, strings as
--   lists of bytes, and float64 as a type with operations and no laws (Base/Float): a theorem that
--   needs a law of floats takes it as a hypothesis. The examples at concrete inputs, in the modules
--   named Tests, instantiate floats with thousandths.
--
-- Durations and times are nanoseconds. Times of the circuit breaker, of the table of limiters and
-- of requests are natural numbers and do not overflow; `time.Sub` of the envelope saturates, and
-- its differences of values wrap around, as do timeouts and pauses. Every function is structurally
-- recursive, with fuel only for the batches of evictions: the loop over attempts recurses on those
-- that are left. White space and the folding of case are those of ASCII. A map is the list of its
-- entries.
--
-- Not modelled: log lines but those of requests, and the texts of errors, which no state depends on;
-- input and output (the network, YAML, the parsing of certificates); and the metrics but for
-- those of the proxy, which only call the Prometheus library.
pub mod Base
pub mod CircuitBreaker
pub mod Config
pub mod Routing
pub mod RateLimit
pub mod Envelope
pub mod Auth
pub mod Http
pub mod Proxy
pub mod Middleware
pub mod Gateway
pub mod Health
pub mod Admin
pub mod LogWriter
pub mod TlsUtil
