-- ===== src/Lib.antt =====
-- ozone, a reverse HTTP proxy daemon in Go that is put together from a configuration file: HTTP
-- servers, each with a handler; handlers that are resolved by name and may refer to each other; the
-- reverse proxy handler with its chain of modules and a cache; TLS configuration with plugins; access
-- logs and request metrics.
--
-- The files and the code they model (paths from the repository's root):
--   Handler and its children: handler.go. The registry of handlers is the record HandlerRegistry, one
--     function by method; handler_by_name is handlerByName on fuel, and Handler/Termination says how
--     much is enough. Handler types and plugins are parameters: what they look up before they return
--     is data (Setup).
--   RequestMetrics: requestmetrics.go. A meter is data, and the samples it sends are a list.
--   Metrics: metrics.go, loadMetricsConfig, and Serve in Metrics/Serve by what the library is asked for.
--   Reaper: http.go, reaperConnStateCallback, over the changes of state that net/http documents.
--   Rproxymod: rproxymod/. The interface of a module is the record ProxyModule. Exchange holds the
--     incoming and the outgoing request, with one header map or, after EnsureWritableHeader, two.
--   Modules/SetHeader, Modules/ProxyPass, Modules/Directors: handlers/rproxy/module/.
--   Proxy/Hop and Proxy/Serve: handlers/rproxy/ozoneproxy.go, ServeHTTP, and the parts of
--     orig_reverseproxy.go that it uses. The transport is a function of the request.
--   Proxy/Copy: copyBuffer in orig_reverseproxy.go, for a list of reads; it runs to the first read with
--     an error, or to the end of the list, where the model is out of fuel.
--   Proxy/Flush: maxLatencyWriter there, and the goroutine that flushes the destination while the body
--     is copied, as turns of the two. Nothing in the repository switches it on.
--   Proxy/Cancel: the goroutine of ServeHTTP that waits for the client to leave, and the test for that
--     after a module, as steps; a client can leave once, at any time.
--   Proxy/Original: ServeHTTP in orig_reverseproxy.go, which that of ozoneproxy.go hides and is made
--     from, with its director as a function of the request and its headers.
--   Proxy/Build: handlers/rproxy/modules.go, and NewProxy and Deinit in ozoneproxy.go.
--   Proxy/Virtual: handlers/rproxy/vtransport.go, with the upstreams' library as a parameter.
--   Proxy/Full: NewProxy with the cache of Cache/New and the transport of Proxy/Virtual, as handler.go
--     calls it. Proxy/V2: v2/handlers/rproxy/, NewProxy, Deinit and initVirtualTransport, where they
--     differ from the first version.
--   Cache: handlers/rproxy/cache/ and rproxymod/cache.go. Cache/Ybc cuts GetAndStore into the sections
--     that no other goroutine interrupts; Cache/Ybc/Runs lets any number of goroutines interleave.
--   TlsConf and TlsConf/Ciphers: tlsconf/tls.go. TlsPlugins: server.go, from line 161 on.
--   Server and its children: server.go, up to line 159, and newHTTPServer in http.go. Server composes
--     Handler, AccessLog, Metrics and TlsPlugins; its fuel is one more than there are handlers.
--   Daemon and its children: main.go and proccmd.go. Daemon/Init has the options and what is set up once,
--     Daemon/Main what Main does with them, Daemon/Command the control command.
--   AccessLog and its children: accesslog.go. Calls of Close and of ToggleAccessLog are recorded in the
--     order in which they happen.
--   Http: what net/http and net do with headers and host names. Prelude: strings, association lists,
--     and the outcomes of calls: a return, a panic, or no fuel left.
--
-- How the parts interact: handler_by_name makes proxies, redirects and handlers of other types, and
-- wraps them in the meters of RequestMetrics; serve_chain runs the functions of the modules in order,
-- sends what they leave of the request, and runs them on the response in reverse order. Main makes the
-- servers by instantiate_servers, which looks up the handler of each, wraps it with its access log and
-- makes the server with its listeners and their TLS configurations.
--
-- Numbers are natural numbers; the 16-bit cipher codes are bounded as strconv.ParseUint bounds them,
-- and strconv.Atoi is bounded by 64 bits. A Go map is an association list, in the order in which a loop
-- visits it; theorems hold for each order.
--
-- Not modelled: the rest of the tree v2/, which is the text of the root packages; vendored libraries,
-- the daemon's among them; newSingleHostReverseProxy, which nothing calls; logging. Goroutines are modelled in the
-- cache, in Proxy/Flush and in Proxy/Cancel; elsewhere each modelled operation runs under one lock or
-- in one goroutine.
pub mod Prelude
pub mod Http
pub mod RequestMetrics
pub mod Rproxymod
pub mod Modules
pub mod Proxy
pub mod Handler
pub mod TlsConf
pub mod TlsPlugins
pub mod AccessLog
pub mod Metrics
pub mod Reaper
pub mod Cache
pub mod Server
pub mod Daemon
