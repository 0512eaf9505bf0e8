-- ===== src/Modules/Directors/HostSuffix.antt =====
-- The host, the port and the scheme that host_suffix_director sets, and what a failed look-up does.
use ozone.Prelude.{
  String, ◌≡◌, refl, ap, ◌∙◌, Bool, true, false, none, some, List, ◌∷◌, if◌then◌else◌,
}
use ozone.Prelude.Text.{append}
use ozone.Prelude.Outcome.{returns}
use ozone.Http.Header.{Header}
use ozone.Http.HostPort.{contains, split_host_port}
use ozone.Http.HostPort.RoundTrip.{
  plain-split, bracketed-split, split_host_port-join_host_port, split_host_port-none,
  split_host_port-brackets,
}
use ozone.Rproxymod.{Exchange, ProxyModule}
use ozone.Proxy.Serve.{Env, serve_chain, run_modules, send_error_response}
use ozone.Modules.Directors.{
  Resolved, unresolved, resolved, HostSuffixConfig, host_or_all, to_resolved, set_target,
  host_suffix_process, host_suffix_module,
}
use ozone.Modules.Directors.HostPort.{
  HostForm, name, name_with_port, address, address_with_port, host_text, IsHost, IsBare, IsPlain,
  part_of,
}

-- The port of the host, or else the given one.
abbrev pub port_of : HostForm → String → String
port_of (name h) port = port
port_of (name_with_port h old) port = old
port_of (address h) port = port
port_of (address_with_port h old) port = old

abbrev pub own_port : Bool → String
own_port tls = if tls then "443" else "80"

abbrev pub own_scheme : Bool → String
own_scheme tls = if tls then "https" else "http"

-- The host with the suffix, or its canonical name.
abbrev pub resolve : (String → Resolved) → HostSuffixConfig → String → Resolved
resolve lookup_cname cfg host =
    if cfg.via_cname
    then lookup_cname (append host cfg.suffix)
    else resolved (append host cfg.suffix)

abbrev pub host_in : Resolved → String
host_in (unresolved e) = ""
host_in (resolved host) = host

host_or_all-form :
    (f : HostForm) (port : String)
    → IsHost f
    → host_or_all (split_host_port (host_text f)) (host_text f) port ≡ (part_of f, port_of f port)
unfolding host_text
host_or_all-form (name h) port (h0, (h1, h2)) = rw (split_host_port-none h h0 h1) refl
host_or_all-form (name_with_port h old) port ((h0, (h1, h2)), (p0, (p1, p2))) =
    rw (plain-split h old h0 h1 h2 p0 p1 p2) refl
host_or_all-form (address h) port (h0, (h1, h2)) = rw (split_host_port-brackets h h2) refl
host_or_all-form (address_with_port h old) port ((h0, (h1, h2)), (p0, (p1, p2))) =
    rw (bracketed-split h old h2 h1 p0 p1 p2) refl

own_port-IsPlain : (tls : Bool) → IsPlain (own_port tls)
unfolding contains
own_port-IsPlain true = (refl, (refl, refl))
own_port-IsPlain false = (refl, (refl, refl))

port_of-IsPlain : (f : HostForm) (tls : Bool) → IsHost f → IsPlain (port_of f (own_port tls))
port_of-IsPlain (name h) tls good = own_port-IsPlain tls
port_of-IsPlain (name_with_port h port) tls good = good.1
port_of-IsPlain (address h) tls good = own_port-IsPlain tls
port_of-IsPlain (address_with_port h port) tls good = good.1

host_suffix_process-form :
    (lookup_cname : String → Resolved) (cfg : HostSuffixConfig) (x : Exchange) (f : HostForm)
    → x.outgoing.host ≡ host_text f
    → IsHost f
    → host_suffix_process lookup_cname cfg x
      ≡ to_resolved
          (resolve lookup_cname cfg (part_of f))
          (own_scheme x.incoming.tls)
          (port_of f (own_port x.incoming.tls))
          x
unfolding host_suffix_process
host_suffix_process-form lookup_cname cfg x f is_text good =
    ap
      (λ (p : String × String).
        to_resolved (resolve lookup_cname cfg p.0) (own_scheme x.incoming.tls) p.1 x)
      (ap (λ t. host_or_all (split_host_port t) t (own_port x.incoming.tls)) is_text
        ∙ host_or_all-form f (own_port x.incoming.tls) good)

-- The outcome for one request: an error of the look-up is answered by 500, with no request to the
-- backend; or the host is set.
abbrev pub Directs :
    (String → Resolved)
    → HostSuffixConfig
    → Env
    → List ProxyModule
    → Header
    → Exchange
    → HostForm
    → Resolved
    → Type 0
Directs lookup_cname cfg env ms h x f (unresolved e) =
    serve_chain env (host_suffix_module lookup_cname cfg ∷ ms) h x
    ≡ returns (record { forwarded = none; reply = some (send_error_response h 500 e) })
Directs lookup_cname cfg env ms h x f (resolved host) =
    let url = (host_suffix_process lookup_cname cfg x).1.outgoing.url in
    (split_host_port url.host ≡ some (host, port_of f (own_port x.incoming.tls)))
    × (url.scheme ≡ own_scheme x.incoming.tls)

-- If the host of the outgoing request is a name, an IPv4 or an IPv6 address, with or without a port,
-- and the name that is found for it with the suffix has no brackets, then the outgoing URL has the
-- scheme of the incoming connection and a host that splits into that name and the request's port,
-- or the port of that scheme. If no name is found, then ServeHTTP, with this module as the first of
-- its chain, answers with the status 500 and the error, whatever modules follow, and sends the
-- backend nothing.
pub host_suffix_process-Directs :
    (lookup_cname : String → Resolved) (cfg : HostSuffixConfig) (env : Env) (ms : List ProxyModule)
    (h : Header) (x : Exchange) (f : HostForm) (r : Resolved)
    → x.outgoing.host ≡ host_text f
    → IsHost f
    → resolve lookup_cname cfg (part_of f) ≡ r
    → IsBare (host_in r)
    → Directs lookup_cname cfg env ms h x f r
unfolding host_suffix_module serve_chain run_modules set_target
host_suffix_process-Directs lookup_cname cfg env ms h x f (unresolved e) is_text good found bare =
    let processed = host_suffix_process-form lookup_cname cfg x f is_text good in
    rw (serve_chain, run_modules, host_suffix_module, processed, found) refl
host_suffix_process-Directs lookup_cname cfg env ms h x f (resolved host) is_text good found bare =
    let processed = host_suffix_process-form lookup_cname cfg x f is_text good in
    let (p0, (p1, p2)) = port_of-IsPlain f x.incoming.tls good in
    (
      rw (processed, found) (split_host_port-join_host_port host _ bare.0 bare.1 p0 p1 p2),
      rw (processed, found) refl,
    )
