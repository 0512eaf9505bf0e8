-- ===== src/Modules/Directors.antt =====
-- handlers/rproxy/module/forward_map_director, host_suffix_director and backendsettings: the
-- modules that choose the host and the scheme of the outgoing URL.
pub mod Laws
pub mod HostPort
pub mod HostSuffix
use ozone.Prelude.{ℕ, String, Bool, Option, none, some, [], ◌∷◌, nat_eq, if◌then◌else◌}
use ozone.Prelude.Text.{append, decimal}
use ozone.Prelude.Dict.{Dict, lookup, insert}
use ozone.Http.HostPort.{split_host_port, join_host_port}
use ozone.Rproxymod.{Url, Exchange, Reply, ProxyModule, pass_on, create_response, base_module}

-- The outgoing URL with another scheme and host.
unfoldable pub set_target : String → String → Exchange → Exchange
set_target scheme host x = record x {
  outgoing = record x.outgoing { url = record x.outgoing.url { scheme = scheme; host = host } };
}

-- forward_map_director: InitModule parses the targets up to the first that does not parse; the
-- module is returned with that error.
module _ (parse : String → Option Url) where
  unfoldable pub parse_forwards : Dict String → Dict Url → Dict Url × Option String
  unfolding insert
  parse_forwards [] m = (m, none)
  parse_forwards ((host, forward) ∷ rest) m = elim (parse forward) [
    | none ↦ (m, some forward)
    | some u ↦ parse_forwards rest (insert host u m)
  ]

  unfoldable pub forward_map_init : Dict String → Dict Url × Option String
  unfolding parse_forwards
  forward_map_init forward = parse_forwards forward []

abbrev pub no_such_host : Reply
no_such_host = record { response = some (create_response 404 "No such host"); err = none }

abbrev pub to_fallback : Option Url → Exchange → Reply × Exchange
to_fallback none x = (no_such_host, x)
to_fallback (some u) x = (pass_on, set_target u.scheme u.host x)

abbrev pub to_target : Option Url → Option Url → Exchange → Reply × Exchange
to_target none fallback x = to_fallback fallback x
to_target (some u) fallback x = (pass_on, set_target u.scheme u.host x)

unfoldable pub forward_map_process : Dict Url → Exchange → Reply × Exchange
unfolding lookup set_target create_response
forward_map_process m x = to_target (lookup x.outgoing.host m) (lookup "" m) x

unfoldable pub forward_map_module : Dict Url → ProxyModule
unfolding forward_map_process base_module
forward_map_module m = record base_module { process_request = forward_map_process m }

-- host_suffix_director; `lookup_cname` is net.LookupCNAME, an error on the left.
pub record HostSuffixConfig : Type 0 where
  pub suffix : String
  pub via_cname : Bool

pub data Resolved : Type 0 where
  unresolved : String → Resolved
  resolved : String → Resolved

abbrev pub host_or_all : Option (String × String) → String → String → String × String
host_or_all none host port = (host, port)
host_or_all (some p) host port = p

-- A failed look-up returns the response and the error.
abbrev pub to_resolved : Resolved → String → String → Exchange → Reply × Exchange
to_resolved (unresolved e) scheme port x = (
  record { response = some (create_response 502 "Failure to resolve"); err = some e },
  record x { outgoing = record x.outgoing { url = record x.outgoing.url { scheme = scheme } } },
)
to_resolved (resolved host) scheme port x =
    (pass_on, set_target scheme (join_host_port host port) x)

unfoldable pub host_suffix_process :
    (lookup_cname : String → Resolved) → HostSuffixConfig → Exchange → Reply × Exchange
unfolding split_host_port join_host_port set_target create_response
host_suffix_process lookup_cname cfg x =
    let scheme = if x.incoming.tls then "https" else "http" in
    let in_port = if x.incoming.tls then "443" else "80" in
    let (host, port) = host_or_all (split_host_port x.outgoing.host) x.outgoing.host in_port in
    let suffixed = append host cfg.suffix in
    to_resolved (if cfg.via_cname then lookup_cname suffixed else resolved suffixed) scheme port x

unfoldable pub host_suffix_module :
    (lookup_cname : String → Resolved) → HostSuffixConfig → ProxyModule
unfolding host_suffix_process base_module
host_suffix_module lookup_cname cfg = record base_module {
  process_request = host_suffix_process lookup_cname cfg;
}

-- backendsettings; a port below 0 is not modelled.
pub record BackendSettings : Type 0 where
  pub force_tls : Bool
  pub port : ℕ

abbrev pub host_part : Option (String × String) → String → String
host_part none all = all
host_part (some (host, port)) all = host

unfoldable pub backend_process : BackendSettings → Exchange → Reply × Exchange
unfolding split_host_port join_host_port decimal
backend_process cfg x =
    let url = x.outgoing.url in
    let host = host_part (split_host_port x.outgoing.host) x.outgoing.host in
    (
      pass_on,
      record x {
        outgoing = record x.outgoing {
          url = record url {
            host = if nat_eq cfg.port 0 then url.host else join_host_port host (decimal cfg.port);
            scheme = if cfg.force_tls then "https" else url.scheme;
          };
        };
      },
    )

unfoldable pub backend_module : BackendSettings → ProxyModule
unfolding backend_process base_module
backend_module cfg = record base_module { process_request = backend_process cfg }
