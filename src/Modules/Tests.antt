-- ===== src/Modules/Tests.antt =====
-- The modules at a request that comes over TLS with a forged X-Forwarded-Proto.
use ozone.Prelude.{String, ◌≡◌, refl, true, false, [], ◌∷◌, none, some, ◌==◌, if◌then◌else◌}
use ozone.Http.Header.{Header, canonical, values}
use ozone.Rproxymod.{Request, Exchange, pass_on, out_header}
use ozone.Modules.SetHeader.{SetHeaderConfig, set_header_process, set_header_process_lem}
use ozone.Modules.Directors.{
  set_target, forward_map_init, forward_map_process, Resolved, resolved, unresolved,
  HostSuffixConfig, host_suffix_module, BackendSettings, backend_process,
}
use ozone.Modules.Directors.HostPort.{name_with_port, host_text, backend_process-reached}
use ozone.Modules.Directors.HostSuffix.{Directs, host_suffix_process-Directs}
use ozone.Proxy.Serve.{Env, broken, serve_chain, send_error_response}
use ozone.Prelude.Outcome.{returns}
use ozone.Http.HostPort.{contains, split_host_port}
use ozone.Modules.Directors.Laws.{target, Goes, forward_map_process-target}
use ozone.Prelude.Text.{decimal, join}
use ozone.Prelude.Dict.{Dict, insert, lookup}
use ozone.Modules.ProxyPass.{UrlLib, ProxyPassConfig, proxy_pass_process}
use ozone.Modules.ProxyPass.Laws.{proxy_pass_process-in_header}
use ozone.Modules.ProxyPass.Client.{proxy_pass_process_client}
use ozone.Modules.ProxyPass.Forwarded.{proxy_pass_process_forwarded}

abbrev request : Request
request = record {
  host = "www.example.com";
  url = record { scheme = "http"; host = "backend:8080"; rest = "/" };
  tls = true;
  remote_addr = "10.0.0.1:4711";
}

abbrev forged : Header
forged = ("X-Forwarded-Proto", "http" ∷ "gopher" ∷ []) ∷ ("Accept", "*/*" ∷ []) ∷ []

abbrev exchange : Exchange
exchange = record {
  ctx = record { session_id = "7"; session_info = []; copied_headers = false };
  incoming = request;
  outgoing = request;
  in_header = forged;
  own_header = [];
}

-- An URL library for URLs that are a host name.
abbrev lib : UrlLib
lib = record {
  parse = λ s. some (record { scheme = ""; host = s; rest = "" });
  print = λ u. u.host;
}

abbrev everything : ProxyPassConfig
everything = record {
  x_fwd_for = true;
  x_fwd_host = true;
  x_fwd_server = true;
  x_fwd_proto = true;
  rewrite_host = true;
  rewrite_forward = true;
  rewrite_reverse = true;
}

abbrev tags : SetHeaderConfig
tags = record { response_header = []; request_header = ("x-tag", "a") ∷ ("X-Tag", "b") ∷ [] }

set_header_process_example :
    ((set_header_process tags exchange).0 ≡ pass_on)
    × (values "X-Tag" (out_header (set_header_process tags exchange).1) ≡ "b" ∷ [])
    × ((set_header_process tags exchange).1.in_header ≡ forged)
unfolding canonical
set_header_process_example = set_header_process_lem tags exchange "X-Tag"

proxy_pass_process-in_header_example :
    ((proxy_pass_process lib "front" everything exchange).0 ≡ pass_on)
    × ((proxy_pass_process lib "front" everything exchange).1.in_header ≡ forged)
proxy_pass_process-in_header_example = proxy_pass_process-in_header lib "front" everything exchange

proxy_pass_process_forwarded_example :
    (true ≡ true
      → values "X-Forwarded-Host"
          (out_header (proxy_pass_process lib "front" everything exchange).1)
        ≡ "www.example.com" ∷ [])
    × (true ≡ true
        → values "X-Forwarded-Server"
            (out_header (proxy_pass_process lib "front" everything exchange).1)
          ≡ "front" ∷ [])
    × (true ≡ true
        → values "X-Forwarded-Proto"
            (out_header (proxy_pass_process lib "front" everything exchange).1)
          ≡ "https" ∷ [])
proxy_pass_process_forwarded_example = proxy_pass_process_forwarded lib "front" everything exchange

-- Behind another proxy.
abbrev proxied : Exchange
proxied = record exchange {
  in_header = ("X-Forwarded-For", "192.0.2.7" ∷ "192.0.2.8" ∷ []) ∷ ("Accept", "*/*" ∷ []) ∷ [];
}

proxy_pass_process_client_example :
    values "X-Forwarded-For" (out_header (proxy_pass_process lib "front" everything proxied).1)
    ≡ "192.0.2.7, 192.0.2.8, 10.0.0.1" ∷ []
unfolding canonical lookup values split_host_port join
proxy_pass_process_client_example =
    proxy_pass_process_client lib "front" everything "10.0.0.1" "4711" proxied refl refl
      (refl, refl, (refl, refl, tt)) refl

abbrev forwards : Dict String
forwards = ("www.example.com", "backend-1") ∷ ("", "fallback") ∷ []

abbrev forwarded : Exchange
forwarded = record exchange {
  outgoing = record request { url = record { scheme = ""; host = "backend-1"; rest = "/" } };
}

forward_map_process-target_example :
    Goes
      (target lib.parse exchange.outgoing.host forwards none)
      (target lib.parse "" forwards none)
      exchange
      (forward_map_process (forward_map_init lib.parse forwards).0 exchange)
unfolding forward_map_init insert
forward_map_process-target_example = forward_map_process-target lib.parse forwards exchange refl

own_entry :
    forward_map_process (forward_map_init lib.parse forwards).0 exchange ≡ (pass_on, forwarded)
unfolding forward_map_init lookup insert set_target forward_map_process
own_entry = refl

-- backendsettings with a port, at a host with a port and at an address without one.
abbrev settings : BackendSettings
settings = record { force_tls = true; port = 8443 }

abbrev to_host : String → Exchange
to_host h = record exchange { outgoing = record request { host = h } }

abbrev backend_host : String → String
backend_host h = (backend_process settings (to_host h)).1.outgoing.url.host

backend_process-reached_example :
    split_host_port (backend_host "example.com:80") ≡ some ("example.com", "8443")
unfolding contains host_text decimal
backend_process-reached_example =
    backend_process-reached settings (to_host "example.com:80") (name_with_port "example.com" "80")
      refl refl ((refl, (refl, refl)), (refl, (refl, refl)))

doubled_brackets : backend_host "[::1]" ≡ "[[::1]]:8443"
unfolding backend_process
doubled_brackets = refl

-- host_suffix_director with the canonical name of the host.
abbrev cnames : String → Resolved
cnames n = if n == "www.internal" then resolved "node7.internal" else unresolved "no such host"

abbrev suffixed : HostSuffixConfig
suffixed = record { suffix = ".internal"; via_cname = true }

abbrev env : Env
env = record {
  round_trip = λ q k. broken "down";
  ridkey = "X-Id";
  ridheader = "X-Id";
  uuid = some "1";
  uuid_error = "";
  client_gone = false;
}

host_suffix_process-Directs_example :
    Directs cnames suffixed env [] []
      (to_host "www:8080")
      (name_with_port "www" "8080")
      (resolved "node7.internal")
unfolding contains host_text
host_suffix_process-Directs_example =
    host_suffix_process-Directs cnames suffixed env [] [] (to_host "www:8080")
      (name_with_port "www" "8080") (resolved "node7.internal") refl
      ((refl, (refl, refl)), (refl, (refl, refl))) refl (refl, refl)

unknown_name :
    serve_chain env (host_suffix_module cnames suffixed ∷ []) [] (to_host "ftp")
    ≡ returns
        (record { forwarded = none; reply = some (send_error_response [] 500 "no such host") })
unfolding serve_chain host_suffix_module
unknown_name = refl
