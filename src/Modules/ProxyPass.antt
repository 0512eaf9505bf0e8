-- ===== src/Modules/ProxyPass.antt =====
-- handlers/rproxy/module/proxypass/proxypass.go. url.Parse and URL.String are parameters.
pub mod Laws
pub mod Forwarded
pub mod Client
use ozone.Prelude.{
  String, ◌==◌, Bool, true, false, Option, none, some, List, [], ◌∷◌, if◌then◌else◌, is_some,
}
use ozone.Prelude.Text.{append, is_empty, join}
use ozone.Prelude.Dict.{lookup}
use ozone.Prelude.Outcome.{Outcome, returns, panics}
use ozone.Http.Header.{Header, get, set}
use ozone.Http.HostPort.{split_host_port}
use ozone.Rproxymod.{
  Url, Exchange, Reply, Response, ProxyModule, pass_on, out_header, write_out,
  ensure_writable_header, base_module,
}

-- url.Parse, `none` an error; URL.String
pub record UrlLib : Type 0 where
  pub parse : String → Option Url
  pub print : Url → String

-- ProxyHeadersConfig and Config
pub record ProxyPassConfig : Type 0 where
  pub x_fwd_for : Bool
  pub x_fwd_host : Bool
  pub x_fwd_server : Bool
  pub x_fwd_proto : Bool
  pub rewrite_host : Bool
  pub rewrite_forward : Bool
  pub rewrite_reverse : Bool

-- EnsureWritableHeader followed by Header.Set on the outgoing request.
unfoldable pub set_out : String → String → Exchange → Exchange
set_out k v x = write_out (set k v) (ensure_writable_header x)

abbrev pub scheme_of : Bool → String
scheme_of tls = if tls then "https" else "http"

-- The client's address behind those of the proxies before this one: the value of the header map
-- under "X-Forwarded-For", spelled so.
abbrev pub fold_prior : Option (List String) → String → String
fold_prior none client = client
fold_prior (some prior) client = append (join prior ", ") (append ", " client)

unfoldable pub forward_for : Exchange → Exchange
forward_for x = elim (split_host_port x.incoming.remote_addr) [
  | none ↦ x
  | some (client, port) ↦
      let y = ensure_writable_header x in
      write_out
        (set "X-Forwarded-For" (fold_prior (lookup "X-Forwarded-For" (out_header y)) client)) y
]

abbrev pub when : Bool → (Exchange → Exchange) → Exchange → Exchange
when b f x = if b then f x else x

unfoldable pub rewrite_host : Exchange → Exchange
rewrite_host x = record x { outgoing = record x.outgoing { host = x.outgoing.url.host } }

module _ (lib : UrlLib) where
  -- The Destination header gets the scheme of the outgoing URL and the outgoing host; one that does
  -- not parse stays.
  unfoldable pub rewrite_destination : Exchange → Exchange
  rewrite_destination x =
      let dest = get "Destination" (out_header x) in
      if is_empty dest then x else elim (lib.parse dest) [
        | none ↦ x
        | some u ↦
            set_out "Destination"
              (lib.print (record u { scheme = x.outgoing.url.scheme; host = x.outgoing.host })) x
      ]

  -- ProcessRequest, from its fourth, its third, its second and its first step on.
  unfoldable pub rewrite_steps : ProxyPassConfig → Exchange → Exchange
  rewrite_steps cfg x =
      let forwarded = when cfg.x_fwd_for forward_for x in
      let rehosted = when cfg.rewrite_host rewrite_host forwarded in
      when cfg.rewrite_forward rewrite_destination rehosted

  unfoldable pub proto_steps : ProxyPassConfig → Exchange → Exchange
  proto_steps cfg x =
      rewrite_steps cfg
        (when cfg.x_fwd_proto (λ y. set_out "X-Forwarded-Proto" (scheme_of y.incoming.tls) y) x)

  unfoldable pub server_steps : (server_host_name : String) → ProxyPassConfig → Exchange → Exchange
  server_steps server cfg x =
      proto_steps cfg (when cfg.x_fwd_server (set_out "X-Forwarded-Server" server) x)

  unfoldable pub proxy_pass_process :
      (server_host_name : String) → ProxyPassConfig → Exchange → Reply × Exchange
  proxy_pass_process server cfg x = (
    pass_on,
    server_steps server cfg
        (when cfg.x_fwd_host (λ y. set_out "X-Forwarded-Host" y.incoming.host y) x),
  )

  -- ModifyResponse. After a parse error the URL is nil, and the write to its scheme panics.
  unfoldable pub proxy_pass_modify :
      ProxyPassConfig → Exchange → Response → Outcome (Option String × Response)
  proxy_pass_modify cfg x res =
      let location = get "Location" res.header in
      if cfg.rewrite_reverse
      then if is_empty location then returns (none, res) else elim (lib.parse location) [
        | none ↦ panics
        | some u ↦
            let u' = record u { scheme = scheme_of x.incoming.tls; host = x.incoming.host } in
            returns (none, record res { header = set "Location" (lib.print u') res.header })
      ]
      else returns (none, res)

  unfoldable pub proxy_pass_module : (server_host_name : String) → ProxyPassConfig → ProxyModule
  unfolding proxy_pass_process proxy_pass_modify base_module
  proxy_pass_module server cfg = record base_module {
    process_request = proxy_pass_process server cfg;
    modify_response = proxy_pass_modify cfg;
  }
