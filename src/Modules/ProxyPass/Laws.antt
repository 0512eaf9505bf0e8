-- ===== src/Modules/ProxyPass/Laws.antt =====
-- What the ProxyPass module writes to the outgoing request and to the response.
use ozone.Prelude.{
  String, Bool, true, false, ◌≡◌, refl, ◌∙◌, inl, inr, Bool-cases, Option-cases, arith,
}
use ozone.Prelude.Text.{is_empty}
use ozone.Http.Header.{set, get}
use ozone.Http.HostPort.{split_host_port}
use ozone.Rproxymod.{Exchange, pass_on, out_header, write_out, ensure_writable_header}
use ozone.Rproxymod.Laws.{write_out-in_header}
use ozone.Modules.ProxyPass.{
  UrlLib, ProxyPassConfig, when, set_out, scheme_of, forward_for, rewrite_host, rewrite_destination,
  rewrite_steps, proto_steps, server_steps, proxy_pass_process,
}

set_out-in_header : (k v : String) (x : Exchange) → (set_out k v x).in_header ≡ x.in_header
unfolding set_out
set_out-in_header k v x = write_out-in_header (set k v) x

pub set_out-incoming : (k v : String) (x : Exchange) → (set_out k v x).incoming ≡ x.incoming
unfolding set_out write_out ensure_writable_header
set_out-incoming k v x = ground arith

forward_for-in_header : (x : Exchange) → (forward_for x).in_header ≡ x.in_header
unfolding forward_for
forward_for-in_header x = elim (Option-cases (split_host_port x.incoming.remote_addr)) [
  | inl e ↦ rw (e, forward_for)
  | inr ((client, port), e) ↦ rw (e, forward_for) (write_out-in_header _ x)
]

rewrite_destination-in_header :
    (lib : UrlLib) (x : Exchange) → (rewrite_destination lib x).in_header ≡ x.in_header
unfolding rewrite_destination
rewrite_destination-in_header lib x =
    elim (Bool-cases (is_empty (get "Destination" (out_header x)))) [
      | inl e ↦ rw e
      | inr e ↦ rw e (elim (Option-cases (lib.parse (get "Destination" (out_header x)))) [
        | inl q ↦ rw q
        | inr (u, q) ↦ rw q (set_out-in_header "Destination" _ x)
      ])
    ]

-- An invariant that each step of ProcessRequest keeps, from some step on.
module _ (I : Exchange → Type 0) (lib : UrlLib) (server : String)
    (forwards : (y : Exchange) → I y → I (forward_for y))
    (rewrites : (y : Exchange) → I y → I (rewrite_host y))
    (redirects : (y : Exchange) → I y → I (rewrite_destination lib y)) where
  when-keeps :
      (b : Bool) (f : Exchange → Exchange) (x : Exchange)
      → ((y : Exchange) → I y → I (f y))
      → I x
      → I (when b f x)
  when-keeps true f x h i = h x i
  when-keeps false f x h i = i

  pub rewrite_steps-keeps :
      (cfg : ProxyPassConfig) (x : Exchange) → I x → I (rewrite_steps lib cfg x)
  unfolding rewrite_steps
  rewrite_steps-keeps cfg x i =
      when-keeps cfg.rewrite_forward (rewrite_destination lib) _ redirects (
        when-keeps cfg.rewrite_host rewrite_host _ rewrites
          (when-keeps cfg.x_fwd_for forward_for x forwards i))

  module _
      (protos : (y : Exchange)
        → I y
        → I (set_out "X-Forwarded-Proto" (scheme_of y.incoming.tls) y)) where
    pub proto_steps-keeps : (cfg : ProxyPassConfig) (x : Exchange) → I x → I (proto_steps lib cfg x)
    unfolding proto_steps
    proto_steps-keeps cfg x i = rewrite_steps-keeps cfg _ (when-keeps cfg.x_fwd_proto _ x protos i)

    pub server_steps-keeps :
        (cfg : ProxyPassConfig) (x : Exchange)
        → ((y : Exchange) → I y → I (set_out "X-Forwarded-Server" server y))
        → I x
        → I (server_steps lib server cfg x)
    unfolding server_steps
    server_steps-keeps cfg x servers i =
        proto_steps-keeps cfg _ (when-keeps cfg.x_fwd_server _ x servers i)

    process-keeps :
        (cfg : ProxyPassConfig) (x : Exchange)
        → ((y : Exchange) → I y → I (set_out "X-Forwarded-Server" server y))
        → ((y : Exchange) → I y → I (set_out "X-Forwarded-Host" y.incoming.host y))
        → I x
        → I (proxy_pass_process lib server cfg x).1
    unfolding proxy_pass_process
    process-keeps cfg x servers hosts i =
        server_steps-keeps cfg _ servers (when-keeps cfg.x_fwd_host _ x hosts i)

-- Whatever the configuration, the module leaves the headers of the incoming request as they were,
-- and passes the request on.
pub proxy_pass_process-in_header :
    (lib : UrlLib) (server : String) (cfg : ProxyPassConfig) (x : Exchange)
    → ((proxy_pass_process lib server cfg x).0 ≡ pass_on)
      × ((proxy_pass_process lib server cfg x).1.in_header ≡ x.in_header)
unfolding proxy_pass_process
proxy_pass_process-in_header lib server cfg x = (
  refl,
  process-keeps (λ y. y.in_header ≡ x.in_header) lib server (λ y i. forward_for-in_header y ∙ i)
      (λ y i. unfold rewrite_host in i) (λ y i. rewrite_destination-in_header lib y ∙ i)
      (λ y i. set_out-in_header "X-Forwarded-Proto" (scheme_of y.incoming.tls) y ∙ i) cfg x
      (λ y i. set_out-in_header "X-Forwarded-Server" server y ∙ i)
      (λ y i. set_out-in_header "X-Forwarded-Host" y.incoming.host y ∙ i) refl,
)
