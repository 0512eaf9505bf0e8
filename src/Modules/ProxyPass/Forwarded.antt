-- ===== src/Modules/ProxyPass/Forwarded.antt =====
-- The X-Forwarded headers that the ProxyPass module sets stay set to the end of ProcessRequest.
use ozone.Prelude.{
  String, ◌==◌, eq_refl, Bool, true, false, ◌≡◌, refl, ap, ◌∙◌, inl, inr, Bool-cases, Option-cases,
  List, [], ◌∷◌, arith,
}
use ozone.Prelude.Text.{is_empty}
use ozone.Http.Header.{Header, canonical, values, set, get}
use ozone.Http.Header.Laws.{values-set}
use ozone.Http.HostPort.{split_host_port}
use ozone.Rproxymod.{Request, Exchange, out_header, write_out, ensure_writable_header}
use ozone.Modules.ProxyPass.{
  UrlLib, ProxyPassConfig, when, set_out, scheme_of, forward_for, rewrite_host, rewrite_destination,
  rewrite_steps, proto_steps, server_steps, proxy_pass_process,
}
use ozone.Modules.ProxyPass.Laws.{rewrite_steps-keeps, proto_steps-keeps, server_steps-keeps}

-- An exchange with its own outgoing headers, in which `j` has the values `vs`, and whose incoming
-- request is `req`.
pub record Holds (j : String) (vs : List String) (req : Request) (x : Exchange) : Type 0 where
  pub copied : x.ctx.copied_headers ≡ true
  pub held : values j x.own_header ≡ vs
  pub request : x.incoming ≡ req

pub written-copied :
    (f : Header → Header) (x : Exchange)
    → (write_out f (ensure_writable_header x)).ctx.copied_headers ≡ true
unfolding write_out ensure_writable_header
written-copied f x = ground arith

pub written-own :
    (f : Header → Header) (x : Exchange)
    → (write_out f (ensure_writable_header x)).own_header
      ≡ f (out_header (ensure_writable_header x))
unfolding write_out ensure_writable_header out_header
written-own f x = ground arith

pub written-incoming :
    (f : Header → Header) (x : Exchange)
    → (write_out f (ensure_writable_header x)).incoming ≡ x.incoming
unfolding write_out ensure_writable_header
written-incoming f x = ground arith

ensured-own :
    (x : Exchange)
    → x.ctx.copied_headers ≡ true
    → out_header (ensure_writable_header x) ≡ x.own_header
unfolding ensure_writable_header out_header
ensured-own x e = ground arith

module _ (j : String) (vs : List String) (req : Request) where
  write-Holds :
      (k v : String) (x : Exchange)
      → (canonical k == canonical j) ≡ false
      → Holds j vs req x
      → Holds j vs req (write_out (set k v) (ensure_writable_header x))
  write-Holds k v x other h = record {
    copied = written-copied (set k v) x;
    held =
        rw
          (
            written-own (set k v) x,
            values-set k j v (out_header (ensure_writable_header x)),
            other,
            ensured-own x h.copied,
          )
          h.held;
    request = rw (written-incoming (set k v) x) h.request;
  }

  set_out-Holds :
      (k v : String) (x : Exchange)
      → (canonical k == canonical j) ≡ false
      → Holds j vs req x
      → Holds j vs req (set_out k v x)
  unfolding set_out
  set_out-Holds k v x other h = write-Holds k v x other h

  forward_for-Holds :
      (x : Exchange)
      → (canonical "X-Forwarded-For" == canonical j) ≡ false
      → Holds j vs req x
      → Holds j vs req (forward_for x)
  unfolding forward_for
  forward_for-Holds x other h = elim (Option-cases (split_host_port x.incoming.remote_addr)) [
    | inl e ↦ rw (e, forward_for) h
    | inr ((client, port), e) ↦ rw (e, forward_for) (write-Holds "X-Forwarded-For" _ x other h)
  ]

  pub rewrite_destination-Holds :
      (lib : UrlLib) (x : Exchange)
      → (canonical "Destination" == canonical j) ≡ false
      → Holds j vs req x
      → Holds j vs req (rewrite_destination lib x)
  unfolding rewrite_destination
  rewrite_destination-Holds lib x other h =
      elim (Bool-cases (is_empty (get "Destination" (out_header x)))) [
        | inl e ↦ rw e h
        | inr e ↦ rw e (elim (Option-cases (lib.parse (get "Destination" (out_header x)))) [
          | inl q ↦ rw q h
          | inr (u, q) ↦ rw q (set_out-Holds "Destination" _ x other h)
        ])
      ]

  pub rewrite_host-Holds : (x : Exchange) → Holds j vs req x → Holds j vs req (rewrite_host x)
  unfolding rewrite_host
  rewrite_host-Holds x h = record { copied = h.copied; held = h.held; request = h.request }

-- A written header has the written value alone.
set_out-starts : (j v : String) (x : Exchange) → Holds j (v ∷ []) x.incoming (set_out j v x)
unfolding set_out
set_out-starts j v x = record {
  copied = written-copied (set j v) x;
  held =
      rw
        (written-own (set j v) x, values-set j j v (out_header (ensure_writable_header x)), eq_refl)
        refl;
  request = written-incoming (set j v) x;
}

pub Holds-values :
    (j : String) (vs : List String) (req : Request) (x : Exchange)
    → Holds j vs req x
    → values j (out_header x) ≡ vs
unfolding out_header
Holds-values j vs req x h = rw h.copied h.held

pub when-on : (b : Bool) (f : Exchange → Exchange) (y : Exchange) → b ≡ true → when b f y ≡ f y
when-on true f y e = refl
when-on false f y e = cc

module _ (lib : UrlLib) (server : String) (cfg : ProxyPassConfig) (x : Exchange) where
  -- X-Forwarded-Proto, once set, is not touched by the later steps.
  proto-stays :
      (y : Exchange)
      → cfg.x_fwd_proto ≡ true
      → values "X-Forwarded-Proto" (out_header (proto_steps lib cfg y))
        ≡ scheme_of y.incoming.tls ∷ []
  unfolding proto_steps canonical
  proto-stays y on =
      ap (λ z. values "X-Forwarded-Proto" (out_header (rewrite_steps lib cfg z)))
        (when-on cfg.x_fwd_proto (λ z. set_out "X-Forwarded-Proto" (scheme_of z.incoming.tls) z) y
          on)
      ∙ (Holds-values _ _ y.incoming _ (
          rewrite_steps-keeps (Holds "X-Forwarded-Proto" (scheme_of y.incoming.tls ∷ []) y.incoming)
            lib server (λ z h. forward_for-Holds _ _ _ z refl h) (rewrite_host-Holds _ _ _)
            (λ z h. rewrite_destination-Holds _ _ _ lib z refl h) cfg _
            (set_out-starts "X-Forwarded-Proto" (scheme_of y.incoming.tls) y)))

  server-stays :
      (y : Exchange)
      → cfg.x_fwd_server ≡ true
      → values "X-Forwarded-Server" (out_header (server_steps lib server cfg y)) ≡ server ∷ []
  unfolding server_steps canonical
  server-stays y on =
      ap (λ z. values "X-Forwarded-Server" (out_header (proto_steps lib cfg z)))
        (when-on cfg.x_fwd_server (set_out "X-Forwarded-Server" server) y on)
      ∙ (Holds-values _ _ y.incoming _ (
          proto_steps-keeps (Holds "X-Forwarded-Server" (server ∷ []) y.incoming) lib server
            (λ z h. forward_for-Holds _ _ _ z refl h) (rewrite_host-Holds _ _ _)
            (λ z h. rewrite_destination-Holds _ _ _ lib z refl h)
            (λ z h. set_out-Holds _ _ _ "X-Forwarded-Proto" _ z refl h) cfg _
            (set_out-starts "X-Forwarded-Server" server y)))

  host-stays :
      cfg.x_fwd_host ≡ true
      → values "X-Forwarded-Host" (out_header (proxy_pass_process lib server cfg x).1)
        ≡ x.incoming.host ∷ []
  unfolding proxy_pass_process canonical
  host-stays on =
      ap (λ z. values "X-Forwarded-Host" (out_header (server_steps lib server cfg z)))
        (when-on cfg.x_fwd_host (λ z. set_out "X-Forwarded-Host" z.incoming.host z) x on)
      ∙ (Holds-values _ _ x.incoming _ (
          server_steps-keeps (Holds "X-Forwarded-Host" (x.incoming.host ∷ []) x.incoming) lib server
            (λ z h. forward_for-Holds _ _ _ z refl h) (rewrite_host-Holds _ _ _)
            (λ z h. rewrite_destination-Holds _ _ _ lib z refl h)
            (λ z h. set_out-Holds _ _ _ "X-Forwarded-Proto" _ z refl h) cfg _
            (λ z h. set_out-Holds _ _ _ "X-Forwarded-Server" server z refl h)
            (set_out-starts "X-Forwarded-Host" x.incoming.host x)))

  -- The steps before the scheme leave the incoming request as it was.
  hosted-incoming :
      (b : Bool)
      → (when b (λ y. set_out "X-Forwarded-Host" y.incoming.host y) x).incoming ≡ x.incoming
  unfolding set_out
  hosted-incoming true = written-incoming _ x
  hosted-incoming false = refl

  served-incoming :
      (b : Bool) (y : Exchange)
      → (when b (set_out "X-Forwarded-Server" server) y).incoming ≡ y.incoming
  unfolding set_out
  served-incoming true y = written-incoming _ y
  served-incoming false y = refl

  -- Of the headers that the configuration switches on, the outgoing request has, as the only value,
  -- the host of the incoming request, the name of the server, and the scheme by which the request
  -- came in, whatever was there before and whatever else is switched on.
  pub proxy_pass_process_forwarded :
      (cfg.x_fwd_host ≡ true
        → values "X-Forwarded-Host" (out_header (proxy_pass_process lib server cfg x).1)
          ≡ x.incoming.host ∷ [])
      × (cfg.x_fwd_server ≡ true
          → values "X-Forwarded-Server" (out_header (proxy_pass_process lib server cfg x).1)
            ≡ server ∷ [])
      × (cfg.x_fwd_proto ≡ true
          → values "X-Forwarded-Proto" (out_header (proxy_pass_process lib server cfg x).1)
            ≡ scheme_of x.incoming.tls ∷ [])
  unfolding proxy_pass_process server_steps
  proxy_pass_process_forwarded = (
    host-stays,
    server-stays _,
    λ on.
        proto-stays _ on
        ∙ ap (λ (q : Request). scheme_of q.tls ∷ [])
            (served-incoming cfg.x_fwd_server _ ∙ hosted-incoming cfg.x_fwd_host),
  )
