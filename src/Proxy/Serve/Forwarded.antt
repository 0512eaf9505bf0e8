-- ===== src/Proxy/Serve/Forwarded.antt =====
-- The headers of the request that ServeHTTP sends to the backend.
use ozone.Prelude.{
  String, ◌==◌, ◌≡◌, refl, ap, ◌∙◌, inl, inr, false, not, [], ◌&&◌, ◌||◌, Bool-cases, Option, some,
  List, is_some, if◌then◌else◌,
}
use ozone.Prelude.Text.{is_empty}
use ozone.Prelude.Dict.{lookup}
use ozone.Prelude.Outcome.{returns, Yields, Yields->>=, Yields-returns}
use ozone.Http.Header.{Header, canonical, values, get, set}
use ozone.Http.Header.Laws.{values-set}
use ozone.Rproxymod.{Request, Exchange, Response, ProxyModule, out_header, write_out}
use ozone.Rproxymod.Laws.{IsCanonical, out_header-write_out}
use ozone.Proxy.Hop.{hop_headers, strip_request}
use ozone.Proxy.Hop.Laws.{listed, named}
use ozone.Proxy.Hop.Request.{connection_names, strip_request_lem}
use ozone.Proxy.Serve.{
  Env, Served, RoundTrip, answered, bad_certificate, cancelled, broken, Modified, refused, modified,
  passed, run_modules, serve_chain, mark_request, finish, forward, send_error_response,
  send_response,
}

-- Another header than the two that ServeHTTP sets.
abbrev pub IsOther : (ridheader j : String) → Type 0
IsOther ridheader j =
    ((canonical "User-Agent" == canonical j) ≡ false)
    × ((canonical ridheader == canonical j) ≡ false)

values-set_other :
    (k v j : String) (x : Exchange)
    → (canonical k == canonical j) ≡ false
    → values j (out_header (write_out (set k v) x)) ≡ values j (out_header x)
values-set_other k v j x e =
    rw (out_header-write_out (set k v) x, values-set k j v (out_header x), e) refl

pub values-mark_request :
    (ridheader j : String) (x : Exchange)
    → IsOther ridheader j
    → values j (out_header (mark_request ridheader x)) ≡ values j (out_header x)
unfolding mark_request
values-mark_request ridheader j x (ua, rid) =
    elim (Bool-cases (is_some (lookup "User-Agent" (out_header x)))) [
      | inl e ↦ rw e (with_rid x)
      | inr e ↦
          rw e
            (with_rid (write_out (set "User-Agent" "") x) ∙ values-set_other "User-Agent" "" j x ua)
    ]
  where
    with_rid :
        (y : Exchange)
        → values j (
            out_header (
              if is_empty (get ridheader y.in_header)
              then write_out (set ridheader y.ctx.session_id) y
              else y))
          ≡ values j (out_header y)
    with_rid y = elim (Bool-cases (is_empty (get ridheader y.in_header))) [
      | inl e ↦ rw e (values-set_other ridheader y.ctx.session_id j y rid)
      | inr e ↦ rw e refl
    ]

-- The request that `forward` sends.
abbrev sent : Env → Exchange → Option (Request × Header)
sent env y = let z = mark_request env.ridheader (strip_request y) in some (z.outgoing, out_header z)

finish-sent :
    (ms : List ProxyModule) (h : Header) (x : Exchange) (q : Option (Request × Header))
    (res : Response)
    → Yields (λ s. s.forwarded ≡ q) (finish ms h x q res)
unfolding finish
finish-sent ms h x q res = Yields->>= (λ (s : Served). s.forwarded ≡ q) _ _ answers
  where
    answers :
        (m : Modified)
        → Yields
            (λ (s : Served). s.forwarded ≡ q)
            (elim m [
              | refused e ↦
                  returns (record { forwarded = q; reply = some (send_error_response h 500 e) })
              | modified r ↦ returns (record { forwarded = q; reply = some (send_response h r) })
            ])
    answers (refused e) = refl
    answers (modified r) = refl

forward-sent :
    (env : Env) (ms : List ProxyModule) (h : Header) (y : Exchange)
    → Yields (λ s. s.forwarded ≡ sent env y) (forward env ms h y)
unfolding forward
forward-sent env ms h y = go (env.round_trip z.outgoing (out_header z)) refl
  where
    z : Exchange
    z = mark_request env.ridheader (strip_request y)

    go :
        (t : RoundTrip)
        → env.round_trip z.outgoing (out_header z) ≡ t
        → Yields (λ s. s.forwarded ≡ sent env y) (forward env ms h y)
    go (answered res) q = rw (q, forward) (finish-sent ms h z (sent env y) res)
    go (bad_certificate e) q = rw (q, forward) refl
    go (cancelled e) q = rw (q, forward) refl
    go (broken e) q = rw (q, forward) refl

-- If the modules pass the request on, with incoming headers that have canonical names, each once,
-- then a request that goes to the backend has under each name, apart from User-Agent and the request
-- id header: no value, if the first value of the Connection header lists the name, or if it is the
-- name of a hop-by-hop header whose first value is not empty; and else the values that the modules
-- left.
pub serve_chain_hop :
    (env : Env) (ms : List ProxyModule) (h hdr : Header) (x y : Exchange) (s : Served)
    (req : Request) (j : String)
    → run_modules ms x ≡ passed y
    → IsCanonical y.in_header
    → IsOther env.ridheader j
    → serve_chain env ms h x ≡ returns s
    → s.forwarded ≡ some (req, hdr)
    → values j hdr ≡ (
        if named j (connection_names y)
          || (listed j hop_headers && not (is_empty (get j (out_header y))))
        then []
        else values j (out_header y))
unfolding serve_chain
serve_chain_hop env ms h hdr x y s req j passes i other e f =
    let e' = rw (passes, serve_chain) at e in
    let went =
      Yields-returns (λ t. t.forwarded ≡ sent env y) (forward env ms h y) (forward-sent env ms h y)
        e' in
    let same : hdr ≡ out_header (mark_request env.ridheader (strip_request y)) = cc (went, f) in
    ap (values j) same
    ∙ values-mark_request env.ridheader j (strip_request y) other
    ∙ strip_request_lem j y i
