-- ===== src/Proxy/Original/Laws.antt =====
-- The reverse proxy with one module, that directs and modifies as the original does, against the
-- original.
use ozone.Prelude.{
  subst, String, ◌==◌, ◌≡◌, refl, sym, ap, ◌∙◌, inl, inr, false, Bool-cases, Option, some, [], ◌∷◌,
  arith,
}
use ozone.Http.Header.{Header, canonical, values, get, del}
use ozone.Http.Header.Laws.{values-del}
use ozone.Rproxymod.{
  Request, RequestContext, Exchange, Response, new_request_context, out_header, write_out,
}
use ozone.Proxy.Hop.{strip_request}
use ozone.Proxy.Serve.{RoundTrip, Env, exchange, serve_http, serve_chain, run_modules, forward}
use ozone.Proxy.Serve.Forwarded.{IsOther, values-mark_request}
use ozone.Proxy.Original.{OutRequest, header_of, remove_hops, direct, serve_original}
use ozone.Proxy.Original.Embed.{
  embed, out_header-embed, strip_request-embed, mark_request-outgoing, request-add_forwarded_for,
  values-add_forwarded_for,
}
use ozone.Proxy.Original.Replies.{
  apply_director, director_module, original, Agree, Replies, Corresponds, sent_as, reply_of,
  original_reply, reply_of-Replies, marked, forward-reply_of, forwarded_for, serve_original-reply,
}

fresh_context :
    (uuid : Option String) (id : String) (ctx : RequestContext)
    → new_request_context uuid id ≡ some ctx
    → ctx.copied_headers ≡ false
unfolding new_request_context
fresh_context uuid id ctx e = ground arith

-- A header that is deleted, or has the same values.
del-cong :
    (k j : String) (g h : Header)
    → ((canonical k == canonical j) ≡ false → values j g ≡ values j h)
    → values j (del k g) ≡ values j (del k h)
del-cong k j g h same = elim (Bool-cases (canonical k == canonical j)) [
  | inl e ↦ rw (values-del k j g, values-del k j h, e) refl
  | inr e ↦ rw (values-del k j g, values-del k j h, e) (same e)
]

-- Headers that agree under each other name agree.
Agree-others :
    (ridheader : String) (k l : Header)
    → ((j : String)
        → IsOther ridheader j
        → (canonical "X-Forwarded-For" == canonical j) ≡ false
        → values j k ≡ values j l)
    → Agree ridheader k l
Agree-others ridheader k l others j =
    del-cong "User-Agent" j _ _ λ agent.
      del-cong ridheader j _ _ λ id. del-cong "X-Forwarded-For" j _ _ (others j (agent, id))

module _ (director : Request → Header → Request × Header) where
  apply_director-embed :
      (ctx : RequestContext) (req : Request) (header : Header)
      → ctx.copied_headers ≡ false
      → apply_director director (exchange ctx req header)
        ≡ embed ctx req (direct director req header)
  unfolding out_header write_out direct
  apply_director-embed ctx req header fresh = rw fresh refl

  serve_http-marked :
      (h : Header) (modify : Response → Response) (env : Env) (ctx : RequestContext) (req : Request)
      (header : Header)
      → new_request_context env.uuid (get env.ridkey header) ≡ some ctx
      → serve_http env (director_module director modify ∷ []) h req header
        ≡ forward env
            (director_module director modify ∷ [])
            h
            (apply_director director (exchange ctx req header))
  unfolding serve_http serve_chain run_modules
  serve_http-marked h modify env ctx req header e = rw (serve_http, e) refl

  module _ (ctx : RequestContext) (req : Request) (header : Header) where
    abbrev directed : Exchange
    directed = apply_director director (exchange ctx req header)

    abbrev stripped : OutRequest
    stripped = remove_hops (direct director req header)

    strip_request-directed :
        ctx.copied_headers ≡ false → strip_request directed ≡ embed ctx req stripped
    strip_request-directed fresh =
        ap strip_request (apply_director-embed ctx req header fresh)
        ∙ strip_request-embed ctx req (direct director req header)

    -- The two requests for the backend.
    marked-outgoing :
        (env : Env) → ctx.copied_headers ≡ false → (marked env directed).outgoing ≡ stripped.request
    marked-outgoing env fresh =
        mark_request-outgoing env.ridheader (strip_request directed)
        ∙ ap (λ x. x.outgoing) (strip_request-directed fresh)

    marked-Agree :
        (env : Env)
        → ctx.copied_headers ≡ false
        → Agree env.ridheader
            (out_header (marked env directed))
            (header_of (forwarded_for director req header))
    marked-Agree env fresh = Agree-others _ _ _ λ j other not_forwarded_for.
        values-mark_request env.ridheader j (strip_request directed) other
        ∙ ap (λ x. values j (out_header x)) (strip_request-directed fresh)
        ∙ ap (values j) (out_header-embed ctx req stripped)
        ∙ sym (values-add_forwarded_for req stripped j not_forwarded_for)

    -- If the request gets its context, and the backend's answer does not depend on the headers
    -- User-Agent, X-Forwarded-For and the request id, then with one module, that directs as the
    -- original does and modifies the response as it does, without an error, ServeHTTP and the
    -- original send the backend the same request, with the same headers but for these three. The
    -- client gets the same response from both, also to an invalid certificate; to another error of
    -- the round trip it gets the status 499 or 500 from ServeHTTP and 502 from the original.
    pub serve_http-Corresponds :
        (h : Header) (modify : Response → Response) (env : Env)
        (fallback : Request → Header → RoundTrip)
        → new_request_context env.uuid (get env.ridkey header) ≡ some ctx
        → ((q : Request) (k l : Header)
            → Agree env.ridheader k l
            → env.round_trip q k ≡ env.round_trip q l)
        → Corresponds env
            (serve_http env (director_module director modify ∷ []) h req header)
            (serve_original fallback (original director modify env) h req header)
    serve_http-Corresponds h modify env fallback has_context indifferent =
        let fresh = fresh_context env.uuid (get env.ridkey header) ctx has_context in
        let q = stripped.request in
        let k = out_header (marked env directed) in
        let l = header_of (forwarded_for director req header) in
        let agree = marked-Agree env fresh in
        let reply = reply_of h modify in
        (
          q,
          k,
          l,
          reply (env.round_trip q k),
          original_reply h modify (env.round_trip q l),
          serve_http-marked h modify env ctx req header has_context
              ∙ forward-reply_of h modify env director directed _ refl
              ∙ ap (λ q'. sent_as q' k (reply (env.round_trip q' k))) (marked-outgoing env fresh),
          serve_original-reply h modify env director fallback req header _ refl
              ∙ ap (λ q'. sent_as q' l (original_reply h modify (env.round_trip q' l)))
                  (request-add_forwarded_for req stripped),
          agree,
          subst
              (λ r.
                Replies (env.round_trip q k) (reply (env.round_trip q k))
                  (original_reply h modify r))
              (indifferent q k l agree) (reply_of-Replies h modify (env.round_trip q k)),
        )
