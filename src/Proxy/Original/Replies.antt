-- ===== src/Proxy/Original/Replies.antt =====
-- What each proxy answers with one module, that directs and modifies as the original does.
use ozone.Prelude.{String, ◌≡◌, refl, none, some, [], ◌∷◌}
use ozone.Prelude.Outcome.{Outcome, returns}
use ozone.Http.Header.{Header, values, del}
use ozone.Rproxymod.{Request, Exchange, Response, ProxyModule, pass_on, out_header, write_out}
use ozone.Proxy.Hop.{strip_request, strip_response}
use ozone.Proxy.Serve.{
  RoundTrip, answered, bad_certificate, cancelled, broken, Env, ClientResponse, Served,
  mark_request, forward, finish, modify_all, round_trip_error, send_response, http_error,
}
use ozone.Proxy.Original.{
  ReverseProxy, OutRequest, header_of, remove_hops, add_forwarded_for, direct, serve_original,
  bad_gateway, finish_original,
}

-- The module that directs as the original does, and modifies the response by a function.
abbrev pub apply_director : (Request → Header → Request × Header) → Exchange → Exchange
apply_director director x =
    write_out (λ _. (director x.outgoing (out_header x)).1)
      (record x { outgoing = (director x.outgoing (out_header x)).0 })

abbrev pub director_module :
    (Request → Header → Request × Header) → (Response → Response) → ProxyModule
director_module director modify = record {
  process_request = λ x. (pass_on, apply_director director x);
  modify_response = λ x res. returns (none, modify res);
  deinit = none;
}

-- The original with the same director, modification and transport.
abbrev pub original :
    (Request → Header → Request × Header) → (Response → Response) → Env → ReverseProxy
original director modify env = record {
  director = director;
  transport = some env.round_trip;
  modify_response = some (λ res. returns (none, modify res));
}

-- The headers without the three that the two proxies set.
abbrev pub unmarked : String → Header → Header
unmarked ridheader h = del "User-Agent" (del ridheader (del "X-Forwarded-For" h))

-- The headers have the same values under each other name.
abbrev pub Agree : String → Header → Header → Type 0
Agree ridheader k l =
    (j : String) → values j (unmarked ridheader k) ≡ values j (unmarked ridheader l)

-- How the two answers to one round trip compare.
abbrev pub Replies : RoundTrip → ClientResponse → ClientResponse → Type 0
Replies (answered res) c d = c ≡ d
Replies (bad_certificate e) c d = c ≡ d
Replies (cancelled e) c d = (c.status ≡ 499) × (d.status ≡ 502)
Replies (broken e) c d = (c.status ≡ 500) × (d.status ≡ 502)

-- The request went out, and the client is answered.
abbrev pub sent_as : Request → Header → ClientResponse → Outcome Served
sent_as q k c = returns (record { forwarded = some (q, k); reply = some c })

-- Both send the same request with headers that agree, and answer the client.
abbrev pub Corresponds : Env → Outcome Served → Outcome Served → Type 0
Corresponds env a b =
    (q : Request) × (k : Header) × (l : Header) × (c : ClientResponse) × (d : ClientResponse) × (a
      ≡ sent_as q k c)
    × (b ≡ sent_as q l d)
    × (Agree env.ridheader k l)
    × (Replies (env.round_trip q k) c d)

-- The requests that go out.
abbrev pub marked : Env → Exchange → Exchange
marked env x = mark_request env.ridheader (strip_request x)

abbrev pub forwarded_for : (Request → Header → Request × Header) → Request → Header → OutRequest
forwarded_for director req header = add_forwarded_for req (remove_hops (direct director req header))

module _ (h : Header) (modify : Response → Response) where
  -- What the client gets: both send the response alike.
  abbrev pub sends : Response → ClientResponse
  sends res = send_response h (modify (record res { header = strip_response res.header }))

  abbrev pub reply_of : RoundTrip → ClientResponse
  reply_of (answered res) = sends res
  reply_of (bad_certificate e) = round_trip_error h (bad_certificate e)
  reply_of (cancelled e) = round_trip_error h (cancelled e)
  reply_of (broken e) = round_trip_error h (broken e)

  abbrev pub original_reply : RoundTrip → ClientResponse
  original_reply (answered res) = sends res
  original_reply (bad_certificate e) = bad_gateway h
  original_reply (cancelled e) = bad_gateway h
  original_reply (broken e) = bad_gateway h

  pub reply_of-Replies : (r : RoundTrip) → Replies r (reply_of r) (original_reply r)
  unfolding round_trip_error http_error
  reply_of-Replies (answered res) = refl
  reply_of-Replies (bad_certificate e) = refl
  reply_of-Replies (cancelled e) = (refl, refl)
  reply_of-Replies (broken e) = (refl, refl)

  module _ (env : Env) (director : Request → Header → Request × Header) where
    finish-sends :
        (z : Exchange) (q : Request) (k : Header) (res : Response)
        → finish (director_module director modify ∷ []) h z (some (q, k)) res
          ≡ sent_as q k (sends res)
    unfolding finish modify_all
    finish-sends z q k res = refl

    pub forward-reply_of :
        (x : Exchange) (r : RoundTrip)
        → env.round_trip (marked env x).outgoing (out_header (marked env x)) ≡ r
        → forward env (director_module director modify ∷ []) h x
          ≡ sent_as (marked env x).outgoing (out_header (marked env x)) (reply_of r)
    unfolding forward
    forward-reply_of x (answered res) q = rw (q, forward) (finish-sends (marked env x) _ _ res)
    forward-reply_of x (bad_certificate s) q = rw (q, forward) refl
    forward-reply_of x (cancelled s) q = rw (q, forward) refl
    forward-reply_of x (broken s) q = rw (q, forward) refl

    finish_original-sends :
        (q : Request) (k : Header) (res : Response)
        → finish_original (original director modify env).modify_response h (some (q, k)) res
          ≡ sent_as q k (sends res)
    unfolding finish_original
    finish_original-sends q k res = refl

    pub serve_original-reply :
        (fallback : Request → Header → RoundTrip) (req : Request) (header : Header) (r : RoundTrip)
        → env.round_trip
            (forwarded_for director req header).request
            (header_of (forwarded_for director req header))
          ≡ r
        → serve_original fallback (original director modify env) h req header
          ≡ sent_as
              (forwarded_for director req header).request
              (header_of (forwarded_for director req header))
              (original_reply r)
    unfolding serve_original
    serve_original-reply fallback req header (answered res) q =
        rw (q, serve_original) (finish_original-sends _ _ res)
    serve_original-reply fallback req header (bad_certificate s) q = rw (q, serve_original) refl
    serve_original-reply fallback req header (cancelled s) q = rw (q, serve_original) refl
    serve_original-reply fallback req header (broken s) q = rw (q, serve_original) refl
