-- ===== src/Proxy/Original/Tests.antt =====
-- One request through both proxies, to a backend that answers by what the client accepts.
use ozone.Prelude.{String, ◌≡◌, refl, false, none, some, List, [], ◌∷◌, sym, ◌∙◌}
use ozone.Prelude.Dict.{lookup}
use ozone.Http.Header.{Header, values, canonical, get, set, del}
use ozone.Http.Header.Laws.{values-del}
use ozone.Rproxymod.{Request, RequestContext, Response, new_request_context}
use ozone.Proxy.Serve.{RoundTrip, answered, broken, Env, serve_http}
use ozone.Http.HostPort.{split_host_port}
use ozone.Prelude.Outcome.{returns}
use ozone.Proxy.Original.{direct, header_of, add_forwarded_for, serve_original}
use ozone.Proxy.Original.Replies.{director_module, original, unmarked, Agree, Corresponds}
use ozone.Proxy.Original.Laws.{serve_http-Corresponds}

abbrev first : List String → String
first [] = ""
first (v ∷ vs) = v

abbrev answer : Header → RoundTrip
answer k = answered (record {
  status = 200;
  header = ("Connection", "X-Trace" ∷ []) ∷ ("X-Trace", "1" ∷ []) ∷ ("Server", "b" ∷ []) ∷ [];
  body = first (values "Accept" k);
  trailer = [];
})

abbrev env : Env
env = record {
  round_trip = λ q k. answer k;
  ridkey = "X-Id";
  ridheader = "X-Id";
  uuid = some "4711";
  uuid_error = "";
  client_gone = false;
}

abbrev request : Request
request = record {
  host = "www.example.com";
  url = record { scheme = ""; host = ""; rest = "/" };
  tls = false;
  remote_addr = "10.0.0.1:4711";
}

abbrev header : Header
header =
    ("Accept", "text/html" ∷ [])
    ∷ ("Connection", "X-Hop" ∷ [])
    ∷ ("X-Hop", "1" ∷ [])
    ∷ ("X-Forwarded-For", "192.0.2.7" ∷ [])
    ∷ []

-- A director for one host.
abbrev director : Request → Header → Request × Header
director q k =
    (record q { url = record q.url { scheme = "http"; host = "backend" } }, set "X-Via" "d" k)

abbrev counted : Response → Response
counted res = record res { header = set "X-Count" "1" res.header }

abbrev context : RequestContext
context = record { session_id = "4711"; session_info = []; copied_headers = false }

accept : (k : Header) → values "Accept" (unmarked "X-Id" k) ≡ values "Accept" k
unfolding canonical
accept k =
    values-del "User-Agent" "Accept" (del "X-Id" (del "X-Forwarded-For" k))
    ∙ values-del "X-Id" "Accept" (del "X-Forwarded-For" k)
    ∙ values-del "X-Forwarded-For" "Accept" k

-- The backend's answer depends on the header Accept only.
answer-Agree : (k l : Header) → Agree "X-Id" k l → answer k ≡ answer l
answer-Agree k l agree = rw (sym (accept k) ∙ agree "Accept" ∙ accept l) refl

serve_http-Corresponds_example :
    Corresponds env
      (serve_http env (director_module director counted ∷ []) [] request header)
      (serve_original (λ q k. broken "") (original director counted env) [] request header)
unfolding values lookup get new_request_context canonical
serve_http-Corresponds_example =
    serve_http-Corresponds director context request header [] counted env (λ q k. broken "") refl
      (λ q k l. answer-Agree k l)

-- The address of the client comes after the one that was there.
both_addresses :
    get "X-Forwarded-For" (header_of (add_forwarded_for request (direct director request header)))
    ≡ "192.0.2.7, 10.0.0.1"
unfolding get canonical header_of add_forwarded_for direct split_host_port set
both_addresses = refl

-- The backend is down.
no_backend :
    serve_original
      (λ q k. broken "")
      (record { director = director; transport = none; modify_response = none })
      []
      request
      []
    ≡ returns (record {
      forwarded = some (
        (director request []).0,
        ("X-Via", "d" ∷ []) ∷ ("X-Forwarded-For", "10.0.0.1" ∷ []) ∷ [],
      );
      reply = some (record { status = 502; header = []; body = ""; trailer = [] });
    })
unfolding serve_original get set canonical
no_backend = refl
