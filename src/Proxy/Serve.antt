-- ===== src/Proxy/Serve.antt =====
-- ozoneproxy.go, ServeHTTP and what it calls, for a chain of modules and a transport.
pub mod Laws
pub mod Forwarded
use ozone.Prelude.{
  ℕ, String, ◌==◌, Bool, true, false, not, Option, none, some, List, [], ◌∷◌, reverse,
  if◌then◌else◌, is_some, nat_eq,
}
use ozone.Prelude.Text.{append, is_empty, join}
use ozone.Prelude.Dict.{lookup, keys}
use ozone.Prelude.Outcome.{Outcome, returns, panics, ◌>>=◌}
use ozone.Http.Header.{Header, get, set, add}
use ozone.Rproxymod.{
  Request, RequestContext, Exchange, Response, Reply, ProxyModule, new_request_context, copy_header,
  out_header, write_out,
}
use ozone.Proxy.Hop.{strip_request, strip_response}

-- What the transport gives for a request: a response, an error of the backend's certificate, or
-- another error, after which the request's context may be cancelled.
pub data RoundTrip : Type 0 where
  answered : Response → RoundTrip
  bad_certificate : String → RoundTrip
  cancelled : String → RoundTrip
  broken : String → RoundTrip

-- What the handler needs beside its modules: the transport, the header names that the linker can
-- set, the next UUID (`none` if the random bytes cannot be read, with that error), and whether the client has gone when a
-- module answers.
pub record Env : Type 0 where
  pub round_trip : Request → Header → RoundTrip
  pub ridkey : String
  pub ridheader : String
  pub uuid : Option String
  pub uuid_error : String
  pub client_gone : Bool

-- What the client gets.
pub record ClientResponse : Type 0 where
  pub status : ℕ
  pub header : Header
  pub body : String
  pub trailer : Header

-- The request that went to the backend, if one went, and the response to the client, if one was
-- written.
pub record Served : Type 0 where
  pub forwarded : Option (Request × Header)
  pub reply : Option ClientResponse

-- http.StatusText, at the statuses that sendErrorResponse passes on.
abbrev pub status_text : ℕ → String
status_text n =
    if nat_eq n 404
    then "Not Found"
    else if nat_eq n 504
    then "Gateway Timeout"
    else "Internal Server Error"

abbrev pub shown_status : ℕ → ℕ
shown_status n = if nat_eq n 404 then 404 else if nat_eq n 504 then 504 else 500

-- http.Error on the headers of the response writer.
unfoldable pub http_error : Header → String → ℕ → ClientResponse
http_error h text status = record {
  status = status;
  header =
      set "X-Content-Type-Options" "nosniff" (set "Content-Type" "text/plain; charset=utf-8" h);
  body = append text "\n";
  trailer = [];
}

-- sendErrorResponse: any status but 404 and 504 is answered by 500.
unfoldable pub send_error_response : Header → ℕ → String → ClientResponse
unfolding http_error
send_error_response h status err =
    http_error (set "Connection" "close" h) (append (status_text status) (append " :: " err))
      (shown_status status)

-- The loop over the modules: the first error or response ends it.
pub data Chained : Type 0 where
  failed : String → Chained
  replied : Response → Chained
  passed : Exchange → Chained

abbrev next : Reply → (Unit {0} → Chained) → Chained
next reply go = elim reply.err [
  | some e ↦ failed e
  | none ↦ elim reply.response [ some res ↦ replied res | none ↦ go tt ]
]

unfoldable pub run_modules : List ProxyModule → Exchange → Chained
run_modules [] x = passed x
run_modules (m ∷ ms) x =
    let (reply, x') = m.process_request x in let rest = run_modules ms x' in next reply (λ _. rest)

-- The loop over the modules in reverse order: the first error ends it, on the left.
pub data Modified : Type 0 where
  refused : String → Modified
  modified : Response → Modified

unfoldable pub modify_all : List ProxyModule → Exchange → Response → Outcome Modified
modify_all [] x res = returns (modified res)
modify_all (m ∷ ms) x res = m.modify_response x res >>= λ (e, res'). elim e [
  | some err ↦ returns (refused err)
  | none ↦ modify_all ms x res'
]

-- SENDRESPONSE: the headers, the Trailer header if there are trailers, and then the rest.
unfoldable pub send_response : Header → Response → ClientResponse
unfolding copy_header
send_response h res =
    let copied = copy_header h res.header in
    record {
      status = res.status;
      header = elim res.trailer [
        | [] ↦ copied
        | t ∷ ts ↦ add "Trailer" (join (keys (t ∷ ts)) ", ") copied
      ];
      body = res.body;
      trailer = copy_header [] res.trailer;
    }

-- The headers that ServeHTTP gives the request after the hop-by-hop headers are gone. The writes
-- do not ask for a copy of the headers.
unfoldable pub mark_request : (ridheader : String) → Exchange → Exchange
mark_request ridheader x =
    let y =
      if is_some (lookup "User-Agent" (out_header x))
      then x
      else write_out (set "User-Agent" "") x in
    if is_empty (get ridheader y.in_header) then write_out (set ridheader y.ctx.session_id) y else y

abbrev served : Option (Request × Header) → ClientResponse → Outcome Served
served sent c = returns (record { forwarded = sent; reply = some c })

-- The answer to a failed round trip: a bare status, or an http.Error with status 499.
unfoldable pub round_trip_error : Header → RoundTrip → ClientResponse
unfolding http_error
round_trip_error h (bad_certificate e) = record {
  status = 502;
  header = h;
  body = "";
  trailer = [];
}
round_trip_error h (cancelled e) = http_error h e 499
round_trip_error h (broken e) = record { status = 500; header = h; body = ""; trailer = [] }
round_trip_error h (answered res) = record { status = 500; header = h; body = ""; trailer = [] }

-- After the round trip: the response loses its hop-by-hop headers and goes through the modules.
unfoldable pub finish :
    List ProxyModule → Header → Exchange → Option (Request × Header) → Response → Outcome Served
unfolding modify_all strip_response send_response send_error_response
finish modules h x sent res =
    modify_all (reverse modules) x (record res { header = strip_response res.header }) >>= λ m.
    elim m [
      | refused e ↦ served sent (send_error_response h 500 e)
      | modified res' ↦ served sent (send_response h res')
    ]

unfoldable pub forward : Env → List ProxyModule → Header → Exchange → Outcome Served
unfolding strip_request mark_request round_trip_error finish
forward env modules h x =
    let y = mark_request env.ridheader (strip_request x) in
    let sent = some (y.outgoing, out_header y) in
    elim (env.round_trip y.outgoing (out_header y)) [
      | answered res ↦ finish modules h y sent res
      | bad_certificate e ↦ served sent (round_trip_error h (bad_certificate e))
      | cancelled e ↦ served sent (round_trip_error h (cancelled e))
      | broken e ↦ served sent (round_trip_error h (broken e))
    ]

-- ServeHTTP, from the new context on. `h` is what the response writer's headers hold before.
unfoldable pub serve_chain : Env → List ProxyModule → Header → Exchange → Outcome Served
unfolding run_modules forward send_error_response send_response
serve_chain env modules h x = elim (run_modules modules x) [
  | failed e ↦ served none (send_error_response h 500 e)
  | replied res ↦
      if env.client_gone
      then returns (record { forwarded = none; reply = none })
      else served none (send_response h res)
  | passed y ↦ forward env modules h y
]

abbrev pub exchange : RequestContext → Request → Header → Exchange
exchange ctx req header = record {
  ctx = ctx;
  incoming = req;
  outgoing = req;
  in_header = header;
  own_header = [];
}

unfoldable pub serve_http : Env → List ProxyModule → Header → Request → Header → Outcome Served
unfolding serve_chain new_request_context
serve_http env modules h req header = elim (new_request_context env.uuid (get env.ridkey header)) [
  | none ↦ served none (send_error_response h 500 env.uuid_error)
  | some ctx ↦ serve_chain env modules h (exchange ctx req header)
]
