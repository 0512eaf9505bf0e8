-- ===== src/Proxy/Original.antt =====
-- orig_reverseproxy.go, ServeHTTP: the reverse proxy that the one of ozoneproxy.go is made from. Its
-- body, its goroutine for a client that leaves and the logging are left out; a client that has left
-- is an outcome of the round trip.
mod Embed
mod Replies
pub mod Laws
mod Tests
use ozone.Prelude.{String, Bool, true, false, Option, none, some, List, [], ◌∷◌, if◌then◌else◌}
use ozone.Prelude.Text.{append, is_empty, split, trim_space, join}
use ozone.Prelude.Dict.{lookup}
use ozone.Prelude.Outcome.{Outcome, returns, ◌>>=◌}
use ozone.Http.Header.{Header, get, set, del}
use ozone.Http.HostPort.{split_host_port}
use ozone.Rproxymod.{Request, Response, copy_header}
use ozone.Proxy.Hop.{hop_headers, strip_response}
use ozone.Proxy.Serve.{
  RoundTrip, answered, bad_certificate, cancelled, broken, ClientResponse, Served, send_response,
}

-- reverseProxy. The director changes the request that it is given, and the headers in place.
pub record ReverseProxy : Type 0 where
  pub director : Request → Header → Request × Header
  pub transport : Option (Request → Header → RoundTrip)
  pub modify_response : Option (Response → Outcome (Option String × Response))

-- The outgoing request, the headers of the incoming one, which it shares until they are copied, and
-- its own headers from then on.
pub record OutRequest : Type 0 where
  pub request : Request
  pub in_header : Header
  pub own_header : Header
  pub copied_headers : Bool

unfoldable pub header_of : OutRequest → Header
header_of s = if s.copied_headers then s.own_header else s.in_header

unfoldable pub write_header : (Header → Header) → OutRequest → OutRequest
write_header f s =
    if s.copied_headers
    then record s { own_header = f s.own_header }
    else record s { in_header = f s.in_header }

-- Only the first deletion copies the headers.
unfoldable pub copy_once : OutRequest → OutRequest
unfolding copy_header
copy_once s =
    if s.copied_headers
    then s
    else record s { own_header = copy_header [] s.in_header; copied_headers = true }

unfoldable pub remove_header : String → OutRequest → OutRequest
unfolding copy_once write_header
remove_header k s = write_header (del k) (copy_once s)

unfoldable pub remove_named : List String → OutRequest → OutRequest
unfolding remove_header
remove_named [] s = s
remove_named (f ∷ fs) s =
    remove_named fs (if is_empty (trim_space f) then s else remove_header (trim_space f) s)

unfoldable pub remove_connection : OutRequest → OutRequest
unfolding remove_named header_of
remove_connection s =
    let c = get "Connection" (header_of s) in
    if is_empty c then s else remove_named (split c b',') s

unfoldable pub remove_present : List String → OutRequest → OutRequest
unfolding remove_header header_of
remove_present [] s = s
remove_present (h ∷ hs) s =
    remove_present hs (if is_empty (get h (header_of s)) then s else remove_header h s)

unfoldable pub remove_hops : OutRequest → OutRequest
unfolding remove_present remove_connection
remove_hops s = remove_present hop_headers (remove_connection s)

-- X-Forwarded-For: the addresses before, and that of the client.
abbrev with_prior : Option (List String) → String → String
with_prior none ip = ip
with_prior (some prior) ip = append (join prior ", ") (append ", " ip)

unfoldable pub add_forwarded_for : Request → OutRequest → OutRequest
unfolding split_host_port header_of write_header lookup join
add_forwarded_for req s = elim (split_host_port req.remote_addr) [
  | none ↦ s
  | some (ip, port) ↦
      write_header (set "X-Forwarded-For" (with_prior (lookup "X-Forwarded-For" (header_of s)) ip))
        s
]

unfoldable pub direct : (Request → Header → Request × Header) → Request → Header → OutRequest
direct director req header = record {
  request = (director req header).0;
  in_header = (director req header).1;
  own_header = [];
  copied_headers = false;
}

abbrev pub bad_gateway : Header → ClientResponse
bad_gateway h = record { status = 502; header = h; body = ""; trailer = [] }

abbrev serves : Option (Request × Header) → ClientResponse → Outcome Served
serves sent c = returns (record { forwarded = sent; reply = some c })

abbrev or_else {ℓ} : {A : Type ℓ} → A → Option A → A
or_else d none = d
or_else d (some a) = a

unfoldable pub finish_original :
    Option (Response → Outcome (Option String × Response))
    → Header
    → Option (Request × Header)
    → Response
    → Outcome Served
unfolding strip_response send_response
finish_original modify h sent res =
    let stripped = record res { header = strip_response res.header } in
    elim modify [
      | none ↦ serves sent (send_response h stripped)
      | some f ↦ f stripped >>= λ (e, res'). elim e [
        | some err ↦ serves sent (bad_gateway h)
        | none ↦ serves sent (send_response h res')
      ]
    ]

-- `h` is what the response writer's headers hold before.
unfoldable pub serve_original :
    (default_transport : Request → Header → RoundTrip)
    → ReverseProxy
    → Header
    → Request
    → Header
    → Outcome Served
unfolding direct remove_hops add_forwarded_for header_of finish_original
serve_original default_transport p h req header =
    let s = add_forwarded_for req (remove_hops (direct p.director req header)) in
    let sent = some (s.request, header_of s) in
    elim (or_else default_transport p.transport s.request (header_of s)) [
      | answered res ↦ finish_original p.modify_response h sent res
      | bad_certificate e ↦ serves sent (bad_gateway h)
      | cancelled e ↦ serves sent (bad_gateway h)
      | broken e ↦ serves sent (bad_gateway h)
    ]
