-- ===== src/Proxy/Tests.antt =====
-- Requests through the proxy, with a transport that answers each by 200 and echoes nothing.
use ozone.Prelude.{◌≡◌, refl, false, [], ◌∷◌, none, some}
use ozone.Prelude.Outcome.{returns, Ends}
use ozone.Prelude.Text.{split, trim_space}
use ozone.Prelude.Dict.{lookup, insert}
use ozone.Http.Header.{Header, canonical, values, get, add, set, del}
use ozone.Rproxymod.{
  Request, Exchange, Response, ProxyModule, base_module, out_header, write_out,
  ensure_writable_header,
}
use ozone.Rproxymod.Laws.{IsCanonical}
use ozone.Proxy.Hop.{
  strip_request, del_all, del_present, strip_connection, del_named, del_out, del_tokens,
}
use ozone.Proxy.Hop.Request.{strip_request_lem}
use ozone.Proxy.Serve.{Env, answered, passed, Served, run_modules, serve_chain}
use ozone.Proxy.Serve.Laws.{serve_chain_short}
use ozone.Proxy.Serve.Forwarded.{serve_chain_hop}

abbrev request : Request
request = record {
  host = "www.example.com";
  url = record { scheme = "http"; host = "backend:8080"; rest = "/" };
  tls = false;
  remote_addr = "10.0.0.1:4711";
}

abbrev incoming : Header
incoming =
    ("Connection", "close, X-Secret" ∷ [])
    ∷ ("X-Secret", "s" ∷ [])
    ∷ ("Te", "trailers" ∷ [])
    ∷ ("Accept", "*/*" ∷ [])
    ∷ ("User-Agent", "curl" ∷ [])
    ∷ []

abbrev exchange : Exchange
exchange = record {
  ctx = record { session_id = "7"; session_info = []; copied_headers = false };
  incoming = request;
  outgoing = request;
  in_header = incoming;
  own_header = [];
}

abbrev answer : Response
answer = record { status = 200; header = incoming; body = "ok"; trailer = [] }

abbrev env : Env
env = record {
  round_trip = λ q h. answered answer;
  ridkey = "rid";
  ridheader = "X-Request-Id";
  uuid = some "7";
  uuid_error = "";
  client_gone = false;
}

abbrev teapot : ProxyModule
teapot = record base_module {
  process_request = λ x. (record { response = some answer; err = none }, x);
}

exchange-IsCanonical : IsCanonical exchange.in_header
unfolding canonical lookup
exchange-IsCanonical = ((refl), refl, (refl, refl, (refl, refl, (refl, refl, (refl, refl, tt)))))

strip_request_example : values "X-Secret" (out_header (strip_request exchange)) ≡ []
unfolding canonical split get trim_space values lookup out_header
strip_request_example = strip_request_lem "X-Secret" exchange exchange-IsCanonical

-- A hop-by-hop header whose first value is empty, and a name that the second value of Connection
-- lists, stay in the request.
abbrev spread : Exchange
spread = record exchange {
  in_header =
      ("Te", "" ∷ "trailers" ∷ [])
      ∷ ("Connection", "close" ∷ "X-Secret" ∷ [])
      ∷ ("X-Secret", "s" ∷ [])
      ∷ [];
}

still_there :
    out_header (strip_request spread) ≡ ("Te", "" ∷ "trailers" ∷ []) ∷ ("X-Secret", "s" ∷ []) ∷ []
unfolding canonical split trim_space lookup insert get out_header strip_request del_present del
    strip_connection del_named del_out write_out ensure_writable_header add
still_there = refl

passing : run_modules (base_module ∷ []) exchange ≡ passed exchange
unfolding run_modules base_module
passing = refl

serve_chain_short_example :
    Ends
      (λ s. s.forwarded ≡ none)
      (serve_chain env (base_module ∷ teapot ∷ base_module ∷ []) [] exchange)
    × (serve_chain env (base_module ∷ teapot ∷ base_module ∷ []) [] exchange
        ≡ serve_chain env (base_module ∷ teapot ∷ []) [] exchange)
serve_chain_short_example =
    serve_chain_short env (base_module ∷ []) (base_module ∷ []) teapot [] exchange exchange passing
      refl

abbrev sent_header : Header
sent_header = ("Accept", "*/*" ∷ []) ∷ ("User-Agent", "curl" ∷ []) ∷ ("X-Request-Id", "7" ∷ []) ∷ []

abbrev result : Served
result = record {
  forwarded = some (request, sent_header);
  reply = some (record {
    status = 200;
    header = ("Accept", "*/*" ∷ []) ∷ ("User-Agent", "curl" ∷ []) ∷ [];
    body = "ok";
    trailer = [];
  });
}

through : serve_chain env (base_module ∷ []) [] exchange ≡ returns result
unfolding serve_chain base_module canonical split trim_space lookup insert get out_header del_all
    del_present del strip_connection del_named del_out write_out ensure_writable_header add set
    del_tokens
through = refl

serve_chain_hop_example : values "X-Secret" sent_header ≡ []
unfolding canonical split trim_space lookup get values out_header
serve_chain_hop_example =
    serve_chain_hop env (base_module ∷ []) [] sent_header exchange exchange result request
      "X-Secret" passing exchange-IsCanonical (refl, refl) through refl
