-- ===== src/Rproxymod/Tests.antt =====
-- A request with a header in two spellings, and the theorems on header maps at it.
use ozone.Prelude.{◌≡◌, refl, false, [], ◌∷◌, none, some}
use ozone.Prelude.Dict.{insert, lookup}
use ozone.Http.Header.{add, Header, canonical, values, set}
use ozone.Rproxymod.{
  Request, RequestContext, Exchange, copy_header, write_out, ensure_writable_header,
  new_request_context, set_request_ctx_info, get_request_ctx_info,
}

abbrev request : Request
request = record {
  host = "www.example.com";
  url = record { scheme = "http"; host = "backend:8080"; rest = "/" };
  tls = false;
  remote_addr = "10.0.0.1:4711";
}

abbrev spelled : Header
spelled = ("x-tag", "b" ∷ []) ∷ ("X-Tag", "c" ∷ "d" ∷ []) ∷ ("Accept", "*/*" ∷ []) ∷ []

abbrev start : Header
start = ("X-Tag", "a" ∷ []) ∷ []

abbrev ctx : RequestContext
ctx = record { session_id = "7"; session_info = []; copied_headers = false }

abbrev exchange : Exchange
exchange = record {
  ctx = ctx;
  incoming = request;
  outgoing = request;
  in_header = start;
  own_header = [];
}

given_id : new_request_context none "7" ≡ some ctx
unfolding new_request_context
given_id = refl

stored : get_request_ctx_info "k" (set_request_ctx_info "k" "v" ctx) ≡ "v"
unfolding get_request_ctx_info set_request_ctx_info insert lookup
stored = refl

copied : values "X-Tag" (copy_header start spelled) ≡ "a" ∷ "b" ∷ "c" ∷ "d" ∷ []
unfolding copy_header canonical values lookup add
copied = refl

own_header_written :
    (write_out (set "X-Tag" "z") (ensure_writable_header exchange)).in_header ≡ start
unfolding ensure_writable_header set write_out
own_header_written = refl
