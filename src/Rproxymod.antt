-- ===== src/Rproxymod.antt =====
-- rproxymod/: the interface of a proxy module and the context that a request carries through the
-- chain of modules. The outgoing request is a shallow copy of the incoming one, so both share one
-- header map until EnsureWritableHeader gives the outgoing request its own; the exchange keeps both
-- maps and tells whether they are still one.
pub mod Laws
mod Tests
use ozone.Prelude.{
  ℕ, String, ◌==◌, Bool, true, false, Option, none, some, List, [], ◌∷◌, if◌then◌else◌,
}
use ozone.Prelude.Dict.{Dict, lookup, insert, keys}
use ozone.Prelude.Outcome.{Outcome, returns}
use ozone.Http.Header.{Header, add}

-- The parts of url.URL that the modules read and write; the rest of it is opaque.
pub record Url : Type 0 where
  pub scheme : String
  pub host : String
  pub rest : String

-- The parts of http.Request, apart from the header map.
pub record Request : Type 0 where
  pub host : String
  pub url : Url
  pub tls : Bool
  pub remote_addr : String

-- RequestContext; the cache and the logger are not part of it.
pub record RequestContext : Type 0 where
  pub session_id : String
  pub session_info : Dict String
  pub copied_headers : Bool

-- The context, the incoming and the outgoing request, the header map of the incoming request, and
-- the map that the outgoing request has for its own once the headers are copied.
pub record Exchange : Type 0 where
  pub ctx : RequestContext
  pub incoming : Request
  pub outgoing : Request
  pub in_header : Header
  pub own_header : Header

-- NewRequestContext; `uuid` is what getNextUUID gives, `none` its error.
unfoldable pub new_request_context : Option String → String → Option RequestContext
new_request_context uuid id = elim (id == "") [
  | true ↦ elim uuid [ none ↦ none | some u ↦ some (context u) ]
  | false ↦ some (context id)
]
  where
    context : String → RequestContext
    context i = record { session_id = i; session_info = []; copied_headers = false }

-- GetRequestCtxInfoKeys, GetRequestCtxInfo and SetRequestCtxInfo
unfoldable pub get_request_ctx_info_keys : RequestContext → List String
get_request_ctx_info_keys ctx = keys ctx.session_info

abbrev or_empty : Option String → String
or_empty none = ""
or_empty (some v) = v

unfoldable pub get_request_ctx_info : String → RequestContext → String
get_request_ctx_info k ctx = or_empty (lookup k ctx.session_info)

unfoldable pub set_request_ctx_info : String → String → RequestContext → RequestContext
set_request_ctx_info k v ctx = record ctx { session_info = insert k v ctx.session_info }

-- copyHeader of the proxy, and the loops of EnsureWritableHeader.
unfoldable pub add_values : String → List String → Header → Header
add_values k [] dst = dst
add_values k (v ∷ vs) dst = add_values k vs (add k v dst)

unfoldable pub copy_header : Header → Header → Header
unfolding add_values
copy_header dst [] = dst
copy_header dst ((k, vv) ∷ src) = copy_header (add_values k vv dst) src

-- The header map that the outgoing request holds.
unfoldable pub out_header : Exchange → Header
out_header x = if x.ctx.copied_headers then x.own_header else x.in_header

-- A write through the outgoing request, which is a write to the incoming one's map while they share.
unfoldable pub write_out : (Header → Header) → Exchange → Exchange
write_out f x =
    if x.ctx.copied_headers
    then record x { own_header = f x.own_header }
    else record x { in_header = f x.in_header }

unfoldable pub ensure_writable_header : Exchange → Exchange
unfolding copy_header
ensure_writable_header x = if x.ctx.copied_headers then x else record x {
  own_header = copy_header [] x.in_header;
  ctx = record x.ctx { copied_headers = true };
}

-- http.Response: the status, the headers, the body, and the trailers that follow it.
pub record Response : Type 0 where
  pub status : ℕ
  pub header : Header
  pub body : String
  pub trailer : Header

-- CreateResponse
unfoldable pub create_response : ℕ → String → Response
create_response status body = record { status = status; header = []; body = body; trailer = [] }

-- What ProcessRequest returns beside its changes: a response, or an error, or neither.
pub record Reply : Type 0 where
  pub response : Option Response
  pub err : Option String

abbrev pub pass_on : Reply
pass_on = record { response = none; err = none }

-- ProxyModule. ModifyResponse may panic.
pub record ProxyModule : Type 0 where
  pub process_request : Exchange → Reply × Exchange
  pub modify_response : Exchange → Response → Outcome (Option String × Response)
  pub deinit : Option String

-- BaseModule
unfoldable pub base_module : ProxyModule
base_module = record {
  process_request = λ x. (pass_on, x);
  modify_response = λ x res. returns (none, res);
  deinit = none;
}
