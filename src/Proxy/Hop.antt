-- ===== src/Proxy/Hop.antt =====
-- The removal of hop-by-hop headers: orig_reverseproxy.go, lines 120 to 132, and the four loops of
-- ServeHTTP in ozoneproxy.go.
pub mod Laws
pub mod Request
use ozone.Prelude.{String, Bool, true, false, not, List, [], ◌∷◌, if◌then◌else◌}
use ozone.Prelude.Text.{is_empty, split, trim_space}
use ozone.Http.Header.{Header, get, del}
use ozone.Rproxymod.{Exchange, out_header, write_out, ensure_writable_header}

abbrev pub hop_headers : List String
hop_headers =
    "Connection" ∷ "Proxy-Connection" ∷ "Keep-Alive" ∷ "Proxy-Authenticate" ∷ "Proxy-Authorization"
    ∷ "Te" ∷ "Trailer" ∷ "Transfer-Encoding" ∷ "Upgrade" ∷ []

-- EnsureWritableHeader and Header.Del on the outgoing request.
unfoldable pub del_out : String → Exchange → Exchange
del_out k x = write_out (del k) (ensure_writable_header x)

-- The loop over the names in the Connection header of the request.
unfoldable pub del_named : List String → Exchange → Exchange
del_named [] x = x
del_named (f ∷ fs) x =
    del_named fs (if is_empty (trim_space f) then x else del_out (trim_space f) x)

unfoldable pub strip_connection : Exchange → Exchange
strip_connection x =
    let c = get "Connection" (out_header x) in if is_empty c then x else del_named (split c b',') x

-- The loop over the hop-by-hop headers of the request: only those with a value are deleted.
unfoldable pub del_present : List String → Exchange → Exchange
del_present [] x = x
del_present (h ∷ hs) x = del_present hs (if is_empty (get h (out_header x)) then x else del_out h x)

unfoldable pub strip_request : Exchange → Exchange
strip_request x = del_present hop_headers (strip_connection x)

-- The two loops over the headers of the response.
unfoldable pub del_tokens : List String → Header → Header
del_tokens [] h = h
del_tokens (f ∷ fs) h = del_tokens fs (if is_empty (trim_space f) then h else del (trim_space f) h)

unfoldable pub del_all : List String → Header → Header
del_all [] h = h
del_all (k ∷ ks) h = del_all ks (del k h)

unfoldable pub strip_response : Header → Header
strip_response h =
    let c = get "Connection" h in
    del_all hop_headers (if is_empty c then h else del_tokens (split c b',') h)
