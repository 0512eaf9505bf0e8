-- ===== src/Proxy/Original/Embed.antt =====
-- The stripping of the original and that of ServeHTTP, and the headers that each adds.
use ozone.Prelude.{
  String, ◌==◌, ◌≡◌, refl, ap, ◌∙◌, inl, inr, Bool, true, false, Bool-cases, List, [], ◌∷◌,
  if◌then◌else◌, is_some, Option-cases,
}
use ozone.Prelude.Text.{is_empty, split, trim_space}
use ozone.Prelude.Dict.{lookup}
use ozone.Http.Header.{Header, canonical, values, get, set}
use ozone.Http.Header.Laws.{values-set}
use ozone.Http.HostPort.{split_host_port}
use ozone.Rproxymod.{
  Request, RequestContext, Exchange, out_header, write_out, ensure_writable_header,
}
use ozone.Proxy.Hop.{hop_headers, del_out, del_named, strip_connection, del_present, strip_request}
use ozone.Proxy.Serve.{mark_request}
use ozone.Proxy.Original.{
  OutRequest, header_of, write_header, copy_once, remove_header, remove_named, remove_connection,
  remove_present, remove_hops, add_forwarded_for,
}

-- The state of the original as an exchange.
module _ (ctx : RequestContext) (req : Request) where
  abbrev pub embed : OutRequest → Exchange
  embed s = record {
    ctx = record ctx { copied_headers = s.copied_headers };
    incoming = req;
    outgoing = s.request;
    in_header = s.in_header;
    own_header = s.own_header;
  }

  pub out_header-embed : (s : OutRequest) → out_header (embed s) ≡ header_of s
  unfolding out_header header_of
  out_header-embed s = refl

  del_out-embed : (k : String) (s : OutRequest) → del_out k (embed s) ≡ embed (remove_header k s)
  unfolding del_out remove_header write_out write_header ensure_writable_header copy_once
  del_out-embed k s = elim (Bool-cases s.copied_headers) [ inl e ↦ rw e refl | inr e ↦ rw e refl ]

  unless-embed :
      (b : Bool) (k : String) (s : OutRequest)
      → (if b then embed s else del_out k (embed s)) ≡ embed (if b then s else remove_header k s)
  unless-embed true k s = refl
  unless-embed false k s = del_out-embed k s

  del_named-embed :
      (fs : List String) (s : OutRequest) → del_named fs (embed s) ≡ embed (remove_named fs s)
  unfolding del_named remove_named
  del_named-embed [] s = refl
  del_named-embed (f ∷ fs) s =
      ap (del_named fs) (unless-embed (is_empty (trim_space f)) (trim_space f) s)
      ∙ del_named-embed fs _

  strip_connection-embed :
      (s : OutRequest) → strip_connection (embed s) ≡ embed (remove_connection s)
  unfolding strip_connection remove_connection out_header header_of
  strip_connection-embed s = go (is_empty (get "Connection" (header_of s)))
    where
      go :
          (b : Bool)
          → (if b
              then embed s
              else del_named (split (get "Connection" (header_of s)) b',') (embed s))
            ≡ embed (if b then s else remove_named (split (get "Connection" (header_of s)) b',') s)
      go true = refl
      go false = del_named-embed (split (get "Connection" (header_of s)) b',') s

  del_present-embed :
      (ks : List String) (s : OutRequest) → del_present ks (embed s) ≡ embed (remove_present ks s)
  unfolding del_present remove_present out_header header_of
  del_present-embed [] s = refl
  del_present-embed (k ∷ ks) s =
      ap (del_present ks) (unless-embed (is_empty (get k (header_of s))) k s)
      ∙ del_present-embed ks _

  -- Both strip the request alike.
  pub strip_request-embed : (s : OutRequest) → strip_request (embed s) ≡ embed (remove_hops s)
  unfolding strip_request remove_hops
  strip_request-embed s =
      ap (del_present hop_headers) (strip_connection-embed s)
      ∙ del_present-embed hop_headers (remove_connection s)

write_out-outgoing : (f : Header → Header) (x : Exchange) → (write_out f x).outgoing ≡ x.outgoing
unfolding write_out
write_out-outgoing f x = elim (Bool-cases x.ctx.copied_headers) [
  | inl e ↦ rw e refl
  | inr e ↦ rw e refl
]

if-outgoing :
    (b : Bool) (x y z : Exchange)
    → x.outgoing ≡ z.outgoing
    → y.outgoing ≡ z.outgoing
    → (if b then x else y).outgoing ≡ z.outgoing
if-outgoing true x y z p q = p
if-outgoing false x y z p q = q

pub mark_request-outgoing :
    (ridheader : String) (x : Exchange) → (mark_request ridheader x).outgoing ≡ x.outgoing
unfolding mark_request
mark_request-outgoing ridheader x =
    let agent =
      if-outgoing (is_some (lookup "User-Agent" (out_header x))) x
        (write_out (set "User-Agent" "") x) x refl (write_out-outgoing (set "User-Agent" "") x) in
    if-outgoing _ _ _ x (write_out-outgoing (set ridheader _) _ ∙ agent) agent

header_of-write_header :
    (f : Header → Header) (s : OutRequest) → header_of (write_header f s) ≡ f (header_of s)
unfolding header_of write_header
header_of-write_header f s = elim (Bool-cases s.copied_headers) [
  | inl e ↦ rw e refl
  | inr e ↦ rw e refl
]

request-write_header :
    (f : Header → Header) (s : OutRequest) → (write_header f s).request ≡ s.request
unfolding write_header
request-write_header f s = elim (Bool-cases s.copied_headers) [
  | inl e ↦ rw e refl
  | inr e ↦ rw e refl
]

values-write_header :
    (v : String) (s : OutRequest) (j : String)
    → (canonical "X-Forwarded-For" == canonical j) ≡ false
    → values j (header_of (write_header (set "X-Forwarded-For" v) s)) ≡ values j (header_of s)
values-write_header v s j e =
    rw (header_of-write_header, values-set "X-Forwarded-For" j v (header_of s), e) refl

pub request-add_forwarded_for :
    (req : Request) (s : OutRequest) → (add_forwarded_for req s).request ≡ s.request
unfolding add_forwarded_for
request-add_forwarded_for req s = elim (Option-cases (split_host_port req.remote_addr)) [
  | inl q ↦ rw (add_forwarded_for, q) refl
  | inr ((ip, port), q) ↦ rw (add_forwarded_for, q, request-write_header) refl
]

pub values-add_forwarded_for :
    (req : Request) (s : OutRequest) (j : String)
    → (canonical "X-Forwarded-For" == canonical j) ≡ false
    → values j (header_of (add_forwarded_for req s)) ≡ values j (header_of s)
unfolding add_forwarded_for
values-add_forwarded_for req s j e = elim (Option-cases (split_host_port req.remote_addr)) [
  | inl q ↦ rw (add_forwarded_for, q) refl
  | inr ((ip, port), q) ↦ rw (add_forwarded_for, q) (values-write_header _ s j e)
]
