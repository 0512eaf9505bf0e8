-- ===== src/Modules/ProxyPass/Client.antt =====
-- The address of the client that the ProxyPass module puts into X-Forwarded-For.
use ozone.Prelude.{
  String, ◌==◌, ◌≡◌, subst, eq_refl, refl, sym, ap, ◌∙◌, inl, inr, Bool, true, false, Bool-cases,
  Option, none, some, List, [], ◌∷◌, ◌++◌, if◌then◌else◌,
}
use ozone.Prelude.Text.{append, join}
use ozone.Prelude.Dict.{lookup, lookup-insert}
use ozone.Http.Header.{Header, canonical, values, values_or_nil, add, set}
use ozone.Http.Header.Laws.{values-set}
use ozone.Http.HostPort.{split_host_port}
use ozone.Rproxymod.{Request, Exchange, add_values, copy_header, out_header, ensure_writable_header}
use ozone.Rproxymod.Laws.{IsCanonical, values-ensure, write_out-in_header, out_header-write_out}
use ozone.Modules.ProxyPass.Forwarded.{
  Holds, written-copied, written-own, written-incoming, Holds-values, rewrite_host-Holds,
  rewrite_destination-Holds, when-on,
}
use ozone.Modules.ProxyPass.Laws.{set_out-incoming}
use ozone.Modules.ProxyPass.{
  UrlLib, ProxyPassConfig, when, set_out, scheme_of, fold_prior, forward_for, rewrite_host,
  rewrite_destination, rewrite_steps, proto_steps, server_steps, proxy_pass_process,
}

-- No list of values in the map is empty under the name.
abbrev IsFilled : Option (List String) → Type 0
IsFilled none = Unit
IsFilled (some []) = ⊥
IsFilled (some (v ∷ vs)) = Unit

snoc-IsFilled : (vs : List String) (v : String) → IsFilled (some (vs ++ v ∷ []))
snoc-IsFilled [] v = tt
snoc-IsFilled (w ∷ vs) v = tt

if-IsFilled :
    (b : Bool) (o p : Option (List String))
    → IsFilled o
    → IsFilled p
    → IsFilled (if b then o else p)
if-IsFilled true o p f g = f
if-IsFilled false o p f g = g

module _ (j : String) where
  add-IsFilled :
      (k v : String) (dst : Header) → IsFilled (lookup j dst) → IsFilled (lookup j (add k v dst))
  unfolding add
  add-IsFilled k v dst f =
      subst IsFilled (sym (lookup-insert (canonical k) j (values k dst ++ v ∷ []) dst))
        (if-IsFilled (canonical k == j) _ _ (snoc-IsFilled (values k dst) v) f)

  add_values-IsFilled :
      (k : String) (vs : List String) (dst : Header)
      → IsFilled (lookup j dst)
      → IsFilled (lookup j (add_values k vs dst))
  unfolding add_values
  add_values-IsFilled k [] dst f = f
  add_values-IsFilled k (v ∷ vs) dst f =
      add_values-IsFilled k vs (add k v dst) (add-IsFilled k v dst f)

  copy_header-IsFilled :
      (dst src : Header) → IsFilled (lookup j dst) → IsFilled (lookup j (copy_header dst src))
  unfolding copy_header
  copy_header-IsFilled dst [] f = f
  copy_header-IsFilled dst ((k, vv) ∷ src) f =
      copy_header-IsFilled (add_values k vv dst) src (add_values-IsFilled k vv dst f)

set-IsFilled :
    (j k v : String) (h : Header) → IsFilled (lookup j h) → IsFilled (lookup j (set k v h))
unfolding set
set-IsFilled j k v h f =
    subst IsFilled (sym (lookup-insert (canonical k) j (v ∷ []) h))
      (if-IsFilled (canonical k == j) _ _ tt f)

-- The text for the values before and the address.
abbrev pub folded : List String → String → String
folded [] client = client
folded (v ∷ vs) client = append (join (v ∷ vs) ", ") (append ", " client)

fold_prior-folded :
    (o : Option (List String)) (client : String)
    → IsFilled o
    → fold_prior o client ≡ folded (values_or_nil o) client
fold_prior-folded none client f = refl
fold_prior-folded (some []) client f = absurd f
fold_prior-folded (some (v ∷ vs)) client f = refl

out_header-shared : (x : Exchange) → x.ctx.copied_headers ≡ false → out_header x ≡ x.in_header
unfolding out_header
out_header-shared x e = rw e refl

-- An exchange before X-Forwarded-For is set: what its outgoing headers have under that name.
record Before (vs : List String) (req : Request) (x : Exchange) : Type 0 where
  canonical_names : IsCanonical x.in_header
  held : values "X-Forwarded-For" (out_header x) ≡ vs
  filled : x.ctx.copied_headers ≡ true → IsFilled (lookup "X-Forwarded-For" x.own_header)
  request : x.incoming ≡ req

ensured-IsFilled :
    (vs : List String) (req : Request) (x : Exchange)
    → Before vs req x
    → IsFilled (lookup "X-Forwarded-For" (out_header (ensure_writable_header x)))
unfolding ensure_writable_header out_header lookup
ensured-IsFilled vs req x h = elim (Bool-cases x.ctx.copied_headers) [
  | inl e ↦ rw e (h.filled e)
  | inr e ↦ rw e (copy_header-IsFilled "X-Forwarded-For" [] x.in_header tt)
]

set_out-Before :
    (vs : List String) (req : Request) (k v : String) (x : Exchange)
    → (canonical k == canonical "X-Forwarded-For") ≡ false
    → Before vs req x
    → Before vs req (set_out k v x)
unfolding set_out canonical
set_out-Before vs req k v x other h = record {
  canonical_names = rw (write_out-in_header (set k v) x) h.canonical_names;
  held =
      ap (values "X-Forwarded-For") (out_header-write_out (set k v) (ensure_writable_header x))
      ∙ values-set k "X-Forwarded-For" v (out_header (ensure_writable_header x))
      ∙ rw other (values-ensure "X-Forwarded-For" x h.canonical_names ∙ h.held);
  filled = λ e.
      subst (λ g. IsFilled (lookup "X-Forwarded-For" g)) (sym (written-own (set k v) x))
        (set-IsFilled "X-Forwarded-For" k v _ (ensured-IsFilled vs req x h));
  request = set_out-incoming k v x ∙ h.request;
}

when_kept :
    (I : Exchange → Type 0) (b : Bool) (f : Exchange → Exchange) (x : Exchange)
    → ((y : Exchange) → I y → I (f y))
    → I x
    → I (when b f x)
when_kept I true f x keeps h = keeps x h
when_kept I false f x keeps h = h

-- The text that the step writes.
client-folded :
    (vs : List String) (req : Request) (client : String) (x : Exchange)
    → Before vs req x
    → fold_prior (lookup "X-Forwarded-For" (out_header (ensure_writable_header x))) client
      ≡ folded vs client
unfolding values canonical
client-folded vs req client x h =
    fold_prior-folded (lookup "X-Forwarded-For" (out_header (ensure_writable_header x))) client
      (ensured-IsFilled vs req x h)
    ∙ ap (λ ws. folded ws client) (values-ensure "X-Forwarded-For" x h.canonical_names ∙ h.held)

-- The step that sets it.
forward_for-starts :
    (vs : List String) (req : Request) (client port : String) (x : Exchange)
    → split_host_port req.remote_addr ≡ some (client, port)
    → Before vs req x
    → Holds "X-Forwarded-For" (folded vs client ∷ []) req (forward_for x)
unfolding forward_for
forward_for-starts vs req client port x split h =
    let from_client = ap (λ (q : Request). split_host_port q.remote_addr) h.request ∙ split in
    let text =
      fold_prior (lookup "X-Forwarded-For" (out_header (ensure_writable_header x))) client in
    rw (from_client, forward_for)
      (record {
        copied = written-copied (set "X-Forwarded-For" text) x;
        held =
            rw
              (
                written-own (set "X-Forwarded-For" text) x,
                values-set "X-Forwarded-For" "X-Forwarded-For" text
                    (out_header (ensure_writable_header x)),
                eq_refl,
              )
              (ap (λ t. t ∷ []) (client-folded vs req client x h));
        request = written-incoming (set "X-Forwarded-For" text) x ∙ h.request;
      })

module _ (lib : UrlLib) (server : String) (cfg : ProxyPassConfig) where
  -- From the fourth step on.
  rewrite_steps-holds :
      (vs : List String) (req : Request) (client port : String) (x : Exchange)
      → cfg.x_fwd_for ≡ true
      → split_host_port req.remote_addr ≡ some (client, port)
      → Before vs req x
      → values "X-Forwarded-For" (out_header (rewrite_steps lib cfg x)) ≡ folded vs client ∷ []
  unfolding rewrite_steps canonical
  rewrite_steps-holds vs req client port x on split h =
      let holds = Holds "X-Forwarded-For" (folded vs client ∷ []) req in
      ap
        (λ z. values "X-Forwarded-For" (
          out_header (
            when cfg.rewrite_forward (rewrite_destination lib)
              (when cfg.rewrite_host rewrite_host z))))
        (when-on cfg.x_fwd_for forward_for x on)
      ∙ Holds-values _ _ req _ (
          when_kept holds cfg.rewrite_forward (rewrite_destination lib) _
            (λ z k. rewrite_destination-Holds _ _ _ lib z refl k)
            (when_kept holds cfg.rewrite_host rewrite_host _ (rewrite_host-Holds _ _ _)
              (forward_for-starts vs req client port x split h)))

  -- If X-Forwarded-For is switched on, the address of the client can be read, and the incoming
  -- headers have canonical names, each once, and are not copied yet: whatever else is switched on,
  -- the outgoing request has one value of X-Forwarded-For, which is the values of the incoming
  -- request, parted by a comma and a space, and after them the address of the client.
  pub proxy_pass_process_client :
      (client port : String) (x : Exchange)
      → cfg.x_fwd_for ≡ true
      → split_host_port x.incoming.remote_addr ≡ some (client, port)
      → IsCanonical x.in_header
      → x.ctx.copied_headers ≡ false
      → values "X-Forwarded-For" (out_header (proxy_pass_process lib server cfg x).1)
        ≡ folded (values "X-Forwarded-For" x.in_header) client ∷ []
  unfolding proxy_pass_process server_steps proto_steps canonical
  proxy_pass_process_client client port x on split i fresh =
      let vs = values "X-Forwarded-For" x.in_header in
      let start : Before vs x.incoming x = record {
        canonical_names = i;
        held = ap (values "X-Forwarded-For") (out_header-shared x fresh);
        filled = λ e. absurd (cc (e, fresh));
        request = refl;
      } in
      rewrite_steps-holds vs x.incoming client port _ on split (
        when_kept (Before vs x.incoming) cfg.x_fwd_proto _ _
          (λ y h.
            set_out-Before vs x.incoming "X-Forwarded-Proto" (scheme_of y.incoming.tls) y refl h)
          (when_kept (Before vs x.incoming) cfg.x_fwd_server _ _
            (λ y h. set_out-Before vs x.incoming "X-Forwarded-Server" server y refl h)
            (when_kept (Before vs x.incoming) cfg.x_fwd_host _ _
              (λ y h. set_out-Before vs x.incoming "X-Forwarded-Host" y.incoming.host y refl h)
              start)))
