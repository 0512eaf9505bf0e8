-- ===== src/Proxy/Serve/Laws.antt =====
-- What ServeHTTP sends to the backend and to the client.
use ozone.Prelude.{
  ◌≡◌, ◌≢◌, refl, sym, ap, ◌∙◌, inl, inr, true, ◌||◌, Bool-cases, none, List, [], ◌∷◌, ◌++◌, arith,
  is_some,
}
use ozone.Prelude.Outcome.{Ends}
use ozone.Http.Header.{Header}
use ozone.Rproxymod.{Exchange, ProxyModule}
use ozone.Proxy.Serve.{Env, Chained, failed, replied, passed, run_modules, serve_chain}

-- The module answers: with a response or an error.
abbrev pub Answers : ProxyModule → Exchange → Type 0
Answers m y =
    (is_some (m.process_request y).0.response || is_some (m.process_request y).0.err) ≡ true

run_modules-append :
    (before ms : List ProxyModule) (x y : Exchange)
    → run_modules before x ≡ passed y
    → run_modules (before ++ ms) x ≡ run_modules ms y
unfolding run_modules
run_modules-append [] ms x y e = ap (run_modules ms) (ground arith)
run_modules-append (m ∷ before) ms x y e =
    ground (arith, run_modules-append before ms (m.process_request x).1 y)

run_modules_answer :
    (m : ProxyModule) (after : List ProxyModule) (y : Exchange)
    → Answers m y
    → run_modules (m ∷ after) y ≡ run_modules (m ∷ []) y
unfolding run_modules
run_modules_answer m after y a = ground arith

run_modules-ne-passed :
    (m : ProxyModule) (y z : Exchange) → Answers m y → run_modules (m ∷ []) y ≢ passed z
unfolding run_modules
run_modules-ne-passed m y z a = ground arith

chain_not_forwarded :
    (env : Env) (ms : List ProxyModule) (h : Header) (x : Exchange)
    → ((z : Exchange) → run_modules ms x ≢ passed z)
    → Ends (λ s. s.forwarded ≡ none) (serve_chain env ms h x)
unfolding serve_chain
chain_not_forwarded env ms h x n = go (run_modules ms x) refl
  where
    go :
        (c : Chained)
        → run_modules ms x ≡ c
        → Ends (λ s. s.forwarded ≡ none) (serve_chain env ms h x)
    go (failed e) q = rw (q, serve_chain) refl
    go (replied res) q = elim (Bool-cases env.client_gone) [
      | inl g ↦ rw (q, serve_chain) (rw g refl)
      | inr g ↦ rw (q, serve_chain) (rw g refl)
    ]
    go (passed z) q = absurd (n z q)

serve_chain-cong :
    (env : Env) (ms ns : List ProxyModule) (h : Header) (x : Exchange)
    → run_modules ms x ≡ run_modules ns x
    → ((z : Exchange) → run_modules ns x ≢ passed z)
    → serve_chain env ms h x ≡ serve_chain env ns h x
unfolding serve_chain
serve_chain-cong env ms ns h x e n = go (run_modules ns x) refl
  where
    go : (c : Chained) → run_modules ns x ≡ c → serve_chain env ms h x ≡ serve_chain env ns h x
    go (failed y) q = rw (e, q, serve_chain) refl
    go (replied res) q = rw (e, q, serve_chain) refl
    go (passed z) q = absurd (n z q)

-- If the modules before it pass the request on and a module answers it, by a response or an error,
-- then no request goes to the backend, and the modules after it change nothing of the outcome.
pub serve_chain_short :
    (env : Env) (before after : List ProxyModule) (m : ProxyModule) (h : Header) (x y : Exchange)
    → run_modules before x ≡ passed y
    → Answers m y
    → Ends (λ s. s.forwarded ≡ none) (serve_chain env (before ++ m ∷ after) h x)
      × (serve_chain env (before ++ m ∷ after) h x ≡ serve_chain env (before ++ m ∷ []) h x)
serve_chain_short env before after m h x y e a =
    let same = run_modules-append before (m ∷ after) x y e ∙ run_modules_answer m after y a in
    let alone = run_modules-append before (m ∷ []) x y e in
    let stops : (z : Exchange) → run_modules (before ++ m ∷ []) x ≢ passed z =
      λ z q. run_modules-ne-passed m y z a (sym alone ∙ q) in
    (
      chain_not_forwarded env (before ++ m ∷ after) h x
          (λ z q. run_modules-ne-passed m y z a (sym same ∙ q)),
      serve_chain-cong env (before ++ m ∷ after) (before ++ m ∷ []) h x (same ∙ sym alone) stops,
    )
