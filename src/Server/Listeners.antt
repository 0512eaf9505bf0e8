-- ===== src/Server/Listeners.antt =====
-- How newHTTPServer ends, and the listeners of the server that it makes.
use ozone.Prelude.{
  String, ◌≡◌, refl, inl, inr, true, false, not, ◌||◌, Bool-cases, Option-cases, Option, none, some,
  List, [], ◌∷◌, is_some,
}
use ozone.Prelude.Text.{is_empty}
use ozone.Prelude.Dict.{Dict}
use ozone.Prelude.Outcome.{Outcome, Ends, Ends->>=, Ends-map}
use ozone.Prelude.Result.{Result, fails, gives, and_then}
use ozone.TlsConf.{TlsLib, get_tls_server_config}
use ozone.TlsPlugins.{
  TlsPluginUse, Opened, TlsPluginRegistry, Found, get_tls_plugin, apply_found,
  get_tls_server_config_with_plugin,
}
use ozone.TlsPlugins.Laws.{Settled, get_tls_plugin-Settled}
use ozone.Server.Http.{
  TlsListenerConfig, ListenerConfig, HttpServerConfig, AuditHandler, Conf, Listener, HttpServer,
  listener_tls, after_tls, listener_of, make_listeners, listener_group, server_of, new_http_server,
}

abbrev pub Any {ℓ} : {A : Type ℓ} → A → Type 0
Any a = Unit

module _ {C : Type 0} where
  found-Ends :
      (tc : C) (found : Found C) (r : TlsPluginRegistry C) → Ends Any (apply_found C tc (found, r))
  found-Ends tc found r = elim (Option-cases found.err) [
    | inr (e, p) ↦ rw p tt
    | inl p ↦ elim (Option-cases found.callback) [
      | inl q ↦ rw (p, q) tt
      | inr (f, q) ↦ rw (p, q) tt
    ]
  ]

  plugin-Ends :
      (opens : String → Opened C) (base : Result (Option C)) (u : TlsPluginUse)
      (r : TlsPluginRegistry C)
      → Ends Any (get_tls_server_config_with_plugin C opens base u r)
  unfolding get_tls_server_config_with_plugin
  plugin-Ends opens (fails e) u r = tt
  plugin-Ends opens (gives none) u r = tt
  plugin-Ends opens (gives (some tc)) u r =
      elim (Bool-cases (u.enable_external_sni || not (is_empty u.tls_plugin))) [
        | inr off ↦ rw off tt
        | inl on ↦ rw on (
            Ends->>= (Settled r) Any (get_tls_plugin C opens u.tls_plugin r) (apply_found C tc)
              (get_tls_plugin-Settled opens u.tls_plugin r)
              (λ (found, r') _. found-Ends tc found r'))
      ]

module _ (tls : TlsLib) where
  -- The listener is that of its configuration, and one without a TLS section has no TLS.
  abbrev pub IsListener : ListenerConfig → Listener tls → Type 0
  IsListener l x =
      (conf : Option (Conf tls)) × (x ≡ listener_of tls l conf)
      × (is_some l.tls ≡ false → conf ≡ none)

  abbrev pub Listens : Dict ListenerConfig → List (Listener tls) → Type 0
  Listens [] [] = Unit
  Listens [] (x ∷ xs) = ⊥
  Listens ((name, l) ∷ rest) [] = ⊥
  Listens ((name, l) ∷ rest) (x ∷ xs) = IsListener l x × Listens rest xs

  -- A result without an error satisfies the predicate.
  abbrev pub IfGiven {ℓ κ} : {A : Type ℓ} {S : Type κ} → (A → Type 0) → Result A × S → Type 0
  IfGiven P (fails e, s) = Unit
  IfGiven P (gives a, s) = P a

  tls-Ends :
      (opens : String → Opened (Conf tls)) (t : Option TlsListenerConfig)
      (r : TlsPluginRegistry (Conf tls))
      → Ends (IfGiven (λ conf. is_some t ≡ false → conf ≡ none)) (listener_tls tls opens t r)
  unfolding listener_tls
  tls-Ends opens none r = λ h. refl
  tls-Ends opens (some c) r =
      Ends-map Any (IfGiven (λ conf. true ≡ false → conf ≡ none)) _ no_claim
        (plugin-Ends opens (get_tls_server_config tls (some c.server)) c.plugin r)
    where
      no_claim :
          (a : Result (Option (Conf tls)) × TlsPluginRegistry (Conf tls))
          → Any a
          → IfGiven (λ conf. true ≡ false → conf ≡ none) a
      no_claim (fails e, s) u = tt
      no_claim (gives conf, s) u = λ h. cc

  listener-Ends :
      (name : String) (l : ListenerConfig) (rest : Dict ListenerConfig)
      (more : TlsPluginRegistry (Conf tls)
        → Outcome (Result (List (Listener tls)) × TlsPluginRegistry (Conf tls)))
      → ((r : TlsPluginRegistry (Conf tls)) → Ends (IfGiven (Listens rest)) (more r))
      → (a : Result (Option (Conf tls)) × TlsPluginRegistry (Conf tls))
      → IfGiven (λ conf. is_some l.tls ≡ false → conf ≡ none) a
      → Ends (IfGiven (Listens ((name, l) ∷ rest))) (after_tls tls more l a)
  unfolding after_tls
  listener-Ends name l rest more ih (fails e, r) h = tt
  listener-Ends name l rest more ih (gives c, r) h =
      Ends->>= (IfGiven (Listens rest)) (IfGiven (Listens ((name, l) ∷ rest))) (more r) _ (ih r)
        first
    where
      first :
          (a : Result (List (Listener tls)) × TlsPluginRegistry (Conf tls))
          → IfGiven (Listens rest) a
          → IfGiven
              (Listens ((name, l) ∷ rest))
              (and_then a.0 (λ xs. gives (listener_of tls l c ∷ xs)), a.1)
      first (fails e, s) u = tt
      first (gives xs, s) u = ((c, refl, h), u)

  listeners-Ends :
      (opens : String → Opened (Conf tls)) (m : Dict ListenerConfig)
      (r : TlsPluginRegistry (Conf tls))
      → Ends (IfGiven (Listens m)) (make_listeners tls opens m r)
  unfolding make_listeners
  listeners-Ends opens [] r = tt
  listeners-Ends opens ((name, l) ∷ rest) r =
      Ends->>= (IfGiven (λ conf. is_some l.tls ≡ false → conf ≡ none))
        (IfGiven (Listens ((name, l) ∷ rest))) (listener_tls tls opens l.tls r)
        (after_tls tls (make_listeners tls opens rest) l) (tls-Ends opens l.tls r)
        (listener-Ends name l rest (make_listeners tls opens rest) (listeners-Ends opens rest))

  -- The server has the name, the handler and, in their order, the listeners.
  abbrev pub IsServer : String → HttpServerConfig → AuditHandler → HttpServer tls → Type 0
  IsServer name cfg handler h =
      (h.name ≡ name)
      × (h.handler ≡ handler)
      × ((ls : List (Listener tls)) × (h.listeners ≡ listener_group tls ls)
          × Listens cfg.listeners ls)

  pub new_http_server-Ends :
      (opens : String → Opened (Conf tls)) (name : String) (cfg : HttpServerConfig)
      (r : TlsPluginRegistry (Conf tls)) (handler : AuditHandler)
      → Ends (IfGiven (IsServer name cfg handler)) (new_http_server tls opens name cfg r handler)
  unfolding new_http_server
  new_http_server-Ends opens name cfg r handler =
      Ends->>= (IfGiven (Listens cfg.listeners)) (IfGiven (IsServer name cfg handler))
        (make_listeners tls opens cfg.listeners r) _ (listeners-Ends opens cfg.listeners r) given
    where
      given :
          (a : Result (List (Listener tls)) × TlsPluginRegistry (Conf tls))
          → IfGiven (Listens cfg.listeners) a
          → IfGiven (IsServer name cfg handler) (server_of tls name cfg handler a.0, a.1)
      given (fails e, s) u = tt
      given (gives ls, s) u = (refl, refl, (ls, refl, u))
