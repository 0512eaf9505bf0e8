-- ===== src/TlsPlugins/Laws.antt =====
-- What the resolution of a TLS plugin leaves of the registry.
use ozone.Prelude.{
  String, ◌==◌, ◌≡◌, refl, inl, inr, Bool, true, false, not, ◌&&◌, ◌||◌, Option-cases, Option, none,
  some, ◌++◌, if◌then◌else◌, is_some,
}
use ozone.Prelude.Text.{is_empty}
use ozone.Prelude.Dict.{lookup}
use ozone.Prelude.Outcome.{returns, ◌>>=◌, Ends}
use ozone.Prelude.Result.{Result, fails, gives}
use ozone.TlsPlugins.{
  TlsPluginConfig, Configured, TlsPluginConfigureFunc, Opened, refused, untyped, mistyped, nil_map,
  typed, TlsPluginRegistry, Found, instantiate, plugin_file, from_opened, from_file, get_tls_plugin,
}

-- No file is opened for a type without one.
and_not : (a b : Bool) → b ≡ true → (a && not b) ≡ false
and_not true b e = rw e refl
and_not false b e = refl

module _ {Conf : Type 0} where
  -- The configurations and the callbacks are those from before, and so are, after an error, the
  -- services and the cleanups.
  abbrev pub Settled : TlsPluginRegistry Conf → Found Conf × TlsPluginRegistry Conf → Type 0
  Settled r (found, r') =
      (r'.cfg ≡ r.cfg)
      × (r'.callbacks ≡ r.callbacks)
      × (is_some found.err ≡ true → (r'.services ≡ r.services) × (r'.cleanups ≡ r.cleanups))

  instantiate-Settled :
      (name : String) (cfg : TlsPluginConfig) (f : Option (TlsPluginConfigureFunc Conf))
      (r : TlsPluginRegistry Conf)
      → Ends (Settled r) (instantiate Conf name cfg f r)
  unfolding instantiate
  instantiate-Settled name cfg none r = (refl, refl, λ _. (refl, refl))
  instantiate-Settled name cfg (some f) r = elim (Option-cases (f name cfg.config).err) [
    | inl e ↦ rw e (refl, refl, λ h. cc)
    | inr (m, e) ↦ rw e (refl, refl, λ _. (refl, refl))
  ]

  opened-Settled :
      (name : String) (cfg : TlsPluginConfig) (o : Opened Conf) (r : TlsPluginRegistry Conf)
      → Ends (Settled r) (from_opened Conf name cfg o r)
  opened-Settled name cfg (refused e) r = (refl, refl, λ _. (refl, refl))
  opened-Settled name cfg (untyped types) r =
      instantiate-Settled name cfg (lookup cfg.kind types) (record r { types = types })
  opened-Settled name cfg mistyped r = tt
  opened-Settled name cfg (nil_map types) r = (refl, refl, λ _. (refl, refl))
  opened-Settled name cfg (typed types m) r =
      instantiate-Settled name cfg (lookup cfg.kind m) (record r { types = types })

  file-Settled :
      (opens : String → Opened Conf) (name : String) (cfg : TlsPluginConfig) (file : Result String)
      (r : TlsPluginRegistry Conf)
      → Ends (Settled r) (from_file Conf opens name cfg file r)
  file-Settled opens name cfg (fails e) r = (refl, refl, λ _. (refl, refl))
  file-Settled opens name cfg (gives file) r = opened-Settled name cfg (opens file) r

  -- Whatever the name and the plugins, the resolution leaves the configurations and the map of
  -- callbacks as they were, and one that gives an error leaves the services and the cleanups.
  pub get_tls_plugin-Settled :
      (opens : String → Opened Conf) (name : String) (r : TlsPluginRegistry Conf)
      → Ends (Settled r) (get_tls_plugin Conf opens name r)
  unfolding get_tls_plugin
  get_tls_plugin-Settled opens name r = elim (Option-cases (lookup name r.callbacks)) [
    | inr (cb, e) ↦ rw (e, get_tls_plugin) (refl, refl, λ h. (refl, refl))
    | inl e ↦ elim (Option-cases (lookup name r.cfg)) [
      | inl q ↦ rw (e, q, get_tls_plugin) (refl, refl, λ h. (refl, refl))
      | inr (cfg, q) ↦ rw (e, q, get_tls_plugin) (branch cfg _)
    ]
  ]
    where
      branch :
          (cfg : TlsPluginConfig) (b : Bool)
          → Ends (Settled r) (
              if b
              then from_file Conf opens name cfg (plugin_file Conf r.dir cfg.plugin) r
              else instantiate Conf name cfg (lookup cfg.kind r.types) r)
      branch cfg true = file-Settled opens name cfg (plugin_file Conf r.dir cfg.plugin) r
      branch cfg false = instantiate-Settled name cfg (lookup cfg.kind r.types) r

  with_results : TlsPluginRegistry Conf → Configured Conf → TlsPluginRegistry Conf
  with_results r c = record r {
    services = r.services ++ c.servers;
    cleanups = r.cleanups ++ c.cleanups;
  }

  get-registered :
      (opens : String → Opened Conf) (name : String) (cfg : TlsPluginConfig)
      (f : TlsPluginConfigureFunc Conf) (r : TlsPluginRegistry Conf)
      → lookup name r.callbacks ≡ none
      → lookup name r.cfg ≡ some cfg
      → is_empty cfg.plugin ≡ true
      → lookup cfg.kind r.types ≡ some f
      → (f name cfg.config).err ≡ none
      → get_tls_plugin Conf opens name r
        ≡ returns (
          record { callback = (f name cfg.config).callback; err = none },
          with_results r (f name cfg.config),
        )
  unfolding with_results get_tls_plugin instantiate
  get-registered opens name cfg f r e q p t n =
      rw
        (
          e,
          q,
          and_not (not (cfg.kind == "") || not (is_some (lookup cfg.kind r.types)))
              (is_empty cfg.plugin) p,
          t,
          n,
          get_tls_plugin,
          instantiate,
        )
        refl

  -- For a registered type without a plugin file that is not in the map of callbacks and does not
  -- fail: each of two look-ups of the same name calls the initialiser, and adds its services and
  -- its cleanups once more.
  pub get_tls_plugin_twice :
      (opens : String → Opened Conf) (name : String) (cfg : TlsPluginConfig)
      (f : TlsPluginConfigureFunc Conf) (r : TlsPluginRegistry Conf)
      → lookup name r.callbacks ≡ none
      → lookup name r.cfg ≡ some cfg
      → is_empty cfg.plugin ≡ true
      → lookup cfg.kind r.types ≡ some f
      → (f name cfg.config).err ≡ none
      → (get_tls_plugin Conf opens name r >>= λ (found, r'). get_tls_plugin Conf opens name r')
        ≡ returns (
          record { callback = (f name cfg.config).callback; err = none },
          record r {
            services = (r.services ++ (f name cfg.config).servers) ++ (f name cfg.config).servers;
            cleanups = (r.cleanups ++ (f name cfg.config).cleanups) ++ (f name cfg.config).cleanups;
          },
        )
  unfolding with_results
  get_tls_plugin_twice opens name cfg f r e q p t n =
      let again = get-registered opens name cfg f (with_results r (f name cfg.config)) e q p t n in
      rw (get-registered opens name cfg f r e q p t n) again
