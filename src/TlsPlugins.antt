-- ===== src/TlsPlugins.antt =====
-- server.go, from line 161 on: the registry of TLS plugins, and the TLS configuration of a server
-- with its plugin. What plugins do is a parameter.
pub mod Laws
mod Tests
use ozone.Prelude.{
  ℕ, String, ◌==◌, Bool, true, false, not, ◌&&◌, ◌||◌, Option, none, some, List, [], ◌∷◌, ◌++◌,
  if◌then◌else◌, is_some,
}
use ozone.Prelude.Text.{append, is_empty, has_prefix}
use ozone.Prelude.Dict.{Dict, lookup, insert}
use ozone.Prelude.Outcome.{Outcome, returns, panics, ◌>>=◌}
use ozone.Prelude.Result.{Result, fails, gives, and_then}

-- config.TLSPluginConfig; the configuration is its raw JSON.
pub record TlsPluginConfig : Type 0 where
  pub kind : String
  pub plugin : String
  pub config : Option String

-- config.TLSServerConfig, apart from what tlsconf reads.
pub record TlsPluginUse : Type 0 where
  pub enable_external_sni : Bool
  pub tls_plugin : String

module _ (Conf : Type 0) where
  -- A callback that changes a *tls.Config; after an error nobody looks at it again.
  abbrev pub Callback : Type 0
  Callback = Conf → Result Conf

  -- The four results of a TLSPluginConfigureFunc; the numbers tell services and cleanups apart.
  pub record Configured : Type 0 where
    pub callback : Option Callback
    pub servers : List ℕ
    pub cleanups : List ℕ
    pub err : Option String

  abbrev pub TlsPluginConfigureFunc : Type 0
  TlsPluginConfigureFunc = String → Option String → Configured

  -- What filepath.Abs, plugin.Open and Lookup("TLSPluginTypes") give for a file. An opened plugin
  -- may have registered types; the type assertion may panic, and the map may be nil.
  pub data Opened : Type 0 where
    refused : String → Opened
    untyped : Dict TlsPluginConfigureFunc → Opened
    mistyped : Opened
    nil_map : Dict TlsPluginConfigureFunc → Opened
    typed : Dict TlsPluginConfigureFunc → Dict TlsPluginConfigureFunc → Opened

  -- tlsPluginRegistry, with the registered types.
  pub record TlsPluginRegistry : Type 0 where
    pub dir : String
    pub cfg : Dict TlsPluginConfig
    pub callbacks : Dict Callback
    pub services : List ℕ
    pub cleanups : List ℕ
    pub types : Dict TlsPluginConfigureFunc

  -- RegisterTLSPluginType
  unfoldable pub register_tls_plugin_type :
      String → TlsPluginConfigureFunc → Dict TlsPluginConfigureFunc → Dict TlsPluginConfigureFunc
  unfolding insert
  register_tls_plugin_type typename f types = insert typename f types

  -- newTLSPluginRegistry; `path` is TLSPLUGINPATH.
  unfoldable pub new_tls_plugin_registry :
      (path : String)
      → Dict TlsPluginConfigureFunc
      → String
      → Dict TlsPluginConfig
      → Option String
      → TlsPluginRegistry
  unfolding insert
  new_tls_plugin_registry path types plugindir cfg default = record {
    dir = if is_empty plugindir then path else plugindir;
    cfg = insert "" (record { kind = ""; plugin = "default_sni.so"; config = default }) cfg;
    callbacks = [];
    services = [];
    cleanups = [];
    types = types;
  }

  -- The callback, which may be nil, and the error.
  pub record Found : Type 0 where
    pub callback : Option Callback
    pub err : Option String

  abbrev failed : String → TlsPluginRegistry → Outcome (Found × TlsPluginRegistry)
  failed e r = returns (record { callback = none; err = some e }, r)

  -- The end of getTLSPlugin, from the call of the initialiser on.
  unfoldable pub instantiate :
      String
      → TlsPluginConfig
      → Option TlsPluginConfigureFunc
      → TlsPluginRegistry
      → Outcome (Found × TlsPluginRegistry)
  instantiate name cfg none r = failed "No TLS plugin initializer" r
  instantiate name cfg (some f) r =
      let c = f name cfg.config in
      elim c.err [
        | some e ↦ returns (record { callback = c.callback; err = some e }, r)
        | none ↦ returns (
          record { callback = c.callback; err = none },
          record r { services = r.services ++ c.servers; cleanups = r.cleanups ++ c.cleanups },
        )
      ]

  -- The name of the plugin's file, in the plugin directory if it is relative.
  unfoldable pub plugin_file : String → String → Result String
  plugin_file dir plugin =
      if has_prefix b'/' plugin
      then gives plugin
      else if is_empty dir
      then fails "Can't create absolute path for TLS Plugin. Set TLSPluginDir in config"
      else gives (append dir (append "/" plugin))

  abbrev pub from_opened :
      String → TlsPluginConfig → Opened → TlsPluginRegistry → Outcome (Found × TlsPluginRegistry)
  from_opened name cfg (refused e) r = failed e r
  from_opened name cfg (untyped types) r =
      instantiate name cfg (lookup cfg.kind types) (record r { types = types })
  from_opened name cfg mistyped r = panics
  from_opened name cfg (nil_map types) r =
      failed "Defect TLS plugin type map" (record r { types = types })
  from_opened name cfg (typed types m) r =
      instantiate name cfg (lookup cfg.kind m) (record r { types = types })

  abbrev pub from_file :
      (opens : String → Opened)
      → String
      → TlsPluginConfig
      → Result String
      → TlsPluginRegistry
      → Outcome (Found × TlsPluginRegistry)
  from_file opens name cfg (fails e) r = failed e r
  from_file opens name cfg (gives file) r = from_opened name cfg (opens file) r

  -- getTLSPlugin
  unfoldable pub get_tls_plugin :
      (opens : String → Opened) → String → TlsPluginRegistry → Outcome (Found × TlsPluginRegistry)
  unfolding lookup instantiate plugin_file
  get_tls_plugin opens name r = elim (lookup name r.callbacks) [
    | some cb ↦ returns (record { callback = some cb; err = none }, r)
    | none ↦ elim (lookup name r.cfg) [
      | none ↦ returns (record { callback = none; err = none }, r)
      | some cfg ↦
          if (not (cfg.kind == "") || not (is_some (lookup cfg.kind r.types)))
            && not (is_empty cfg.plugin)
          then from_file opens name cfg (plugin_file r.dir cfg.plugin) r
          else instantiate name cfg (lookup cfg.kind r.types) r
    ]
  ]

  -- From the plugin on; a plugin that is not found ends the daemon.
  abbrev pub apply_found :
      Conf → Found × TlsPluginRegistry → Outcome (Result (Option Conf) × TlsPluginRegistry)
  apply_found tc (found, r) = elim found.err [
    | some e ↦ returns (fails e, r)
    | none ↦ elim found.callback [
      | none ↦ panics
      | some f ↦ returns (and_then (f tc) (λ tc'. gives (some tc')), r)
    ]
  ]

  -- getTLSServerConfigWithPlugin, for what GetTLSServerConfig gave.
  unfoldable pub get_tls_server_config_with_plugin :
      (opens : String → Opened)
      → Result (Option Conf)
      → TlsPluginUse
      → TlsPluginRegistry
      → Outcome (Result (Option Conf) × TlsPluginRegistry)
  unfolding get_tls_plugin
  get_tls_server_config_with_plugin opens (fails e) cfg r = returns (fails e, r)
  get_tls_server_config_with_plugin opens (gives none) cfg r = returns (gives none, r)
  get_tls_server_config_with_plugin opens (gives (some tc)) cfg r =
      if cfg.enable_external_sni || not (is_empty cfg.tls_plugin)
      then get_tls_plugin opens cfg.tls_plugin r >>= apply_found tc
      else returns (gives (some tc), r)
