-- ===== src/TlsPlugins/Tests.antt =====
-- A registry with one registered type, and the theorems at it. A configuration is a number.
use ozone.Prelude.{ℕ, suc, String, ◌≡◌, refl, false, [], ◌∷◌, none, some}
use ozone.Prelude.Dict.{lookup, insert}
use ozone.Prelude.Outcome.{returns, ◌>>=◌, Ends}
use ozone.Prelude.Result.{gives}
use ozone.TlsPlugins.{
  TlsPluginConfig, TlsPluginConfigureFunc, Opened, refused, TlsPluginRegistry,
  new_tls_plugin_registry, get_tls_plugin, get_tls_server_config_with_plugin,
}
use ozone.TlsPlugins.Laws.{Settled, get_tls_plugin-Settled, get_tls_plugin_twice}

abbrev no_files : String → Opened ℕ
no_files file = refused "no such file"

abbrev sni : TlsPluginConfigureFunc ℕ
sni name cfg = record {
  callback = some (λ n. gives (suc n));
  servers = 1 ∷ [];
  cleanups = 2 ∷ [];
  err = none;
}

abbrev entry : TlsPluginConfig
entry = record { kind = "sni"; plugin = ""; config = none }

abbrev registry : TlsPluginRegistry ℕ
registry = new_tls_plugin_registry ℕ "/plugins" (("sni", sni) ∷ []) "" (("a", entry) ∷ []) none

applied :
    get_tls_server_config_with_plugin ℕ no_files
      (gives (some 4))
      (record { enable_external_sni = false; tls_plugin = "a" })
      registry
    ≡ returns (gives (some 5), record registry { services = 1 ∷ []; cleanups = 2 ∷ [] })
unfolding get_tls_server_config_with_plugin new_tls_plugin_registry lookup insert
applied = refl

get_tls_plugin-Settled_example : Ends (Settled registry) (get_tls_plugin ℕ no_files "" registry)
get_tls_plugin-Settled_example = get_tls_plugin-Settled no_files "" registry

get_tls_plugin_twice_example :
    (get_tls_plugin ℕ no_files "a" registry >>= λ (found, r). get_tls_plugin ℕ no_files "a" r)
    ≡ returns (
      record { callback = some (λ n. gives (suc n)); err = none },
      record registry { services = 1 ∷ 1 ∷ []; cleanups = 2 ∷ 2 ∷ [] },
    )
unfolding new_tls_plugin_registry lookup insert
get_tls_plugin_twice_example =
    get_tls_plugin_twice no_files "a" entry sni registry refl refl refl refl refl
