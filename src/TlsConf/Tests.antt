-- ===== src/TlsConf/Tests.antt =====
-- TLS configurations from small specifications.
use ozone.Prelude.{ℕ, ◌≡◌, refl, true, false, List, [], ◌∷◌, none, some}
use ozone.Prelude.Text.{split}
use ozone.Prelude.Result.{fails, gives}
use ozone.TlsConf.{
  TlsLib, TlsConfig, TlsServerConfig, verify_client_cert_if_given, get_tls_server_config,
}
use ozone.TlsConf.Laws.{IsMadeFrom, get_tls_server_config_lem}
use ozone.TlsConf.Ciphers.{hex_ciphers, openssl_ciphers, hex_digits}
use ozone.TlsConf.Ciphers.Laws.{openssl_ciphers_lem}

abbrev suite : List ℕ
suite = 49199 ∷ 60 ∷ []

hex_given : hex_ciphers ("c02F" ∷ "3c" ∷ []) ≡ gives suite
unfolding hex_ciphers hex_digits
hex_given = refl

openssl_ciphers_example : openssl_ciphers (("C0", "2F") ∷ ("00", "3C") ∷ []) ≡ gives suite
openssl_ciphers_example = openssl_ciphers_lem (("C0", "2F") ∷ ("00", "3C") ∷ []) suite refl

-- A certificate is the number of its files.
abbrev lib : TlsLib
lib = record {
  Cert = ℕ;
  read_file = λ f. gives f;
  certs_of_pem = λ pem. some (7 ∷ []);
  load_pair = λ crt key. gives 2;
  openssl = λ spec. fails "no openssl";
}

abbrev cfg : TlsServerConfig
cfg = record {
  certificates = ("www", record { key_pem_file = "key.pem"; crt_pem_file = "crt.pem" }) ∷ [];
  cipher_suites = some (record { format = "hex"; spec = gives "c02F 3c" });
  client_cas = ("ca", "ca.pem") ∷ [];
  client_auth_type = "VerifyClientCertIfGiven";
  client_session_cache_size = 0;
  prefer_server_cipher_suites = true;
  min_version = "TLSv11";
  max_version = "";
}

abbrev tls : TlsConfig ℕ
tls = record {
  min = 770;
  max = 0;
  ciphers = suite;
  certificates = 2 ∷ [];
  cas = 7 ∷ [];
  client_auth = verify_client_cert_if_given;
  session_cache = none;
  insecure_skip_verify = false;
  prefer_server_cipher_suites = true;
  server_name = "";
}

made : get_tls_server_config lib (some cfg) ≡ gives (some tls)
unfolding get_tls_server_config hex_digits split
made = refl

get_tls_server_config_example : IsMadeFrom lib cfg tls
get_tls_server_config_example = get_tls_server_config_lem lib cfg tls made
