-- ===== src/TlsConf.antt =====
-- tlsconf/tls.go: the TLS configurations of servers and clients. The files, the certificate parser,
-- the JSON parser and the openssl command are parameters.
pub mod Ciphers
pub mod Names
pub mod Certificates
pub mod Laws
mod Tests
use ozone.Prelude.{
  ℕ, String, ◌==◌, Bool, true, false, Option, none, some, List, [], ◌∷◌, ◌++◌, if◌then◌else◌,
  nat_eq,
}
use ozone.Prelude.Text.{append, is_empty}
use ozone.Prelude.Dict.{Dict}
use ozone.Prelude.Result.{Result, fails, gives, and_then}
use ozone.TlsConf.Ciphers.{CipherConfig, get_ciphers}

-- The constants of crypto/tls; 0 leaves the choice to that package.
unfoldable pub version_string_to_version : String → Result ℕ
version_string_to_version str =
    if str == ""
    then gives 0
    else if str == "SSLv30"
    then gives 768
    else if str == "TLSv10"
    then gives 769
    else if str == "TLSv11"
    then gives 770
    else if str == "TLSv12"
    then gives 771
    else fails (append "Unknown TLS version. Not in ( SSLv30, TLSv1[012] ): " str)

unfoldable pub version_strings_to_versions : String → String → Result (ℕ × ℕ)
unfolding version_string_to_version
version_strings_to_versions strmin strmax =
    and_then (version_string_to_version strmin)
      λ vmin. and_then (version_string_to_version strmax) λ vmax. gives (vmin, vmax)

pub record CertConfig : Type 0 where
  pub key_pem_file : String
  pub crt_pem_file : String

-- tls.ClientAuthType
pub data ClientAuth : Type 0 where
  no_client_cert : ClientAuth
  request_client_cert : ClientAuth
  require_any_client_cert : ClientAuth
  verify_client_cert_if_given : ClientAuth
  require_and_verify_client_cert : ClientAuth

unfoldable pub client_auth_type : String → Result ClientAuth
client_auth_type str =
    if str == ""
    then gives no_client_cert
    else if str == "NoClientCert"
    then gives no_client_cert
    else if str == "RequestClientCert"
    then gives request_client_cert
    else if str == "RequireAnyClientCert"
    then gives require_any_client_cert
    else if str == "VerifyClientCertIfGiven"
    then gives verify_client_cert_if_given
    else if str == "RequireAndVerifyClientCert"
    then gives require_and_verify_client_cert
    else fails (append "Invalid ClientAuthType: " (append str " (See Go tls docs)"))

pub record TlsClientConfig : Type 0 where
  pub root_cas : Dict String
  pub insecure_skip_verify : Bool
  pub certificates : Dict CertConfig
  pub cipher_suites : Option CipherConfig
  pub min_version : String
  pub max_version : String
  pub server_name : String

pub record TlsServerConfig : Type 0 where
  pub certificates : Dict CertConfig
  pub cipher_suites : Option CipherConfig
  pub client_cas : Dict String
  pub client_auth_type : String
  pub client_session_cache_size : ℕ
  pub prefer_server_cipher_suites : Bool
  pub min_version : String
  pub max_version : String

-- The certificates, and what the configurations need from outside: ioutil.ReadFile,
-- AppendCertsFromPEM (`none` if it finds no certificate), LoadX509KeyPair of a certificate and a
-- key file, and the cipher lines that `openssl ciphers -V` prints for a specification.
pub record TlsLib : Type 1 where
  pub Cert : Type 0
  pub read_file : String → Result String
  pub certs_of_pem : String → Option (List Cert)
  pub load_pair : String → String → Result Cert
  pub openssl : String → Result (List (String × String))

-- A tls.Config, as far as this package fills it.
pub record TlsConfig (Cert : Type 0) : Type 0 where
  pub min : ℕ
  pub max : ℕ
  pub ciphers : List ℕ
  pub certificates : List Cert
  pub cas : List Cert
  pub client_auth : ClientAuth
  pub session_cache : Option ℕ
  pub insecure_skip_verify : Bool
  pub prefer_server_cipher_suites : Bool
  pub server_name : String

module _ (lib : TlsLib) where
  abbrev pub appended : String → Option (List lib.Cert) → List lib.Cert → Result (List lib.Cert)
  appended file none pool = fails (append "Unable to load certs' PEM file for CA " file)
  appended file (some cs) pool = gives (pool ++ cs)

  abbrev pub or_unread : String → Result String → Result String
  or_unread file (gives pem) = gives pem
  or_unread file (fails e) = fails (append "Unable to read CA file " (append file (append " : " e)))

  -- The loop of getCaPool over the files.
  unfoldable pub ca_pool_from : Dict String → List lib.Cert → Result (List lib.Cert)
  ca_pool_from [] pool = gives pool
  ca_pool_from ((name, file) ∷ files) pool =
      and_then (or_unread file (lib.read_file file)) λ pem.
        and_then (appended file (lib.certs_of_pem pem) pool) λ pool'. ca_pool_from files pool'

  unfoldable pub get_ca_pool : Dict String → Result (List lib.Cert)
  unfolding ca_pool_from
  get_ca_pool files = ca_pool_from files []

  -- The text of the error names the certificate file twice.
  abbrev pub or_unloaded : CertConfig → Result lib.Cert → Result lib.Cert
  or_unloaded cert (gives c) = gives c
  or_unloaded cert (fails e) = fails (
      append "Unable to load certificate/key file "
        (append cert.crt_pem_file (append " / " (append cert.crt_pem_file (append " " e)))))

  abbrev pub loaded : CertConfig → Result lib.Cert
  loaded cert = or_unloaded cert (lib.load_pair cert.crt_pem_file cert.key_pem_file)

  -- The loop over the certificates, which both configurations have.
  unfoldable pub load_certificates : Dict CertConfig → Result (List lib.Cert)
  load_certificates [] = gives []
  load_certificates ((name, cert) ∷ certs) =
      and_then (loaded cert) λ c. and_then (load_certificates certs) λ cs. gives (c ∷ cs)

  abbrev client_ciphers : Option CipherConfig → Result (List ℕ)
  client_ciphers none = gives []
  client_ciphers (some c) = get_ciphers lib.openssl (some c)

  -- GetTLSClientConfig: a nil configuration gives nil, without an error.
  unfoldable pub get_tls_client_config :
      Option TlsClientConfig → Result (Option (TlsConfig lib.Cert))
  unfolding version_strings_to_versions get_ciphers get_ca_pool load_certificates
  get_tls_client_config none = gives none
  get_tls_client_config (some cfg) =
      and_then (version_strings_to_versions cfg.min_version cfg.max_version) λ v.
        and_then (client_ciphers cfg.cipher_suites) λ ciphers.
          and_then (get_ca_pool cfg.root_cas) λ cas.
            and_then (load_certificates cfg.certificates) λ certs. gives (
              some (record {
                min = v.0;
                max = v.1;
                ciphers = ciphers;
                certificates = certs;
                cas = cas;
                client_auth = no_client_cert;
                session_cache = none;
                insecure_skip_verify = cfg.insecure_skip_verify;
                prefer_server_cipher_suites = false;
                server_name = cfg.server_name;
              }))

  -- GetTLSServerConfig
  unfoldable pub get_tls_server_config :
      Option TlsServerConfig → Result (Option (TlsConfig lib.Cert))
  unfolding version_strings_to_versions get_ciphers get_ca_pool load_certificates client_auth_type
  get_tls_server_config none = gives none
  get_tls_server_config (some cfg) =
      and_then (version_strings_to_versions cfg.min_version cfg.max_version) λ v.
        and_then (get_ciphers lib.openssl cfg.cipher_suites) λ ciphers.
          and_then (load_certificates cfg.certificates) λ certs.
            and_then (get_ca_pool cfg.client_cas) λ cas.
              and_then (client_auth_type cfg.client_auth_type) λ auth. gives (
                some (record {
                  min = v.0;
                  max = v.1;
                  ciphers = ciphers;
                  certificates = certs;
                  cas = cas;
                  client_auth = auth;
                  session_cache =
                      if nat_eq cfg.client_session_cache_size 0
                      then none
                      else some cfg.client_session_cache_size;
                  insecure_skip_verify = false;
                  prefer_server_cipher_suites = cfg.prefer_server_cipher_suites;
                  server_name = "";
                }))
