-- ===== src/TlsConf/Laws.antt =====
-- What a TLS configuration of a server that is made without an error holds.
use ozone.Prelude.{
  ℕ, String, ◌≡◌, ◌⊎◌, inl, inr, refl, sym, ap, ◌∙◌, subst, Option, none, some, List, [], ◌∷◌,
  if◌then◌else◌, arith, nat_eq, String-cases,
}
use ozone.Prelude.Text.{split}
use ozone.Prelude.Dict.{lookup}
use ozone.Prelude.Result.{Result, gives, and_then-gives}
use ozone.TlsConf.{
  TlsLib, TlsConfig, TlsServerConfig, version_strings_to_versions, load_certificates, get_ca_pool,
  client_auth_type, get_tls_server_config,
}
use ozone.TlsConf.Ciphers.{CipherConfig, hex_ciphers, openssl_ciphers, from_lines, get_ciphers}
use ozone.TlsConf.Names.{version_names, auth_names, lookup-versions, lookup-auth}
use ozone.TlsConf.Certificates.{
  AreLoaded, ArePooled, load_certificates-AreLoaded, ca_pool_from-ArePooled,
}

-- The codes of the format "openssl" for what the command prints, at least one, or of the format "hex"
-- for the words of the specification.
abbrev pub AreCodes : (String → Result (List (String × String))) → CipherConfig → List ℕ → Type 0
AreCodes openssl c ns =
    (spec : String) × (c.spec ≡ gives spec)
    × (((c.format ≡ "openssl")
          × ((m : String × String) × (ms : List (String × String)) × (openssl spec ≡ gives (m ∷ ms))
              × (openssl_ciphers (m ∷ ms) ≡ gives ns)))
        ⊎ ((c.format ≡ "hex") × (hex_ciphers (split spec b' ') ≡ gives ns)))

from_lines-gives :
    (spec : String) (ls : List (String × String)) (ns : List ℕ)
    → from_lines spec ls ≡ gives ns
    → (m : String × String) × (ms : List (String × String)) × (ls ≡ m ∷ ms)
      × (openssl_ciphers (m ∷ ms) ≡ gives ns)
from_lines-gives spec [] ns e = cc
from_lines-gives spec (m ∷ ms) ns e = (m, ms, refl, e)

get_ciphers-AreCodes :
    (openssl : String → Result (List (String × String))) (o : Option CipherConfig) (ns : List ℕ)
    → get_ciphers openssl o ≡ gives ns
    → (c : CipherConfig) × (o ≡ some c) × AreCodes openssl c ns
unfolding get_ciphers
get_ciphers-AreCodes openssl none ns e = cc
get_ciphers-AreCodes openssl (some c) ns e = (
  c,
  refl,
  (elim (String-cases c.format "openssl") [
    | inl q ↦
        let (spec, p, e1) = and_then-gives c.spec _ (rw q at e) in
        let (ls, l, e2) = and_then-gives (openssl spec) _ e1 in
        let (m, ms, some_line, codes) = from_lines-gives spec ls ns e2 in
        (spec, p, inl (q, (m, ms, l ∙ ap gives some_line, codes)))
    | inr f ↦ elim (String-cases c.format "hex") [
      | inl q ↦
          let (spec, p, e1) = and_then-gives c.spec _ (rw (f, q) at e) in (spec, p, inr (q, e1))
      | inr g ↦ absurd (cc (rw (f, g) at e))
    ]
  ]),
)

abbrev pub size_of : Option ℕ → ℕ
size_of none = 0
size_of (some n) = n

made-injective {ℓ} : {A : Type ℓ} {a b : A} → gives (some a) ≡ gives (some b) → a ≡ b
made-injective e = cc

-- What the configuration is made of.
abbrev pub IsMadeFrom : (lib : TlsLib) → TlsServerConfig → TlsConfig lib.Cert → Type 0
IsMadeFrom lib cfg tc =
    (lookup cfg.min_version version_names ≡ some tc.min)
    × (lookup cfg.max_version version_names ≡ some tc.max)
    × ((c : CipherConfig) × (cfg.cipher_suites ≡ some c) × AreCodes lib.openssl c tc.ciphers)
    × (AreLoaded lib cfg.certificates tc.certificates)
    × (ArePooled lib cfg.client_cas tc.cas)
    × (lookup cfg.client_auth_type auth_names ≡ some tc.client_auth)
    × (size_of tc.session_cache ≡ cfg.client_session_cache_size)
    × (tc.prefer_server_cipher_suites ≡ cfg.prefer_server_cipher_suites)

session_size : (n : ℕ) → size_of (if nat_eq n 0 then none else some n) ≡ n
session_size n = ground arith

-- A server's configuration that is made without an error has the versions and the client
-- authentication that the tables give for the names in its specification; the codes of its cipher
-- specification, which there is; for each entry of a certificate the pair that is loaded from its
-- files, in order; all certificates of all files of client CAs, in order; and the size of the
-- session cache and the preference of the server's ciphers that the specification has.
pub get_tls_server_config_lem :
    (lib : TlsLib) (cfg : TlsServerConfig) (tc : TlsConfig lib.Cert)
    → get_tls_server_config lib (some cfg) ≡ gives (some tc)
    → IsMadeFrom lib cfg tc
unfolding get_tls_server_config get_ca_pool
get_tls_server_config_lem lib cfg tc e =
    let (v, pv, e1) =
      and_then-gives (version_strings_to_versions cfg.min_version cfg.max_version) _ e in
    let (ns, pn, e2) = and_then-gives (get_ciphers lib.openssl cfg.cipher_suites) _ e1 in
    let (certs, pc, e3) = and_then-gives (load_certificates lib cfg.certificates) _ e2 in
    let (cas, pa, e4) = and_then-gives (get_ca_pool lib cfg.client_cas) _ e3 in
    let (auth, pt, e5) = and_then-gives (client_auth_type cfg.client_auth_type) _ e4 in
    let (lo, hi) = lookup-versions cfg.min_version cfg.max_version v pv in
    let (rest, whole, pooled) = ca_pool_from-ArePooled lib cfg.client_cas [] cas pa in
    subst (IsMadeFrom lib cfg) (made-injective e5) (
      lo,
      hi,
      get_ciphers-AreCodes lib.openssl cfg.cipher_suites ns pn,
      load_certificates-AreLoaded lib cfg.certificates certs pc,
      subst (ArePooled lib cfg.client_cas) (sym whole) pooled,
      lookup-auth cfg.client_auth_type auth pt,
      session_size cfg.client_session_cache_size,
      refl,
    )
