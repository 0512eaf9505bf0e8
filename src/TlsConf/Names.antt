-- ===== src/TlsConf/Names.antt =====
-- The names that a specification has for versions and for the authentication of clients.
use ozone.Prelude.{
  ℕ, String, ◌==◌, ◌≡◌, inl, inr, ap, ◌∙◌, false, some, [], ◌∷◌, eq_refl, if◌then◌else◌,
  String-cases,
}
use ozone.Prelude.Dict.{Dict, lookup}
use ozone.Prelude.Result.{Result, gives, fails, and_then-gives, gives-injective}
use ozone.TlsConf.{
  ClientAuth, no_client_cert, request_client_cert, require_any_client_cert,
  verify_client_cert_if_given, require_and_verify_client_cert, version_string_to_version,
  version_strings_to_versions, client_auth_type,
}

-- The names of the versions and of the ways to authenticate clients, with the constants of crypto/tls
-- that they stand for.
abbrev pub version_names : Dict ℕ
version_names = ("", 0) ∷ ("SSLv30", 768) ∷ ("TLSv10", 769) ∷ ("TLSv11", 770) ∷ ("TLSv12", 771) ∷ []

abbrev pub auth_names : Dict ClientAuth
auth_names =
    ("", no_client_cert)
    ∷ ("NoClientCert", no_client_cert)
    ∷ ("RequestClientCert", request_client_cert)
    ∷ ("RequireAnyClientCert", require_any_client_cert)
    ∷ ("VerifyClientCertIfGiven", verify_client_cert_if_given)
    ∷ ("RequireAndVerifyClientCert", require_and_verify_client_cert)
    ∷ []

-- The tests for each name of a table, one after the other.
abbrev tested {ℓ} : {A : Type ℓ} → Dict A → Result A → String → Result A
tested [] other s = other
tested ((k, a) ∷ d) other s = if s == k then gives a else tested d other s

other_way : (s k : String) → (k == s) ≡ false → (s == k) ≡ false
other_way s k f = elim (String-cases s k) [
  | inl q ↦ let wrong : (k == k) ≡ false = rw q at f in absurd (cc (wrong, eq_refl k))
  | inr g ↦ g
]

lookup-tested {ℓ} :
    {A : Type ℓ} (d : Dict A) (e s : String) (a : A)
    → tested d (fails e) s ≡ gives a
    → lookup s d ≡ some a
unfolding lookup
lookup-tested [] e s a h = cc
lookup-tested ((k, b) ∷ d) e s a h = elim (String-cases k s) [
  | inl q ↦ rw (q, eq_refl) (ap some (gives-injective (rw (q, eq_refl) at h)))
  | inr f ↦ rw f (lookup-tested d e s a (rw (other_way s k f) at h))
]

lookup-version :
    (s : String) (n : ℕ) → version_string_to_version s ≡ gives n → lookup s version_names ≡ some n
unfolding version_string_to_version
lookup-version s n e = lookup-tested version_names _ s n e

pub lookup-auth :
    (s : String) (a : ClientAuth) → client_auth_type s ≡ gives a → lookup s auth_names ≡ some a
unfolding client_auth_type
lookup-auth s a e = lookup-tested auth_names _ s a e

pub lookup-versions :
    (s t : String) (v : ℕ × ℕ)
    → version_strings_to_versions s t ≡ gives v
    → (lookup s version_names ≡ some v.0) × (lookup t version_names ≡ some v.1)
unfolding version_strings_to_versions
lookup-versions s t v e =
    let (m, p, e1) = and_then-gives (version_string_to_version s) _ e in
    let (n, q, e2) = and_then-gives (version_string_to_version t) _ e1 in
    let made = gives-injective e2 in
    (lookup-version s m p ∙ ap (λ w. some w.0) made, lookup-version t n q ∙ ap (λ w. some w.1) made)
