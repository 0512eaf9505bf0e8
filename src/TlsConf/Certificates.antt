-- ===== src/TlsConf/Certificates.antt =====
-- The certificates and the CAs that a specification names.
use ozone.Prelude.{
  String, ◌≡◌, refl, sym, ap, ◌∙◌, subst, Option, none, some, List, [], ◌∷◌, ◌++◌, append_assoc,
  append-nil,
}
use ozone.Prelude.Dict.{Dict}
use ozone.Prelude.Result.{Result, gives, fails, and_then-gives, gives-injective}
use ozone.TlsConf.{
  TlsLib, CertConfig, loaded, load_certificates, ca_pool_from, or_unread, or_unloaded, appended,
}

module _ (lib : TlsLib) where
  -- The certificates are those of the files, in order.
  abbrev pub AreLoaded : Dict CertConfig → List lib.Cert → Type 0
  AreLoaded [] [] = Unit
  AreLoaded [] (c ∷ cs) = ⊥
  AreLoaded ((name, cert) ∷ certs) [] = ⊥
  AreLoaded ((name, cert) ∷ certs) (c ∷ cs) =
      (lib.load_pair cert.crt_pem_file cert.key_pem_file ≡ gives c) × AreLoaded certs cs

  -- The pool has all certificates of all files, in order.
  abbrev pub ArePooled : Dict String → List lib.Cert → Type 0
  ArePooled [] pool = pool ≡ []
  ArePooled ((name, file) ∷ files) pool =
      (pem : String) × (cs : List lib.Cert) × (rest : List lib.Cert) × (lib.read_file file
        ≡ gives pem)
      × (lib.certs_of_pem pem ≡ some cs)
      × (pool ≡ cs ++ rest)
      × (ArePooled files rest)

  or_unloaded-gives :
      (cert : CertConfig) (r : Result lib.Cert) (c : lib.Cert)
      → or_unloaded lib cert r ≡ gives c
      → r ≡ gives c
  or_unloaded-gives cert (gives x) c e = e
  or_unloaded-gives cert (fails x) c e = cc

  or_unread-gives :
      (file : String) (r : Result String) (pem : String)
      → or_unread lib file r ≡ gives pem
      → r ≡ gives pem
  or_unread-gives file (gives x) pem e = e
  or_unread-gives file (fails x) pem e = cc

  loaded-pair :
      (cert : CertConfig) (c : lib.Cert)
      → loaded lib cert ≡ gives c
      → lib.load_pair cert.crt_pem_file cert.key_pem_file ≡ gives c
  loaded-pair cert c e =
      or_unloaded-gives cert (lib.load_pair cert.crt_pem_file cert.key_pem_file) c e

  pub load_certificates-AreLoaded :
      (certs : Dict CertConfig) (cs : List lib.Cert)
      → load_certificates lib certs ≡ gives cs
      → AreLoaded certs cs
  unfolding load_certificates
  load_certificates-AreLoaded [] cs e = subst (AreLoaded []) (gives-injective e) tt
  load_certificates-AreLoaded ((name, cert) ∷ certs) cs e =
      let (c, p, e1) = and_then-gives (loaded lib cert) _ e in
      let (ds, q, e2) = and_then-gives (load_certificates lib certs) _ e1 in
      subst (AreLoaded ((name, cert) ∷ certs)) (gives-injective e2)
        (loaded-pair cert c p, load_certificates-AreLoaded certs ds q)

  read-gives :
      (file pem : String)
      → or_unread lib file (lib.read_file file) ≡ gives pem
      → lib.read_file file ≡ gives pem
  read-gives file pem e = or_unread-gives file (lib.read_file file) pem e

  appended-gives :
      (file : String) (o : Option (List lib.Cert)) (pool pool' : List lib.Cert)
      → appended lib file o pool ≡ gives pool'
      → (cs : List lib.Cert) × (o ≡ some cs) × (pool' ≡ pool ++ cs)
  appended-gives file none pool pool' e = cc
  appended-gives file (some cs) pool pool' e = (cs, refl, sym (gives-injective e))

  pub ca_pool_from-ArePooled :
      (files : Dict String) (pool all : List lib.Cert)
      → ca_pool_from lib files pool ≡ gives all
      → (rest : List lib.Cert) × (all ≡ pool ++ rest) × ArePooled files rest
  unfolding ca_pool_from
  ca_pool_from-ArePooled [] pool all e = ([], sym (gives-injective e) ∙ sym (append-nil pool), refl)
  ca_pool_from-ArePooled ((name, file) ∷ files) pool all e =
      let (pem, p, e1) = and_then-gives (or_unread lib file (lib.read_file file)) _ e in
      let (pool', q, e2) = and_then-gives (appended lib file (lib.certs_of_pem pem) pool) _ e1 in
      let (cs, found, more) = appended-gives file (lib.certs_of_pem pem) pool pool' q in
      let (rest, whole, pooled) = ca_pool_from-ArePooled files pool' all e2 in
      (
        cs ++ rest,
        whole ∙ ap (λ xs. xs ++ rest) more ∙ append_assoc pool cs rest,
        (pem, cs, rest, read-gives file pem p, found, refl, pooled),
      )
