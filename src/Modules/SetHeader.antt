-- ===== src/Modules/SetHeader.antt =====
-- handlers/rproxy/module/set_header/set_header.go
use ozone.Prelude.{String, ◌==◌, ◌≡◌, refl, ap, ◌∙◌, Option, none, List, [], ◌∷◌, if◌then◌else◌}
use ozone.Prelude.Dict.{Dict}
use ozone.Prelude.Outcome.{Outcome, returns}
use ozone.Http.Header.{Header, canonical, values, set}
use ozone.Http.Header.Laws.{values-set}
use ozone.Rproxymod.{
  Exchange, Reply, Response, ProxyModule, pass_on, out_header, write_out, ensure_writable_header,
  base_module,
}
use ozone.Rproxymod.Laws.{out_header-write_out, write_out-in_header}

-- Config
pub record SetHeaderConfig : Type 0 where
  pub response_header : Dict String
  pub request_header : Dict String

-- The loop `for k, v := range m { h.Set(k, v) }`
unfoldable pub set_all : Dict String → Header → Header
set_all [] h = h
set_all ((k, v) ∷ m) h = set_all m (set k v h)

-- The loop over RequestHeader, which writes through the outgoing request.
unfoldable pub set_request_headers : Dict String → Exchange → Exchange
unfolding set_all
set_request_headers [] x = x
set_request_headers (kv ∷ m) x = write_out (set_all (kv ∷ m)) (ensure_writable_header x)

unfoldable pub set_header_process : SetHeaderConfig → Exchange → Reply × Exchange
unfolding set_request_headers
set_header_process cfg x = (pass_on, set_request_headers cfg.request_header x)

unfoldable pub set_header_modify :
    SetHeaderConfig → Exchange → Response → Outcome (Option String × Response)
unfolding set_all
set_header_modify cfg x res =
    returns (none, record res { header = set_all cfg.response_header res.header })

-- InitModule: the parsed configuration, or the parser's error, beside which the module is a nil
-- pointer.
unfoldable pub set_header_module : SetHeaderConfig → ProxyModule
unfolding set_header_process set_header_modify base_module
set_header_module cfg = record base_module {
  process_request = set_header_process cfg;
  modify_response = set_header_modify cfg;
}

-- What the last entry for a name, over all its spellings, sets.
abbrev pub last_set : String → Dict String → List String → List String
last_set j [] vs = vs
last_set j ((k, v) ∷ m) vs = last_set j m (if canonical k == canonical j then v ∷ [] else vs)

values-set_all :
    (j : String) (m : Dict String) (h : Header) → values j (set_all m h) ≡ last_set j m (values j h)
unfolding set_all
values-set_all j [] h = refl
values-set_all j ((k, v) ∷ m) h =
    values-set_all j m (set k v h) ∙ ap (last_set j m) (values-set k j v h)

-- The exchange that the writes of a configuration start from: with its own headers, if it writes.
abbrev pub writable : Dict String → Exchange → Exchange
writable [] x = x
writable (kv ∷ m) x = ensure_writable_header x

process-values :
    (m : Dict String) (x : Exchange) (j : String)
    → values j (out_header (set_request_headers m x))
      ≡ last_set j m (values j (out_header (writable m x)))
unfolding set_request_headers
process-values [] x j = refl
process-values (kv ∷ m) x j =
    rw (out_header-write_out (set_all (kv ∷ m)) (ensure_writable_header x))
      (values-set_all j (kv ∷ m) (out_header (ensure_writable_header x)))

process-in_header :
    (m : Dict String) (x : Exchange) → (set_request_headers m x).in_header ≡ x.in_header
unfolding set_request_headers
process-in_header [] x = refl
process-in_header (kv ∷ m) x = write_out-in_header (set_all (kv ∷ m)) x

-- The module passes the request on. Under each name the outgoing request has what the last entry of
-- the configuration for that name, in any spelling, says, or what stood there in the copied
-- headers; the headers of the incoming request stay as they were.
pub set_header_process_lem :
    (cfg : SetHeaderConfig) (x : Exchange) (j : String)
    → ((set_header_process cfg x).0 ≡ pass_on)
      × (values j (out_header (set_header_process cfg x).1)
          ≡ last_set j cfg.request_header (values j (out_header (writable cfg.request_header x))))
      × ((set_header_process cfg x).1.in_header ≡ x.in_header)
unfolding set_header_process
set_header_process_lem cfg x j =
    (refl, process-values cfg.request_header x j, process-in_header cfg.request_header x)
