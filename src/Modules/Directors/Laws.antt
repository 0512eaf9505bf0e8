-- ===== src/Modules/Directors/Laws.antt =====
-- Where forward_map_director sends a request.
use ozone.Prelude.{
  String, ◌==◌, ◌≡◌, refl, ap, ◌∙◌, inl, inr, Option-cases, Option, none, some, [], ◌∷◌,
  if◌then◌else◌,
}
use ozone.Prelude.Dict.{Dict, lookup, insert, lookup-insert}
use ozone.Rproxymod.{Url, Exchange, Reply, create_response}
use ozone.Modules.Directors.{
  parse_forwards, forward_map_init, to_target, set_target, forward_map_process,
}

-- The request is passed on to the scheme and the host of the target.
abbrev pub GoesTo : Url → Exchange → Reply × Exchange → Type 0
GoesTo u x (reply, y) =
    (reply.response ≡ none)
    × (reply.err ≡ none)
    × (y.outgoing.url.scheme ≡ u.scheme)
    × (y.outgoing.url.host ≡ u.host)
    × (y.outgoing.url.rest ≡ x.outgoing.url.rest)
    × (y.outgoing.host ≡ x.outgoing.host)

-- By the target for the host, and the one for the empty host.
abbrev pub Goes : Option Url → Option Url → Exchange → Reply × Exchange → Type 0
Goes (some u) o x a = GoesTo u x a
Goes none (some u) x a = GoesTo u x a
Goes none none x (reply, y) =
    (reply.response
      ≡ some (record { status = 404; header = []; body = "No such host"; trailer = [] }))
    × (reply.err ≡ none)
    × (y ≡ x)

to_target-Goes : (own o : Option Url) (x : Exchange) → Goes own o x (to_target own o x)
unfolding set_target create_response
to_target-Goes (some u) o x = (refl, refl, refl, refl, refl, refl)
to_target-Goes none (some u) x = (refl, refl, refl, refl, refl, refl)
to_target-Goes none none x = (refl, refl, refl)

module _ (parse : String → Option Url) where
  -- The parsed target of the last entry for a host, if there is an entry.
  abbrev pub target : String → Dict String → Option Url → Option Url
  target h [] seen = seen
  target h ((host, forward) ∷ rest) seen = target h rest (if host == h then parse forward else seen)

  lookup-parse_forwards :
      (h : String) (forwards : Dict String) (m : Dict Url)
      → (parse_forwards parse forwards m).1 ≡ none
      → lookup h (parse_forwards parse forwards m).0 ≡ target h forwards (lookup h m)
  unfolding parse_forwards
  lookup-parse_forwards h [] m e = refl
  lookup-parse_forwards h ((host, forward) ∷ rest) m e = elim (Option-cases (parse forward)) [
    | inl q ↦ let e' : some forward ≡ none = rw (q, parse_forwards) at e in absurd (cc e')
    | inr (u, q) ↦
        rw (q, parse_forwards)
          (lookup-parse_forwards h rest (insert host u m) (rw (q, parse_forwards) at e)
            ∙ ap (target h rest) (lookup-insert host h u m))
  ]

  -- If all targets of the configuration parse: the module gives a request, without a response and
  -- without an error, the scheme and the host of the target of the last entry for its host, or, if
  -- there is none, of the last entry for the empty host, and leaves the rest of the URL and the host
  -- of the request as they are; if there is neither, it answers with the status 404.
  pub forward_map_process-target :
      (forwards : Dict String) (x : Exchange)
      → (forward_map_init parse forwards).1 ≡ none
      → Goes
          (target x.outgoing.host forwards none)
          (target "" forwards none)
          x
          (forward_map_process (forward_map_init parse forwards).0 x)
  unfolding forward_map_init forward_map_process
  forward_map_process-target forwards x e =
      rw
        (
          lookup-parse_forwards x.outgoing.host forwards [] e,
          lookup-parse_forwards "" forwards [] e,
        )
        (to_target-Goes (target x.outgoing.host forwards none) (target "" forwards none) x)
