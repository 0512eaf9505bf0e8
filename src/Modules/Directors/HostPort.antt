-- ===== src/Modules/Directors/HostPort.antt =====
-- The host and the port that backendsettings sets.
use ozone.Prelude.{ℕ, String, ◌≡◌, refl, ap, ◌∙◌, ◌||◌, true, false, Option, none, some, nat_eq}
use ozone.Prelude.Text.{append, decimal}
use ozone.Http.HostPort.{contains, split_host_port, join_host_port}
use ozone.Http.HostPort.RoundTrip.{
  contains-append, plain-split, bracketed-split, split_host_port-join_host_port,
  split_host_port-none, split_host_port-brackets, split_host_port-twice,
}
use ozone.Http.HostPort.Decimal.{contains-decimal}
use ozone.Rproxymod.{Exchange}
use ozone.Modules.Directors.{BackendSettings, host_part, backend_process}

-- The forms of a Host header: a name or an IPv4 address with and without a port, and an IPv6
-- address with and without a port.
pub data HostForm : Type 0 where
  name : String → HostForm
  name_with_port : String → String → HostForm
  address : String → HostForm
  address_with_port : String → String → HostForm

unfoldable pub host_text : HostForm → String
host_text (name h) = h
host_text (name_with_port h port) = append h (append ":" port)
host_text (address h) = append "[" (append h "]")
host_text (address_with_port h port) = append "[" (append h (append "]:" port))

abbrev pub IsBare : String → Type 0
IsBare h = (contains b'[' h ≡ false) × (contains b']' h ≡ false)

abbrev pub IsPlain : String → Type 0
IsPlain s = (contains b':' s ≡ false) × (IsBare s)

abbrev pub IsAddress : String → Type 0
IsAddress h = (contains b':' h ≡ true) × (IsBare h)

abbrev pub IsHost : HostForm → Type 0
IsHost (name h) = IsPlain h
IsHost (name_with_port h port) = IsPlain h × IsPlain port
IsHost (address h) = IsAddress h
IsHost (address_with_port h port) = IsAddress h × IsPlain port

-- The host without its port; an address without a port keeps its brackets.
abbrev pub part_of : HostForm → String
part_of (name h) = h
part_of (name_with_port h port) = h
part_of (address h) = host_text (address h)
part_of (address_with_port h port) = h

-- What the outgoing host splits into.
abbrev pub reached : HostForm → String → Option (String × String)
reached (name h) port = some (h, port)
reached (name_with_port h old) port = some (h, port)
reached (address h) port = none
reached (address_with_port h old) port = some (h, port)

decimal-IsPlain : (n : ℕ) → IsPlain (decimal n)
unfolding contains
decimal-IsPlain n =
    (contains-decimal b':' n refl, (contains-decimal b'[' n refl, contains-decimal b']' n refl))

host_part-form :
    (f : HostForm) → IsHost f → host_part (split_host_port (host_text f)) (host_text f) ≡ part_of f
unfolding host_text
host_part-form (name h) (h0, (h1, h2)) = rw (split_host_port-none h h0 h1) refl
host_part-form (name_with_port h port) ((h0, (h1, h2)), (p0, (p1, p2))) =
    rw (plain-split h port h0 h1 h2 p0 p1 p2) refl
host_part-form (address h) (h0, (h1, h2)) = rw (split_host_port-brackets h h2) refl
host_part-form (address_with_port h port) ((h0, (h1, h2)), (p0, (p1, p2))) =
    rw (bracketed-split h port h2 h1 p0 p1 p2) refl

-- The colons of an address are there within its brackets.
contains-brackets :
    (h : String) → contains b':' h ≡ true → contains b':' (append "[" (append h "]")) ≡ true
unfolding contains
contains-brackets h h0 =
    contains-append b':' "[" (append h "]") ∙ contains-append b':' h "]" ∙ ap (λ b. b || false) h0

join-twice :
    (h port : String)
    → IsAddress h
    → split_host_port (join_host_port (host_text (address h)) port) ≡ none
unfolding host_text join_host_port
join-twice h port (h0, (h1, h2)) = rw (contains-brackets h h0) (split_host_port-twice h port h2)

join-bare :
    (h : String) (n : ℕ)
    → IsBare h
    → split_host_port (join_host_port h (decimal n)) ≡ some (h, decimal n)
join-bare h n (h1, h2) =
    let (p0, (p1, p2)) = decimal-IsPlain n in
    split_host_port-join_host_port h (decimal n) h1 h2 p0 p1 p2

join-reached :
    (f : HostForm) (n : ℕ)
    → IsHost f
    → split_host_port (join_host_port (part_of f) (decimal n)) ≡ reached f (decimal n)
join-reached (name h) n (h0, bare) = join-bare h n bare
join-reached (name_with_port h port) n ((h0, bare), p) = join-bare h n bare
join-reached (address h) n good = join-twice h (decimal n) good
join-reached (address_with_port h port) n ((h0, bare), p) = join-bare h n bare

-- If the configuration has a port and the host of the outgoing request is a name, an IPv4 or an
-- IPv6 address, with or without a port, then the host of the outgoing URL splits into the host
-- without its old port and the configured port, except for an IPv6 address without a port, for which it does
-- not split.
pub backend_process-reached :
    (cfg : BackendSettings) (x : Exchange) (f : HostForm)
    → nat_eq cfg.port 0 ≡ false
    → x.outgoing.host ≡ host_text f
    → IsHost f
    → split_host_port (backend_process cfg x).1.outgoing.url.host ≡ reached f (decimal cfg.port)
unfolding backend_process
backend_process-reached cfg x f some_port is_text good =
    rw (some_port, is_text, host_part-form f good) (join-reached f cfg.port good)
