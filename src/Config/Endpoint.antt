-- ===== src/Config/Endpoint.antt =====
-- `parse_dns_retries` and `parse_endpoint` of config.c. With a number of retries the loop is a
-- recursion on that number. With "infinity" it may run for ever: it is followed for as many answers
-- as the fuel says, and `hang` means that all of them were transient failures.
pub mod Laws
pub mod Retries
use router1_app.Prelude.{
  ℕ, zero, suc, ◌+◌, ◌-◌, ◌*◌, ◌/◌, ◌^◌, Bool, true, false, not, ◌||◌, Option, none, some, List, [],
  ◌∷◌, ltb, ◌==◌, if◌then◌else◌, Bytes, codes, Outcome, ◌>>=◌, ◌>>◌, ok, fail, exit, hang, length,
  drop,
}
use router1_app.Libc.{char_at, strcmp_eq, split_first, split_last, strtoul}
use router1_app.Containers.{SockAddr}
use router1_app.Config.Host.{
  GaiError, Resolved, Host, eai_noname, eai_fail, eai_nodata, eai_again, eai_system, found, error,
}
use router1_app.Config.Values.{known_family, at_end}

-- -1, for ever, is `none`.
unfoldable pub parse_dns_retries : Host → Outcome (Option ℕ)
unfolding strcmp_eq
parse_dns_retries h = elim (h.retries_variable) [
  | none ↦ ok (some 15)
  | some retries ↦
      if strcmp_eq retries (codes "infinity")
      then ok none
      else let (ret, end) = strtoul retries 10 in
        if not (at_end end) || ltb (2 ^ 31 - 1) ret then exit else ok (some ret)
]

-- The host and the port of an endpoint: `begin` and `end`.
pub record HostPort : Type 0 where
  pub host : Bytes
  pub port : Bytes

abbrev bracketed : Option (Bytes × Bytes) → Outcome HostPort
bracketed none = fail
bracketed (some (before, [])) = fail
bracketed (some (before, c ∷ [])) = fail
bracketed (some (before, c ∷ d ∷ port)) =
    if c == b':' then ok (record { host = drop 1 before; port = d ∷ port }) else fail

abbrev plain : Option (Bytes × Bytes) → Outcome HostPort
plain none = fail
plain (some (before, [])) = fail
plain (some (before, d ∷ port)) = ok (record { host = before; port = d ∷ port })

unfoldable pub split_endpoint : Bytes → Outcome HostPort
unfolding split_first split_last
split_endpoint value =
    if length value == 0
    then fail
    else if char_at value 0 == b'['
    then bracketed (split_first b']' value)
    else plain (split_last b':' value)

abbrev pub is_permanent : GaiError → Bool
is_permanent eai_noname = true
is_permanent eai_fail = true
is_permanent eai_nodata = true
is_permanent eai_again = false
is_permanent eai_system = false

-- In microseconds.
abbrev pub next_timeout : ℕ → ℕ
next_timeout timeout =
    let longer = timeout * 6 / 5 in if ltb 20000000 longer then 20000000 else longer

-- What the loop comes to, and the times for which it slept.
pub record Attempt : Type 0 where
  pub answer : Outcome Resolved
  pub sleeps : List ℕ

abbrev pub slept : ℕ → Attempt → Attempt
slept timeout a = record { answer = a.answer; sleeps = timeout ∷ a.sleeps }

abbrev pub stop : Outcome Resolved → Attempt
stop answer = record { answer = answer; sleeps = [] }

-- The loop with a number of retries, from the n-th call on.
unfoldable pub resolve : Host → HostPort → ℕ → ℕ → ℕ → Attempt
resolve h e n zero timeout = elim (h.getaddrinfo n (some e.host) e.port) [
  | found r ↦ stop (ok r)
  | error x ↦ stop fail
]
resolve h e n (suc retries) timeout = elim (h.getaddrinfo n (some e.host) e.port) [
  | found r ↦ stop (ok r)
  | error x ↦ elim (is_permanent x) [
    | true ↦ stop fail
    | false ↦ slept timeout (resolve h e (n + 1) retries (next_timeout timeout))
  ]
]

-- The loop without a limit, for as many calls as `fuel` says.
unfoldable pub resolve_forever : Host → HostPort → ℕ → ℕ → ℕ → Attempt
resolve_forever h e n zero timeout = stop hang
resolve_forever h e n (suc fuel) timeout = elim (h.getaddrinfo n (some e.host) e.port) [
  | found r ↦ stop (ok r)
  | error x ↦ elim (is_permanent x) [
    | true ↦ stop fail
    | false ↦ slept timeout (resolve_forever h e (n + 1) fuel (next_timeout timeout))
  ]
]

abbrev pub resolve_with : Host → ℕ → HostPort → Option ℕ → Attempt
resolve_with h fuel e none = resolve_forever h e 0 fuel 1000000
resolve_with h fuel e (some retries) = resolve h e 0 retries 1000000

-- The address that is copied into the peer.
unfoldable pub parse_endpoint : Host → ℕ → Bytes → Outcome SockAddr
unfolding parse_dns_retries split_endpoint resolve resolve_forever known_family
parse_endpoint h fuel value = do
  retries ← parse_dns_retries h
  e ← split_endpoint value
  r ← (resolve_with h fuel e retries).answer
  if known_family h r then ok r.ai_addr else fail
