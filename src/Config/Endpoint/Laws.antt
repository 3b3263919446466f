-- ===== src/Config/Endpoint/Laws.antt =====
-- The host and the port of an endpoint, and the totality of `parse_endpoint`.
use router1_app.Prelude.{
  ℕ, ◌≡◌, refl, ◌≢◌, true, false, [], ◌∷◌, ◌++◌, ◌==◌, Bytes, ok, zero, suc, ◌+◌, arith, Outcome,
  Ensures, Ensures-bind, if◌then◌else◌, Option, none, some, fail, exit, fault, hang,
}
use router1_app.Libc.Split.{lacks, split_first-append, split_last-append}
use router1_app.Config.Host.{Resolved, Host}
use router1_app.Config.Values.{known_family}
use router1_app.Config.Endpoint.{
  split_endpoint, parse_dns_retries, HostPort, parse_endpoint, resolve_with, next_timeout,
  resolve_forever,
}
use router1_app.Config.Endpoint.Retries.{IsReturned, resolve-IsBounded}

not_empty : (n : ℕ) → (suc n == 0) ≡ false
not_empty n = ground arith

-- `[host]:port` is taken apart at the bracket, also where host and port have colons. The host has no
-- closing bracket, and the port is not empty.
pub split_endpoint_bracketed :
    (host port : Bytes)
    → lacks b']' host ≡ true
    → port ≢ []
    → split_endpoint (b'[' ∷ (host ++ b']' ∷ b':' ∷ port))
      ≡ ok (record { host = host; port = port })
split_endpoint_bracketed host [] h k = absurd (k refl)
split_endpoint_bracketed host (d ∷ port) h k =
    unfold split_endpoint in
    rw not_empty (rw (split_first-append b']' (b'[' ∷ host) (b':' ∷ d ∷ port) h) refl)

-- `host:port` is taken apart at the last colon. The host is not empty and does not begin with a
-- bracket, and the port is not empty.
pub split_endpoint_plain :
    (c : ℕ) (host port : Bytes)
    → (c == b'[') ≡ false
    → lacks b':' port ≡ true
    → port ≢ []
    → split_endpoint (c ∷ (host ++ b':' ∷ port)) ≡ ok (record { host = c ∷ host; port = port })
split_endpoint_plain c host [] n h k = absurd (k refl)
split_endpoint_plain c host (d ∷ port) n h k =
    unfold split_endpoint in
    rw (not_empty, n) (rw (split_last-append b':' (c ∷ host) (d ∷ port) h) refl)

split_endpoint_total : (v : Bytes) → Ensures (λ e. Unit) (split_endpoint v)
unfolding split_endpoint
split_endpoint_total v = ground arith

retries_total : (h : Host) → Ensures (λ r. Unit) (parse_dns_retries h)
unfolding parse_dns_retries
retries_total h = ground arith

resolve_forever_total :
    (h : Host) (e : HostPort) (n fuel timeout : ℕ)
    → Ensures (λ r. Unit) (resolve_forever h e n fuel timeout).answer
unfolding resolve_forever
resolve_forever_total h e n zero timeout = tt
resolve_forever_total h e n (suc fuel) timeout =
    ground (arith, resolve_forever_total h e (n + 1) fuel (next_timeout timeout))

returned_total : (m : Outcome Resolved) → IsReturned m → Ensures (λ r. Unit) m
returned_total (ok r) h = tt
returned_total fail h = tt
returned_total exit h = tt
returned_total fault h = h
returned_total hang h = tt

resolve_with_total :
    (h : Host) (fuel : ℕ) (e : HostPort) (retries : Option ℕ)
    → Ensures (λ r. Unit) (resolve_with h fuel e retries).answer
resolve_with_total h fuel e none = resolve_forever_total h e 0 fuel 1000000
resolve_with_total h fuel e (some retries) =
    returned_total _ (resolve-IsBounded h e retries 0 1000000 (omega arith, omega arith)).returned

address_total :
    (h : Host) (r : Resolved)
    → Ensures (λ a. Unit) (if known_family h r then ok r.ai_addr else fail)
address_total h r = ground arith

pub parse_endpoint-Ensures :
    (h : Host) (fuel : ℕ) (v : Bytes) → Ensures (λ a. Unit) (parse_endpoint h fuel v)
unfolding parse_endpoint
parse_endpoint-Ensures h fuel v =
    Ensures-bind (λ r. Unit) (λ a. Unit) (parse_dns_retries h) _ (retries_total h)
      λ retries u.
        Ensures-bind (λ e. Unit) (λ a. Unit) (split_endpoint v) _ (split_endpoint_total v)
          λ e u'.
            Ensures-bind (λ r. Unit) (λ a. Unit) (resolve_with h fuel e retries).answer
              (λ r. if known_family h r then ok r.ai_addr else fail)
              (resolve_with_total h fuel e retries) (λ r u. address_total h r)
