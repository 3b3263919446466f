-- ===== src/Config/Endpoint/Retries.antt =====
-- The loop of `parse_endpoint` around getaddrinfo: how often it asks, and how long it sleeps.
use router1_app.Prelude.{
  ℕ, zero, suc, ◌+◌, ◌≤◌, ◌<◌, ◌≡◌, inl, inr, true, some, arith, Bool-cases, Outcome, ok, fail,
  exit, fault, hang, length, All,
}
use router1_app.Config.Host.{Resolved, Gai, Host, found, error}
use router1_app.Config.Values.Laws.{Gai-cases}
use router1_app.Config.Endpoint.{
  HostPort, is_permanent, next_timeout, Attempt, resolve_forever, resolve,
}

-- Between a second and twenty seconds.
abbrev pub IsTimeout : ℕ → Type 0
IsTimeout t = (1000000 ≤ t) × (t ≤ 20000000)

next_timeout-IsTimeout : (t : ℕ) → IsTimeout t → IsTimeout (next_timeout t)
next_timeout-IsTimeout t h = ground arith

abbrev pub IsReturned : Outcome Resolved → Type 0
IsReturned (ok r) = Unit
IsReturned fail = Unit
IsReturned exit = ⊥
IsReturned fault = ⊥
IsReturned hang = ⊥

-- The loop that began with `retries` retries left.
pub record IsBounded (retries : ℕ) (a : Attempt) : Type 0 where
  pub returned : IsReturned a.answer
  pub few_sleeps : length a.sleeps ≤ retries
  pub timeouts : All IsTimeout a.sleeps

-- With a limit on the retries the loop returns: it sleeps once for each retry at most, and each time
-- between one and twenty seconds.
pub resolve-IsBounded :
    (h : Host) (e : HostPort) (retries n timeout : ℕ)
    → IsTimeout timeout
    → IsBounded retries (resolve h e n retries timeout)
unfolding resolve
resolve-IsBounded h e zero n timeout t = elim (Gai-cases (h.getaddrinfo n (some e.host) e.port)) [
  | inl (r, p) ↦ rw (p, resolve) record { returned = tt; few_sleeps = omega arith; timeouts = tt }
  | inr (x, p) ↦ rw (p, resolve) record { returned = tt; few_sleeps = omega arith; timeouts = tt }
]
resolve-IsBounded h e (suc retries) n timeout t =
    elim (Gai-cases (h.getaddrinfo n (some e.host) e.port)) [
      | inl (r, p) ↦
          rw (p, resolve) record { returned = tt; few_sleeps = omega arith; timeouts = tt }
      | inr (x, p) ↦ elim (Bool-cases (is_permanent x)) [
        | inl permanent ↦
            rw (p, permanent, resolve)
              record { returned = tt; few_sleeps = omega arith; timeouts = tt }
        | inr transient ↦
            rw (p, transient, resolve)
              (let later =
                  resolve-IsBounded h e retries (n + 1) (next_timeout timeout)
                    (next_timeout-IsTimeout timeout t) in
                record {
                  returned = later.returned;
                  few_sleeps = omega (arith, later.few_sleeps);
                  timeouts = (t, later.timeouts);
                })
      ]
    ]

-- An answer other than a transient failure.
abbrev pub IsFinal : Gai → Type 0
IsFinal (found r) = Unit
IsFinal (error e) = is_permanent e ≡ true

-- Without a limit the loop returns if one of the answers that it can see is no transient failure.
pub resolve_forever-IsReturned :
    (h : Host) (e : HostPort) (fuel n k timeout : ℕ)
    → k < fuel
    → IsFinal (h.getaddrinfo (n + k) (some e.host) e.port)
    → IsReturned (resolve_forever h e n fuel timeout).answer
unfolding resolve_forever
resolve_forever-IsReturned h e zero n k timeout lt final = absurd (omega arith)
resolve_forever-IsReturned h e (suc fuel) n zero timeout lt final =
    let here : n + zero ≡ n = omega arith in
    elim (Gai-cases (h.getaddrinfo n (some e.host) e.port)) [
      | inl (r, p) ↦ rw (p, resolve_forever) tt
      | inr (x, p) ↦
          let permanent : is_permanent x ≡ true = rw (here, p) at final in
          rw (p, permanent, resolve_forever) tt
    ]
resolve_forever-IsReturned h e (suc fuel) n (suc k) timeout lt final =
    let moved : n + suc k ≡ n + 1 + k = omega arith in
    let later =
      resolve_forever-IsReturned h e fuel (n + 1) k (next_timeout timeout) (omega arith)
        (rw moved at final) in
    elim (Gai-cases (h.getaddrinfo n (some e.host) e.port)) [
      | inl (r, p) ↦ rw (p, resolve_forever) tt
      | inr (x, p) ↦ elim (Bool-cases (is_permanent x)) [
        | inl permanent ↦ rw (p, permanent, resolve_forever) tt
        | inr transient ↦ rw (p, transient, resolve_forever) later
      ]
    ]
