-- ===== src/Web/Service/Counters.antt =====
-- crates/sutegi-web/src/lib.rs: what the counters of the service say between requests.
use sutegi.Base.{
  Bool, true, false, not, Bool-cases, inl, inr, if◌then◌else◌, ℕ, ◌+◌, ◌≡◌, ◌<◌, refl, List, [],
  ◌∷◌, ◌==◌, if_rule, arith,
}
use Prim.Native.Nat.{◌/◌, ◌%◌, ◌^◌}
use sutegi.Http.{Request}
use sutegi.Web.Service.{
  App, Metrics, bump, record_status, enter, leave, service, serve, dispatch, run_after, finish_log,
}

-- The counters of a service that is between requests.
pub record IsBalanced (m : Metrics) : Type 0 where
  pub counted : (m.c2xx + m.c4xx + m.c5xx + m.other) % 2 ^ 64 ≡ m.total
  pub flying : m.in_flight < 2 ^ 64

record_status-IsBalanced :
    (status : ℕ) (m : Metrics) → IsBalanced m → IsBalanced (record_status status m)
unfolding record_status
record_status-IsBalanced status m b =
    if_rule IsBalanced (status / 100 == 2) _ _
      (λ _. record { counted = omega arith; flying = b.flying })
      (λ _.
        if_rule IsBalanced (status / 100 == 4) _ _
          (λ _. record { counted = omega arith; flying = b.flying })
          (λ _.
            if_rule IsBalanced (status / 100 == 5) _ _
              (λ _. record { counted = omega arith; flying = b.flying })
              (λ _. record { counted = omega arith; flying = b.flying })))

record_status-total : (status : ℕ) (m : Metrics) → (record_status status m).total ≡ bump m.total
unfolding record_status
record_status-total status m =
    if_rule (λ (r : Metrics). r.total ≡ bump m.total) (status / 100 == 2) _ _ (λ _. refl)
      (λ _.
        if_rule (λ (r : Metrics). r.total ≡ bump m.total) (status / 100 == 4) _ _ (λ _. refl)
          (λ _.
            if_rule (λ (r : Metrics). r.total ≡ bump m.total) (status / 100 == 5) _ _ (λ _. refl)
              (λ _. refl)))

record_status-in_flight :
    (status : ℕ) (m : Metrics) → (record_status status m).in_flight ≡ m.in_flight
unfolding record_status
record_status-in_flight status m =
    if_rule (λ (r : Metrics). r.in_flight ≡ m.in_flight) (status / 100 == 2) _ _ (λ _. refl)
      (λ _.
        if_rule (λ (r : Metrics). r.in_flight ≡ m.in_flight) (status / 100 == 4) _ _ (λ _. refl)
          (λ _.
            if_rule (λ (r : Metrics). r.in_flight ≡ m.in_flight) (status / 100 == 5) _ _ (λ _. refl)
              (λ _. refl)))

-- Requests served one after another.
abbrev pub serve_all : (Request → Bool) → App → List Request → Metrics → Metrics
serve_all panics app [] m = m
serve_all panics app (req ∷ reqs) m = serve_all panics app reqs (serve panics app req m).1

-- How many requests panic, and how many do not.
abbrev pub how_many : (Request → Bool) → List Request → ℕ
how_many test [] = 0
how_many test (req ∷ reqs) = (if test req then 1 else 0) + how_many test reqs

-- What one more request adds, if it panics or not.
record Advanced (panicked : Bool) (m m' : Metrics) : Type 0 where
  balanced : IsBalanced m'
  total : m'.total ≡ (if panicked then m.total else bump m.total)
  in_flight : m'.in_flight ≡ (if panicked then bump m.in_flight else m.in_flight)

serve-Advanced :
    (panics : Request → Bool) (app : App) (req : Request) (m : Metrics)
    → IsBalanced m
    → Advanced (panics req) m (serve panics app req m).1
unfolding serve service enter leave
serve-Advanced panics app req m b =
    let entered : IsBalanced (enter m) = record { counted = b.counted; flying = omega arith } in
    elim (Bool-cases (panics req)) [
      | inl e ↦ rw e (record { balanced = entered; total = refl; in_flight = refl })
      | inr e ↦
          let status =
            (finish_log app.access_log req (run_after app.after req (dispatch app req).0)).status in
          let counted = record_status-IsBalanced status (enter m) entered in
          let same = record_status-in_flight status (enter m) in
          rw e (record {
            balanced = record { counted = counted.counted; flying = omega arith };
            total = record_status-total status (enter m);
            in_flight = let f = b.flying in omega arith;
          })
    ]

-- After any requests, answered however, from counters that balance: the four classes of statuses add up to the total,
-- the total has grown by the number of requests that did not panic, and those in flight by the number of requests that
-- did (all modulo 2^64).
pub serve_all-counts :
    (panics : Request → Bool) (app : App) (reqs : List Request) (m : Metrics)
    → IsBalanced m
    → IsBalanced (serve_all panics app reqs m)
      × ((serve_all panics app reqs m).total
          ≡ (m.total + how_many (λ req. not (panics req)) reqs) % 2 ^ 64)
      × ((serve_all panics app reqs m).in_flight ≡ (m.in_flight + how_many panics reqs) % 2 ^ 64)
serve_all-counts panics app [] m b =
    (b, (let c = b.counted in omega arith), (let f = b.flying in omega arith))
serve_all-counts panics app (req ∷ reqs) m b =
    let a = serve-Advanced panics app req m b in
    let (c, t, f) = serve_all-counts panics app reqs (serve panics app req m).1 a.balanced in
    (
      c,
      sum_total (panics req) (how_many (λ req. not (panics req)) reqs) a.total t,
      sum_flying (panics req) (how_many panics reqs) a.in_flight f,
    )
  where
    sum_total :
        (p : Bool) (rest : ℕ) {now later : ℕ}
        → now ≡ (if p then m.total else bump m.total)
        → later ≡ (now + rest) % 2 ^ 64
        → later ≡ (m.total + ((if not p then 1 else 0) + rest)) % 2 ^ 64
    sum_total true rest e f = omega arith
    sum_total false rest e f = omega arith

    sum_flying :
        (p : Bool) (rest : ℕ) {now later : ℕ}
        → now ≡ (if p then bump m.in_flight else m.in_flight)
        → later ≡ (now + rest) % 2 ^ 64
        → later ≡ (m.in_flight + ((if p then 1 else 0) + rest)) % 2 ^ 64
    sum_flying true rest e f = omega arith
    sum_flying false rest e f = omega arith
