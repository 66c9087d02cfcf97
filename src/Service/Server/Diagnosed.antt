-- ===== src/Service/Server/Diagnosed.antt =====
-- service/server/server.go, service/chaos/chaos.go, internal/executor/real.go and
-- internal/conformance/catalog.go: what the endpoint checks of the control plane conclude from the
-- answers of the service.
use lab_env.Common.{
  ℕ, String, Bool, true, false, ◌≡◌, ◌⊎◌, ◌↔◌, refl, inl, inr, none, arith, ltb, nat_eq, take,
  Bool-cases, Option-cases, subst, if◌then◌else◌, if◌then◌else◌,
}
use lab_env.Common.Errors.{Error, Result, ok, err}
use lab_env.Common.Bytes.{Bytes, has_text, codes}
use lab_env.Conformance.Catalog.Outcomes.{passes, status_outcome, headers_outcome, reset_outcome}
use lab_env.Conformance.Catalog.Endpoints.{check_e001, check_e002, check_h001, check_h002}
use lab_env.Executor.Observe.{Probe, Response, real_observer}
use lab_env.Service.Server.{Route, Answer, Request, ServiceState, serve_http}
use lab_env.Service.Server.Bodies.{health_body, root_body, error_body, drop_body, headers_body}
use lab_env.Service.Server.Counted.{serve_http_health}

-- What the client gets for an answer: its status code and its body, with one Read of the body
-- giving all that fits in the bound; for a connection that was reset an error, or the 502 of the
-- proxy.
abbrev pub Delivered : Answer → Result Response → Type 0
Delivered (Answer.answered n body) got =
    (r : Response) × (got ≡ ok r) × (r.status_code ≡ n) × (r.chunk 4096 ≡ take 4096 body)
Delivered Answer.connection_reset got =
    ((e : Error) × (got ≡ err e)) ⊎ ((r : Response) × (got ≡ ok r) × (r.status_code ≡ 502))
Delivered Answer.nothing got = Unit

-- The code of an answer to the root.
root_code :
    (r : Request) (s : ServiceState)
    → r.route ≡ Route.root
    → (n : ℕ) × (body : Bytes) × ((serve_http r s).0 ≡ Answer.answered n body)
      × ((n ≡ 200) ↔ ((r.touch_error ≡ none) × (ltb r.random r.drop_percent ≡ false)))
unfolding serve_http
root_code r s root = elim (Bool-cases (ltb r.random r.drop_percent)) [
  | inl drop ↦ (503, drop_body, ground (arith, root, drop), ground (arith, drop))
  | inr on ↦ elim (Option-cases r.touch_error) [
    | inl may ↦ (200, root_body r.app_env, ground (arith, root, on, may), ground (arith, on, may))
    | inr (e, not) ↦ (500, error_body, ground (arith, root, on, not), ground (arith, on, not))
  ]
]

headers_answer :
    (r : Request) (s : ServiceState)
    → r.route ≡ Route.headers
    → (serve_http r s).0 ≡ (
        if ltb r.random r.drop_percent
        then Answer.answered 503 drop_body
        else Answer.answered 200 (headers_body r.header))
unfolding serve_http
headers_answer r s headers = ground (arith, headers)

reset_answer :
    (r : Request) (s : ServiceState)
    → r.route ≡ Route.reset
    → r.hijacker ≡ true
    → r.hijack_error ≡ none
    → (serve_http r s).0 ≡ (
        if ltb r.random r.drop_percent
        then Answer.answered 503 drop_body
        else Answer.connection_reset)
unfolding serve_http
reset_answer r s reset hijacker taken = ground (arith, reset, hijacker, taken)

-- The first field of the echoed headers is within what is read of the body.
has_text-headers_body :
    (header : String → Bytes)
    → has_text (take 4096 (take 4096 (headers_body header))) (codes "\"Host\"") ≡ true
unfolding has_text headers_body
has_text-headers_body header = refl

module _ {S : Type 0} (p : Probe S) (sys : S) where
  -- What the observer concludes from an answer.
  observed :
      (url : String) (skip : Bool) (n : ℕ) (body : Bytes)
      → Delivered (Answer.answered n body) (p.get url skip sys)
      → (real_observer p).check_endpoint url skip sys
        ≡ ok (record { status_code = n; reachable = true; body = take 4096 (take 4096 body) })
  unfolding real_observer
  observed url skip n body (r, is, code, chunk) = rw (is, code, chunk) refl

  status_lem :
      (url context reason : String) (n : ℕ) (body : Bytes)
      → Delivered (Answer.answered n body) (p.get url false sys)
      → (status_outcome ((real_observer p).check_endpoint url false sys) context reason ≡ passes)
        ↔ (n ≡ 200)
  unfolding status_outcome
  status_lem url context reason n body got = rw (observed url false n body got) (ground arith)

  pub serve_http-diagnoses :
      (h r : Request) (s s' : ServiceState)
      → h.route ≡ Route.health
      → r.route ≡ Route.root
      → Delivered (serve_http h s).0 (p.get "http://localhost/health" false sys)
      → Delivered (serve_http r s').0 (p.get "http://localhost/" false sys)
      → (check_e001.execute (real_observer p) sys ≡ passes)
        × ((check_e002.execute (real_observer p) sys ≡ passes)
            ↔ ((r.touch_error ≡ none) × (ltb r.random r.drop_percent ≡ false)))
  unfolding check_e001 check_e002
  serve_http-diagnoses h r s s' health root got got' =
      let (n, body, is, code) = root_code r s' root in
      let (to, from) =
        status_lem "http://localhost/" "reaching /: %w" "/ returned %d, want 200" n body
          (rw is at got') in
      (
        (status_lem "http://localhost/health" "reaching /health: %w" "/health returned %d, want 200"
              200 (health_body h.app_env)
              (subst (λ a. Delivered a.0 (p.get "http://localhost/health" false sys))
                (serve_http_health h s health) got)).1
            refl,
        (λ ok_root. code.0 (to ok_root), λ free. from (code.1 free)),
      )

  headers_dropped :
      {b : Bool}
      → b ≡ true
      → Delivered (Answer.answered 503 drop_body) (p.get "http://localhost/headers" false sys)
      → (check_h001.execute (real_observer p) sys ≡ passes) ↔ (b ≡ false)
  unfolding check_h001 headers_outcome
  headers_dropped drop got =
      rw (observed "http://localhost/headers" false 503 drop_body got) (ground (arith, drop))

  headers_served :
      {b : Bool} (header : String → Bytes)
      → b ≡ false
      → Delivered
          (Answer.answered 200 (headers_body header))
          (p.get "http://localhost/headers" false sys)
      → (check_h001.execute (real_observer p) sys ≡ passes) ↔ (b ≡ false)
  unfolding check_h001 headers_outcome
  headers_served header on got =
      rw
        (
          observed "http://localhost/headers" false 200 (headers_body header) got,
          has_text-headers_body header,
        )
        (λ h. on, λ h. refl)

  reset_dropped :
      Delivered (Answer.answered 503 drop_body) (p.get "http://localhost/reset" false sys)
      → check_h002.execute (real_observer p) sys ≡ passes
  unfolding check_h002 reset_outcome
  reset_dropped got = rw (observed "http://localhost/reset" false 503 drop_body got) refl

  reset_closed :
      Delivered Answer.connection_reset (p.get "http://localhost/reset" false sys)
      → check_h002.execute (real_observer p) sys ≡ passes
  unfolding check_h002 reset_outcome real_observer
  reset_closed (inl (e, is)) = rw is refl
  reset_closed (inr (r, is, code)) = rw (is, code) refl

  -- The check of the echoed headers passes exactly when its request is not dropped, whatever the
  -- headers are, and the check of the reset connection passes under any chaos, where connections can
  -- be taken over.
  pub serve_http-echoes :
      (h r : Request) (s s' : ServiceState)
      → h.route ≡ Route.headers
      → r.route ≡ Route.reset
      → r.hijacker ≡ true
      → r.hijack_error ≡ none
      → Delivered (serve_http h s).0 (p.get "http://localhost/headers" false sys)
      → Delivered (serve_http r s').0 (p.get "http://localhost/reset" false sys)
      → ((check_h001.execute (real_observer p) sys ≡ passes)
          ↔ (ltb h.random h.drop_percent ≡ false))
        × (check_h002.execute (real_observer p) sys ≡ passes)
  unfolding check_h001 check_h002
  serve_http-echoes h r s s' headers reset hijacker taken got got' = (
    elim (Bool-cases (ltb h.random h.drop_percent)) [
      | inl drop ↦ headers_dropped (drop) (rw (headers_answer h s headers, drop) at got)
      | inr on ↦ headers_served h.header on (rw (headers_answer h s headers, on) at got)
    ],
    elim (Bool-cases (ltb r.random r.drop_percent)) [
      | inl drop ↦ reset_dropped (rw (reset_answer r s' reset hijacker taken, drop) at got')
      | inr on ↦ reset_closed (rw (reset_answer r s' reset hijacker taken, on) at got')
    ],
  )
