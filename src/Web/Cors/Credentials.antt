-- ===== src/Web/Cors/Credentials.antt =====
-- web/middleware/cors/cors.go: to whom a response is shown that allows credentials.
use soil.Base.{
  ◌≡◌, ◌≢◌, inl, inr, refl, sym, ap, subst, by_cases, ◌∙◌, Bool, true, false, ◌&&◌, some, List, [],
  ◌∷◌, Bytes, codes, same, In, arith, Bool-cases, if◌then◌else◌,
}
use soil.Web.Exchange.{Header, Response, write_header, get}
use soil.Web.Context.{Context, headers_of, set_header, get_header}
use soil.Web.Server.{Middleware, returned, context_of}
use soil.Web.Cors.{
  Cors, match_origin, is_empty, preflight, with_policy, expose, allow_credentials_if, handle, build,
  has_wildcard_origin,
}
use soil.Web.Cors.Headers.{
  match_origin_cases, get-preflight_headers, collected_headers, get-with_policy, credentials_key,
  origin_key,
}

-- Where the headers are written: those that `flashResp` will send, or those of the response itself.
pub data Stage : Type 0 where
  collected written : Stage

abbrev pub headers_at : Stage → Context → Header
headers_at collected c = headers_of c.resp_headers
headers_at written c = c.resp.header

-- An origin that is shown, together with the credentials.
shown_origin :
    (mb : Cors) (origin m : Bytes) (h h' : Header)
    → (has_wildcard_origin mb && mb.allow_credentials) ≡ false
    → m ≡ match_origin mb origin
    → is_empty m ≡ false
    → get credentials_key h ≡ []
    → get origin_key h' ≡ m
    → get credentials_key h'
      ≡ (if mb.allow_credentials then codes "true" else get credentials_key h)
    → get credentials_key h' ≢ []
    → (get origin_key h' ≡ origin) × In origin mb.allow_origins
unfolding has_wildcard_origin is_empty
shown_origin mb origin m h h' safe found some_origin blank o k shown =
    elim (Bool-cases mb.allow_credentials) [
      | inl e ↦ elim (match_origin_cases mb origin (ground arith)) [
        | inl z ↦ cc (ap is_empty (found ∙ z))
        | inr (z, i) ↦ (o ∙ found ∙ z, i)
      ]
      | inr e ↦ absurd (shown (k ∙ (rw e blank)))
    ]

expose_resp : (vs : List Bytes) (c : Context) → (expose vs c).resp ≡ c.resp
unfolding expose set_header
expose_resp [] c = refl
expose_resp (v ∷ vs) c = refl

allow_credentials_if_resp : (b : Bool) (c : Context) → (allow_credentials_if b c).resp ≡ c.resp
unfolding allow_credentials_if set_header
allow_credentials_if_resp true c = refl
allow_credentials_if_resp false c = refl

module _ (mb : Cors) (c : Context)
    (safe : (has_wildcard_origin mb && mb.allow_credentials) ≡ false) where
  -- What is claimed of the headers behind the middleware.
  abbrev Shows : Header → Type 0
  Shows h =
      get credentials_key h ≢ []
      → (get origin_key h ≡ get_header (codes "Origin") c)
        × In (get_header (codes "Origin") c) mb.allow_origins

  abbrev allowed : Bytes
  allowed = match_origin mb (get_header (codes "Origin") c)

  preflight-Shows :
      (stage : Stage)
      → get credentials_key (headers_at stage c) ≡ []
      → Shows (headers_at stage (preflight mb allowed c))
  unfolding preflight write_header match_origin
  preflight-Shows collected blank = λ shown. absurd (shown blank)
  preflight-Shows written blank =
      by_cases Shows (is_empty allowed) _ _ (λ e shown. absurd (shown blank))
        (λ e.
          let (o, k) = get-preflight_headers mb allowed c.resp.header in
          shown_origin mb _ allowed c.resp.header _ safe refl e blank o k)

  with_policy_resp : (with_policy mb allowed c).resp ≡ c.resp
  unfolding with_policy set_header
  with_policy_resp =
      by_cases (λ (d : Context). d.resp ≡ c.resp) (is_empty allowed) _ _ (λ e. refl)
        (λ e. expose_resp mb.expose_headers _ ∙ allow_credentials_if_resp mb.allow_credentials _)

  with_policy-Shows :
      (stage : Stage)
      → get credentials_key (headers_at stage c) ≡ []
      → Shows (headers_at stage (with_policy mb allowed c))
  unfolding with_policy get
  with_policy-Shows written blank = λ shown.
      absurd (shown (ap (λ (r : Response). get credentials_key r.header) with_policy_resp ∙ blank))
  with_policy-Shows collected blank = elim (Bool-cases (is_empty allowed)) [
    | inl e ↦ λ shown. absurd (shown (rw (e, with_policy) blank))
    | inr e ↦
        let (o, k) = get-with_policy mb allowed c e in
        unfold collected_headers in
        shown_origin mb _ allowed (headers_of c.resp_headers) _ safe refl e blank o k
  ]

  handle-Shows :
      (stage : Stage)
      → get credentials_key (headers_at stage c) ≡ []
      → Shows (headers_at stage (context_of (handle mb returned c)))
  unfolding handle
  handle-Shows stage blank =
      by_cases (λ out. Shows (headers_at stage (context_of out)))
        (same c.req.meth (codes "OPTIONS")) _ _ (λ e. preflight-Shows stage blank)
        (λ e. with_policy-Shows stage blank)

-- A middleware that `Build` returns lets the browser see `Access-Control-Allow-Credentials` only
-- together with the very origin of the request, which is one of those that are allowed: of a preflight
-- request in the response itself, of any other one in the headers that it goes on with.
pub build_credentials :
    (stage : Stage) (mb : Cors) (mw : Middleware) (c : Context)
    → build mb ≡ some mw
    → get credentials_key (headers_at stage c) ≡ []
    → get credentials_key (headers_at stage (context_of (mw returned c))) ≢ []
    → (get origin_key (headers_at stage (context_of (mw returned c)))
        ≡ get_header (codes "Origin") c)
      × In (get_header (codes "Origin") c) mb.allow_origins
unfolding build
build_credentials stage mb mw c built blank shown =
    elim (Bool-cases (has_wildcard_origin mb && mb.allow_credentials)) [
      | inl e ↦ cc (rw e at built)
      | inr e ↦
          let same_middleware : mw ≡ handle mb = cc (rw e at built) in
          subst (λ (m : Middleware). Shows mb c e (headers_at stage (context_of (m returned c))))
            (sym same_middleware) (handle-Shows mb c e stage blank) shown
    ]
