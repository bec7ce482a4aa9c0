-- ===== src/Web/Middlewares.antt =====
-- web/middleware: recovery, errhdl, requestid, bodysize and timeout. Logging is left out.
pub mod Recovery
use soil.Base.{
  ℕ, ◌==◌, ℤ, ltb_ℤ, Bool, true, false, Option, none, some, List, [], ◌∷◌, Bytes, codes,
  if◌then◌else◌,
}
use soil.Web.Exchange.{Request, Response, get, set, write_header, write_body}
use soil.Web.Context.{Context, set_header, get_header, abort}
use soil.Web.Server.{Outcome, returned, panicked, Handler, Middleware, then_run}

-- recovery/recovery.go
unfoldable pub failed_response : Context → Context
failed_response c = record c { status = 500; resp_data = codes "Internal Server Error" }

unfoldable pub recovered : Outcome → Outcome
unfolding failed_response
recovered (returned c) = returned c
recovered (panicked c) = returned (failed_response c)

unfoldable pub recovery : Middleware
unfolding recovered
recovery next c = recovered (next c)

-- errhdl/middleware.go: the texts by their codes, `RegisterError` and the middleware.
unfoldable pub register_error : ℕ → Bytes → List (ℕ × Bytes) → List (ℕ × Bytes)
register_error code text [] = (code, text) ∷ []
register_error code text ((k, t) ∷ ts) =
    let rest = register_error code text ts in if k == code then (code, text) ∷ ts else (k, t) ∷ rest

unfoldable pub text_for : ℕ → List (ℕ × Bytes) → Option Bytes
text_for code [] = none
text_for code ((k, t) ∷ ts) = if k == code then some t else text_for code ts

unfoldable pub with_text : Option Bytes → Context → Context
with_text none c = c
with_text (some t) c = record c { resp_data = t }

unfoldable pub error_texts : List (ℕ × Bytes) → Middleware
unfolding text_for with_text
error_texts texts next c =
    then_run (next c) (λ c'. returned (with_text (text_for c'.status texts) c'))

-- requestid/requestid.go; `fresh` is what `uuid.New()` gives.
unfoldable pub id_or_fresh : Bytes → Bytes → Bytes
id_or_fresh fresh [] = fresh
id_or_fresh fresh (b ∷ id) = b ∷ id

unfoldable pub with_id : Bytes → Bytes → Context → Context
unfolding set_header
with_id name id c =
    let c' = set_header name id (record c { request_id = id }) in
    record c' { resp = record c'.resp { header = set name id c'.resp.header } }

unfoldable pub request_ids : Bytes → Bytes → Middleware
unfolding id_or_fresh with_id get_header
request_ids name fresh next c = next (with_id name (id_or_fresh fresh (get_header name c)) c)

-- A response that a middleware writes itself, since `flashResp` does nothing behind `Abort`.
unfoldable pub write_now : ℕ → Bytes → Context → Context
unfolding write_header write_body
write_now code text c = record c { resp = write_body text (write_header code c.resp) }

-- bodysize/bodysize.go
unfoldable pub body_size : ℤ → Middleware
unfolding write_now abort
body_size max_bytes next c =
    if ltb_ℤ max_bytes c.req.content_length
    then returned (
        write_now 413 (codes "Request Entity Too Large")
          (abort 413 (codes "Request Entity Too Large") c))
    else next (record c { req = record c.req { body_limit = some max_bytes } })

-- timeout/timeout.go: which of the three channels `select` takes. The handler runs in a goroutine of
-- its own, so the context is as the handler has left it by then.
pub data Selected : Type 0 where
  by_panic : Context → Selected
  by_return : (expired : Bool) → Context → Selected
  by_timeout : Context → Selected

unfoldable pub unavailable : Context → Context
unavailable c = record c { status = 503; resp_data = codes "Service Unavailable" }

unfoldable pub timed : Selected → Outcome
unfolding unavailable failed_response
timed (by_panic c) = returned (failed_response c)
timed (by_return expired c) = returned (if expired then unavailable c else c)
timed (by_timeout c) = returned (unavailable c)
