-- ===== src/Web/Middlewares/Recovery.antt =====
-- web/middleware/recovery in a server: what the client gets for a request that panics.
use soil.Base.{
  ◌≡◌, refl, Bool, true, false, none, some, List, ◌∷◌, ◌++◌, codes, Bool-cases, inl, inr,
  if◌then◌else◌,
}
use soil.Route.Node.{Regexp}
use soil.Route.Insert.{Router}
use soil.Route.Group.{wrap_all}
use soil.Web.Exchange.{Request, Response, completed}
use soil.Web.Context.{Context, new_context, headers_of}
use soil.Web.Server.{
  returned, panicked, Handler, Middleware, serve_http, answer, add_headers, serve, flashing,
  flash_resp,
}
use soil.Web.Middlewares.{recovery, recovered, failed_response}

abbrev started : Response → Request → Context
started w rq = record new_context { resp = w; req = rq }

is_answered :
    (b : Bool) (x y : Context)
    → (out : Response) × (answer (if b then returned x else returned y) ≡ some out)
unfolding answer
is_answered true x y = (completed x.resp, refl)
is_answered false x y = (completed y.resp, refl)

module _ {R : Type 0} (re : Regexp R) (router : Router Handler R) (mdls : List Middleware)
    (taken : Context) (w : Response) (rq : Request) where
  -- With the recovery as the first middleware, the client gets an answer for every request, whatever
  -- the other middlewares and the handlers do.
  pub serve_http-recovery_total :
      (out : Response) × (answer (serve_http re router (recovery ∷ mdls) taken w rq).0 ≡ some out)
  unfolding serve_http recovery
  serve_http-recovery_total =
      elim (wrap_all mdls (serve re router) (started w rq))
        as (λ o.
          (out : Response) × (answer (flashing (λ _. recovered o) (started w rq)) ≡ some out)) [
            | returned c ↦ is_answered c.is_done c (flash_resp c)
            | panicked c ↦ is_answered c.is_done _ (flash_resp (failed_response c))
          ]

  -- With the recovery as the first middleware, a request that panics before anything is written to its
  -- client is answered with 500, the headers that its context has by then and the text of the error;
  -- where it has been aborted before, nothing is written, and the client gets an empty answer with the
  -- code 200.
  pub serve_http-recovery :
      (c : Context)
      → wrap_all mdls (serve re router) (started w rq) ≡ panicked c
      → c.resp.sent ≡ none
      → answer (serve_http re router (recovery ∷ mdls) taken w rq).0
        ≡ some (
            if c.is_done
            then record c.resp { sent = some (200, c.resp.header) }
            else (let h = add_headers (headers_of c.resp_headers) c.resp.header in
                record {
                  header = h;
                  sent = some (500, h);
                  body = c.resp.body ++ codes "Internal Server Error";
                }))
  unfolding serve_http recovery answer
  serve_http-recovery c panics fresh = elim (Bool-cases c.is_done) [
    | inl e ↦ rw (panics, e, fresh)
    | inr e ↦ rw (panics, e, fresh)
  ]
