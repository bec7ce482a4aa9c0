-- ===== src/Web/Server/Reuse.antt =====
-- web/server.go: contexts are taken from a pool and put back into it.
use soil.Base.{◌≡◌, refl, ap, Option, none, some, List, [], ◌∷◌, map}
use soil.Route.Node.{Regexp}
use soil.Route.Insert.{Router}
use soil.Web.Exchange.{Request, Response}
use soil.Web.Context.{Context, new_context}
use soil.Web.Server.{Handler, Middleware, serve_http, answer}

-- `sync.Pool`, which gives back anything that was put into it, or nothing.
pub record ContextPool (P : Type 0) : Type 0 where
  pub take : P → Option Context × P
  pub put : Context → P → P

abbrev or_new : Option Context → Context
or_new none = new_context
or_new (some c) = c

module _ {R P : Type 0} (pool : ContextPool P) (re : Regexp R) (router : Router Handler R)
    (mdls : List Middleware) where
  -- Requests one after another, each with the writer that it came with; what the clients get.
  unfoldable pub serve_all : P → List (Response × Request) → List (Option Response)
  unfolding serve_http answer
  serve_all p [] = []
  serve_all p ((w, rq) ∷ more) =
      let (taken, p') = pool.take p in
      let (out, back) = serve_http re router mdls (or_new taken) w rq in
      answer out ∷ serve_all (pool.put back p') more

  unfoldable pub alone : Response × Request → Option Response
  alone (w, rq) = answer (serve_http re router mdls new_context w rq).0

  serve_http-taken :
      (c : Context) (w : Response) (rq : Request)
      → serve_http re router mdls c w rq ≡ serve_http re router mdls new_context w rq
  unfolding serve_http
  serve_http-taken c w rq = refl

  -- Whatever the pool gives, each client gets what it would get from a server with a new context for
  -- its request: nothing of an earlier request shows in a later answer. The middlewares are functions:
  -- their work has ended when they return, which that of a handler behind the timeout may not have.
  pub serve_all-alone : (p : P) (rqs : List (Response × Request)) → serve_all p rqs ≡ map alone rqs
  unfolding serve_all alone
  serve_all-alone p [] = refl
  serve_all-alone p ((w, rq) ∷ more) =
      ap (λ t. answer (serve_http re router mdls new_context w rq).0 ∷ t)
        (serve_all-alone
          (pool.put (serve_http re router mdls (or_new (pool.take p).0) w rq).1 (pool.take p).1)
          more)
