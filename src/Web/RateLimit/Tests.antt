-- ===== src/Web/RateLimit/Tests.antt =====
-- Runs of the rate limits, and the theorems at them. A token has ten parts, and one part comes in each
-- nanosecond.
use soil.Base.{
  ℕ, ◌+◌, ◌-◌, ◌*◌, ◌≤◌, ◌≡◌, refl, arith, Bool, true, false, Option, none, some, List, [], ◌∷◌,
  Bytes, codes,
}
use soil.Web.Exchange.{Request}
use soil.Web.Context.{nil_request}
use soil.Web.RateLimit.{new_bucket, client_ip, build}
use soil.Web.RateLimit.Window.{takes, takes_window}
use soil.Web.RateLimit.Expiry.{passes, passes-build}

abbrev asks : List (ℕ × Bytes)
asks = (0, codes "a") ∷ (1, codes "a") ∷ (2, codes "a") ∷ (3, codes "b") ∷ (40, codes "a") ∷ []

abbrev proxied : Request
proxied = record nil_request {
  header = (codes "X-Forwarded-For", codes " 1.2.3.4 , 5.6.7.8" ∷ []) ∷ [];
}

limit_tests :
    (passes 10 asks (build 1 20 30 true 0) ≡ true ∷ true ∷ false ∷ true ∷ true ∷ [])
    × (passes 10 asks (build 1 20 30 false 0) ≡ true ∷ true ∷ false ∷ false ∷ true ∷ [])
    × (client_ip (λ a. none) proxied ≡ codes "1.2.3.4")
unfolding passes build client_ip soil.Base.same
limit_tests = (refl, refl, refl)

takes_window_example :
    (takes 10 (7 ∷ 8 ∷ 9 ∷ []) (takes 10 (5 ∷ []) (new_bucket 1 20 0)).0).1 * 10 ≤ 20 + (9 - 7) * 1
takes_window_example =
    takes_window 10 1 20 0 7 9 (5 ∷ []) (7 ∷ 8 ∷ 9 ∷ []) (omega arith) (omega arith) (omega arith)

passes-build_example : passes 10 asks (build 1 20 30 true 0) ≡ passes 10 asks (build 1 20 0 true 0)
passes-build_example = passes-build 10 1 20 30 0 true asks (omega arith)
