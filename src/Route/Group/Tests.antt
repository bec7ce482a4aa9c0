-- ===== src/Route/Group/Tests.antt =====
-- Runs of route groups, and the theorem at one. A handler is a number.
use soil.Base.{ℕ, ◌+◌, ◌*◌, ◌≡◌, refl, some, [], ◌∷◌, Bytes, codes, same}
use soil.Route.Node.{Regexp}
use soil.Route.Insert.{Router}
use soil.Route.Group.{Group, top, wrap, full_path, make_group}

abbrev texts : Regexp Bytes
texts = record { compile = λ e. some e; source = λ e. e; is_match = same }

abbrev outer : Group ℕ
outer = top (codes "api/") ((λ n. n * 2) ∷ [])

abbrev no_routes : Router ℕ Bytes
no_routes = []

group_tests :
    (full_path (make_group (codes "v1/") ((λ n. n + 1) ∷ []) outer) (codes "me")
      ≡ codes "/api/v1/me")
    × (wrap (make_group (codes "v1/") ((λ n. n + 1) ∷ []) outer) 5 ≡ 12)
unfolding full_path make_group wrap
group_tests = (refl, refl)
