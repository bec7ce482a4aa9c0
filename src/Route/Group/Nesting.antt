-- ===== src/Route/Group/Nesting.antt =====
-- web/group.go: a group inside a group.
use soil.Base.{
  ◌≡◌, refl, ap, inl, inr, true, some, List, [], ◌∷◌, ◌++◌, Bytes, ◌==◌, arith, Bool-cases,
}
use soil.Route.Node.{Regexp}
use soil.Route.Insert.{Router, add_route}
use soil.Route.Group.{
  Group, top, nested, rooted, trim_suffix, all_middlewares, wrap_all, wrap, full_path, make_group,
  register,
}

wrap_all-append :
    {H : Type 0} (ms ns : List (H → H)) (h : H)
    → wrap_all (ms ++ ns) h ≡ wrap_all ms (wrap_all ns h)
unfolding wrap_all
wrap_all-append [] ns h = refl
wrap_all-append (m ∷ ms) ns h = ap m (wrap_all-append ms ns h)

-- A path that begins with a slash.
abbrev pub IsRooted : Bytes → Type 0
IsRooted s = (t : Bytes) × (s ≡ b'/' ∷ t)

rooted-IsRooted : (s : Bytes) → IsRooted (rooted s)
unfolding rooted
rooted-IsRooted [] = ([], refl)
rooted-IsRooted (c ∷ s) = elim (Bool-cases (c == b'/')) [
  | inl e ↦ let q : c ≡ b'/' = ground arith in (s, rw e (ap (λ x. x ∷ s) q))
  | inr e ↦ (c ∷ s, rw e refl)
]

rooted_of_IsRooted : (s : Bytes) → IsRooted s → rooted s ≡ s
unfolding rooted
rooted_of_IsRooted [] (t, e) = absurd (ground arith)
rooted_of_IsRooted (c ∷ s) (t, e) = let q : c ≡ b'/' = ground arith in ground arith

trim-append-IsRooted : (s t : Bytes) → IsRooted s → IsRooted t → IsRooted (trim_suffix s ++ t)
unfolding trim_suffix
trim-append-IsRooted [] t (u, e) r = absurd (ground arith)
trim-append-IsRooted (c ∷ []) t (u, e) r = let q : (c == b'/') ≡ true = ground arith in rw q r
trim-append-IsRooted (c ∷ d ∷ s) t (u, e) r =
    let q : c ≡ b'/' = ground arith in
    (trim_suffix (d ∷ s) ++ t, ap (λ x. x ∷ (trim_suffix (d ∷ s) ++ t)) q)

full_path-IsRooted : {H : Type 0} (g : Group H) (path : Bytes) → IsRooted (full_path g path)
unfolding full_path
full_path-IsRooted (top prefix mdls) path =
    trim-append-IsRooted (rooted prefix) (rooted path) (rooted-IsRooted prefix)
      (rooted-IsRooted path)
full_path-IsRooted (nested prefix mdls parent) path =
    trim-append-IsRooted (rooted (full_path parent prefix)) (rooted path)
      (rooted-IsRooted (full_path parent prefix)) (rooted-IsRooted path)

-- Registering in a group inside a group adds the route whose path is that of the inner prefix in the
-- outer group, less a last slash, and the path behind it, with a slash in front; its handler has the
-- outer group's middlewares around the inner ones.
pub register-make_group :
    {H R : Type 0} (re : Regexp R) (g : Group H) (prefix : Bytes) (mdls : List (H → H))
    (m path : Bytes) (h : H) (r : Router H R)
    → register re (make_group prefix mdls g) m path h r
      ≡ add_route re r m
          (trim_suffix (full_path g prefix) ++ rooted path)
          (some (wrap g (wrap_all mdls h)))
unfolding register make_group wrap all_middlewares full_path
register-make_group re g prefix mdls m path h r =
    rw
      (
        rooted_of_IsRooted (full_path g prefix) (full_path-IsRooted g prefix),
        wrap_all-append (all_middlewares g) mdls h,
      )
      refl
