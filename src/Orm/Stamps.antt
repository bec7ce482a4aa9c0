-- ===== src/Orm/Stamps.antt =====
-- orm/updater.go and orm/select.go: the update time among the assignments, and pages.
use soil.Base.{
  ℕ, zero, suc, ◌==◌, ◌+◌, ◌-◌, ◌*◌, ◌≡◌, ◌<◌, refl, arith, ◌∙◌, true, Option, none, some, List, [],
  ◌∷◌, ◌++◌, Bytes, same_refl, by_cases, if◌then◌else◌,
}
use soil.Orm.Builder.{Field, Model}
use soil.Orm.Insert.{Assignable, assignment}
use soil.Orm.Expression.{Expression}
use soil.Orm.Update.{names, any_names, stamp, stamped}
use soil.Orm.Select.{Selector, paginate}

module _ {V E : Type 0} where
  any_names-append :
      (field : Bytes) (xs ys : List (Assignable V E))
      → any_names field ys ≡ true
      → any_names field (xs ++ ys) ≡ true
  unfolding any_names
  any_names-append field [] ys h = h
  any_names-append field (x ∷ xs) ys h = ground (arith, any_names-append field xs ys h)

  any_names-stamp :
      (f : Field) (now : V) (assigns : List (Assignable V E))
      → any_names f.go_name (stamp (some f) now assigns) ≡ true
  unfolding stamp
  any_names-stamp f now assigns =
      by_cases (λ (r : List (Assignable V E)). any_names f.go_name r ≡ true)
        (any_names f.go_name assigns) assigns
        (assigns ++ (assignment f.go_name (Expression.value now) ∷ [])) (λ e. e)
        (λ e. any_names-append f.go_name assigns _ (last f now))
    where
      last :
          (f : Field) (now : V)
          → any_names {V = V} {E = E} f.go_name (assignment f.go_name (Expression.value now) ∷ [])
            ≡ true
      last f now = unfold any_names names in ground (arith, same_refl f.go_name)

  stamp_named :
      (f : Field) (later : V) (assigns : List (Assignable V E))
      → any_names f.go_name assigns ≡ true
      → stamp (some f) later assigns ≡ assigns
  unfolding stamp
  stamp_named f later assigns h = ground arith

  stamp-stamp :
      (o : Option Field) (now later : V) (assigns : List (Assignable V E))
      → stamp o later (stamp o now assigns) ≡ stamp o now assigns
  stamp-stamp none now later assigns = unfold stamp in refl
  stamp-stamp (some f) now later assigns =
      stamp_named f later (stamp (some f) now assigns) (any_names-stamp f now assigns)

  -- What is stamped has an assignment.
  stamped-stamp :
      (m : Model) (o : Option Field) (now later : V) (a : Assignable V E)
      (assigns : List (Assignable V E))
      → stamped m later (stamp o now (a ∷ assigns))
        ≡ stamp m.updated_at later (stamp o now (a ∷ assigns))
  unfolding stamped
  stamped-stamp m none now later a assigns = unfold stamp in refl
  stamped-stamp m (some f) now later a assigns =
      unfold stamp in
      by_cases (λ (r : List (Assignable V E)). stamped m later r ≡ stamp m.updated_at later r)
        (any_names f.go_name (a ∷ assigns)) (a ∷ assigns)
        ((a ∷ assigns) ++ (assignment f.go_name (Expression.value now) ∷ [])) (λ e. refl)
        (λ e. refl)

  -- The update time is added to the assignments of an update once: those that a first `Exec` has
  -- completed are left as they are by a second one at another time, whatever the user has assigned.
  pub stamped-stamped :
      (m : Model) (now later : V) (assigns : List (Assignable V E))
      → stamped m later (stamped m now assigns) ≡ stamped m now assigns
  unfolding stamped
  stamped-stamped m now later [] = refl
  stamped-stamped m now later (a ∷ assigns) =
      stamped-stamp m m.updated_at now later a assigns
      ∙ stamp-stamp m.updated_at now later (a ∷ assigns)

page_index : (p : ℕ) → (if suc p == 0 then 1 else suc p) - 1 ≡ p
page_index p = ground arith

next_page :
    (page n : ℕ)
    → 0 < page
    → ((if page == 0 then 1 else page) - 1) * n + n
      ≡ ((if suc page == 0 then 1 else suc page) - 1) * n
next_page zero n h = absurd (ground arith)
next_page (suc p) n h = rw (page_index p, page_index (suc p)) (omega arith)

-- The pages of a query follow each other: a page ends where the next one begins, its size being the
-- default when none is given.
pub paginate_next :
    {V E : Type 0} (page size : ℕ) (s : Selector V E)
    → 0 < page
    → (paginate page size s).offset + (paginate page size s).limit
      ≡ (paginate (suc page) size s).offset
unfolding paginate
paginate_next page size s h = next_page page (if size == 0 then 10 else size) h
