-- ===== src/Base/TextLaws.antt =====
-- Trimming a byte off both ends.
use Prim.Native.Nat.{ℕ}
use mathlib.Core.Path.{◌≡◌, refl, ◌∙◌}
use mathlib.Core.Bool.{Bool, false}
use mathlib.Core.List.{[], ◌∷◌, ◌++◌, reverse, reverse-cons, reverse-reverse}
use native.Mathlib.Omega.{arith}
use soil.Base.Tests.{◌==◌}
use soil.Base.Text.{Bytes, last_is, trim_left, trim}

abbrev pub first_is : ℕ → Bytes → Bool
first_is b [] = false
first_is b (c ∷ s) = c == b

trim_left_id : (b : ℕ) (s : Bytes) → first_is b s ≡ false → trim_left b s ≡ s
unfolding trim_left
trim_left_id b [] h = refl
trim_left_id b (c ∷ s) h = rw h

first_is-append :
    (b d : ℕ) (s t : Bytes) → first_is b ((s ++ (d ∷ [])) ++ t) ≡ first_is b (s ++ (d ∷ []))
first_is-append b d [] t = refl
first_is-append b d (c ∷ s) t = refl

first_is-reverse : (b : ℕ) (s : Bytes) → first_is b (reverse s) ≡ last_is b s
unfolding last_is
first_is-reverse b [] = refl
first_is-reverse b (c ∷ []) = refl
first_is-reverse b (c ∷ d ∷ s) =
    rw (reverse-cons c (d ∷ s), reverse-cons d s)
      (first_is-append b d (reverse s) (c ∷ [])
        ∙ rw (← reverse-cons d s) (first_is-reverse b (d ∷ s)))

trim_left-cons : (b : ℕ) (s : Bytes) → trim_left b (b ∷ s) ≡ trim_left b s
unfolding trim_left
trim_left-cons b s = ground arith

-- A byte in front and none at either end of the rest.
pub trim-cons :
    (b : ℕ) (s : Bytes) → first_is b s ≡ false → last_is b s ≡ false → trim b (b ∷ s) ≡ s
unfolding trim
trim-cons b s h k =
    rw
      (
        trim_left-cons b s,
        trim_left_id b s h,
        trim_left_id b (reverse s) (first_is-reverse b s ∙ k),
      )
      (reverse-reverse s)
