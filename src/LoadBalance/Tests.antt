-- ===== src/LoadBalance/Tests.antt =====
-- Runs of the gRPC pickers, and the theorems at them. A connection is a number.
use soil.Base.{
  Bytes, codes, same, ℕ, ◌%◌, ◌==◌, ◌≡◌, refl, if◌then◌else◌, true, false, some, List, [], ◌∷◌,
}
use soil.LoadBalance.{
  picked, build_weighted, SmoothConn, WeightConn, ActiveConn, smooth_round, smooth_done,
  filtered_pick, group_filter,
}
use soil.LoadBalance.Weights.{current_sum, current_sum-smooth_round}

abbrev smooth : ℕ → ℕ → ℕ → SmoothConn ℕ
smooth i e w = record { sc = i; efficient_weight = e; current_weight = w; locked = false }

abbrev heavy_conn : SmoothConn ℕ
heavy_conn = smooth 1 5 5

abbrev worn_conn : SmoothConn ℕ
worn_conn = smooth 2 0 0

abbrev held_conn : SmoothConn ℕ
held_conn = record worn_conn { locked = true }

done_locks : smooth_done true worn_conn ≡ some held_conn
unfolding smooth_done
done_locks = refl

abbrev one_weight : List (WeightConn ℕ)
one_weight = record { conn = 1; weight = 5 } ∷ []

-- The total that `Build` leaves is 0.
built_total : build_weighted {S = ℕ} (λ s. 5) (1 ∷ []) ≡ some (0, one_weight)
unfolding build_weighted
built_total = refl

current_sum-smooth_round_example :
    current_sum (smooth_round (heavy_conn ∷ (worn_conn ∷ []))).0
    ≡ current_sum (heavy_conn ∷ (worn_conn ∷ []))
current_sum-smooth_round_example = current_sum-smooth_round heavy_conn (worn_conn ∷ [])

abbrev two_counts : List (ActiveConn ℕ)
two_counts = record { conn = 1; cnt = 4 } ∷ record { conn = 2; cnt = 3 } ∷ []

abbrev tag_of : ℕ → Bytes
tag_of n = if n % 2 == 1 then codes "a" else codes "b"

filter_run :
    (filtered_pick (some (group_filter (codes "a") tag_of)) 4 (1 ∷ 2 ∷ 3 ∷ [])).1 ≡ picked 2
unfolding filtered_pick group_filter same
filter_run = refl
