-- ===== src/Orm/Chunks.antt =====
-- orm/insert.go, `splitChunk`: how the rows of a batch insert are cut.
use soil.Base.{
  ℕ, zero, suc, ◌≡◌, ◌≤◌, ◌<◌, refl, arith, ap, ◌∙◌, List, [], ◌∷◌, ◌++◌, length, length-take,
  length-drop, take, drop, take-append-drop, All, by_cases, ◌==◌, append-nil,
}
use soil.Orm.Insert.{chunks_from, split_chunk}

-- The rows of all chunks, in order.
unfoldable pub joined : {T : Type 0} → List (List T) → List T
joined [] = []
joined (c ∷ cs) = c ++ joined cs

joined-chunks_from :
    {T : Type 0} (fuel size : ℕ) (ts : List T)
    → 0 < size
    → length ts ≤ fuel
    → joined (chunks_from fuel size ts) ≡ ts
unfolding chunks_from joined
joined-chunks_from zero size [] p h = refl
joined-chunks_from zero size (t ∷ ts) p h = absurd (ground arith)
joined-chunks_from (suc fuel) size [] p h = refl
joined-chunks_from (suc fuel) size (t ∷ ts) p h =
    ap (λ r. take size (t ∷ ts) ++ r)
      (joined-chunks_from fuel size (drop size (t ∷ ts)) p
        (ground (arith, length-drop size (t ∷ ts))))
    ∙ take-append-drop size (t ∷ ts)

-- A chunk of at least one row and at most the given number of them.
pub IsChunk : {T : Type 0} → ℕ → List T → Type 0
IsChunk size c = (0 < length c) × (length c ≤ size)

chunks_from-IsChunk :
    {T : Type 0} (fuel size : ℕ) (ts : List T)
    → 0 < size
    → All (IsChunk size) (chunks_from fuel size ts)
unfolding chunks_from IsChunk
chunks_from-IsChunk zero size ts p = tt
chunks_from-IsChunk (suc fuel) size [] p = tt
chunks_from-IsChunk (suc fuel) size (t ∷ ts) p = (
  ground (arith, length-take size (t ∷ ts)),
  chunks_from-IsChunk fuel size (drop size (t ∷ ts)) p,
)

-- The chunks of a batch hold all of its rows, each once and in order, for any chunk size, zero
-- included; the fuel is always enough.
pub joined-split_chunk : {T : Type 0} (ts : List T) (size : ℕ) → joined (split_chunk ts size) ≡ ts
unfolding split_chunk
joined-split_chunk [] size = unfold joined in refl
joined-split_chunk (t ∷ ts) size =
    by_cases (λ cs. joined cs ≡ t ∷ ts) (size == 0) _ _ (λ e. whole)
      (λ e. joined-chunks_from (length (t ∷ ts)) size (t ∷ ts) (ground arith) (ground arith))
  where
    whole : joined ((t ∷ ts) ∷ []) ≡ t ∷ ts
    whole = unfold joined in append-nil (t ∷ ts)

-- Of a batch that has rows, and a positive chunk size, no chunk is empty and none is larger than that
-- size.
pub split_chunk-IsChunk :
    {T : Type 0} (t : T) (ts : List T) (size : ℕ)
    → 0 < size
    → All (IsChunk size) (split_chunk (t ∷ ts) size)
unfolding split_chunk
split_chunk-IsChunk t ts size p =
    by_cases (All (IsChunk size)) (size == 0) _ _ (λ e. absurd (ground arith))
      (λ e. chunks_from-IsChunk (length (t ∷ ts)) size (t ∷ ts) p)
