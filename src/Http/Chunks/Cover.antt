-- ===== src/Http/Chunks/Cover.antt =====
-- The chunks of a request: they cover it in order, none is too large, and none is cut again.
use mathlib.Core.List.{flatten}
use go_eth2_client.Prelude.{
  ℕ, zero, suc, ◌≤◌, List, [], ◌∷◌, ◌++◌, take, drop, length, length-take, length-drop,
  take-append-drop, All, ◌≡◌, refl, ap, ◌∙◌, arith,
}
use go_eth2_client.Http.Chunks.{chunks}

module _ {K : Type 0} (size : ℕ) (some_size : 1 ≤ size) where
  chunks-cover :
      (fuel : ℕ) (ids : List K) → length ids ≤ fuel → flatten (chunks fuel size ids) ≡ ids
  unfolding chunks flatten
  chunks-cover zero [] h = refl
  chunks-cover zero (x ∷ xs) h = absurd (omega arith)
  chunks-cover (suc fuel) [] h = refl
  chunks-cover (suc fuel) (x ∷ xs) h =
      ap (◌++◌ (take size (x ∷ xs)))
        (chunks-cover fuel (drop size (x ∷ xs)) (omega (arith, length-drop size (x ∷ xs))))
      ∙ take-append-drop size (x ∷ xs)

  pub chunks-size :
      (fuel : ℕ) (ids : List K)
      → All (λ (c : List K). (1 ≤ length c) × (length c ≤ size)) (chunks fuel size ids)
  unfolding chunks
  chunks-size zero ids = tt
  chunks-size (suc fuel) [] = tt
  chunks-size (suc fuel) (x ∷ xs) = (
    (omega (arith, length-take size (x ∷ xs)), omega (arith, length-take size (x ∷ xs))),
    chunks-size fuel (drop size (x ∷ xs)),
  )

  -- For a chunk size of one at least, the chunks of a list of validators put together are the
  -- list: none is left out, asked for twice or moved. No chunk is empty or larger than the size.
  -- Fuel as large as the list is enough.
  pub chunks_cover :
      (ids : List K)
      → (flatten (chunks (length ids) size ids) ≡ ids)
        × All (λ (c : List K). (1 ≤ length c) × (length c ≤ size)) (chunks (length ids) size ids)
  chunks_cover ids = (chunks-cover (length ids) ids (omega arith), chunks-size (length ids) ids)
