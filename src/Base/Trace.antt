-- ===== src/Base/Trace.antt =====
-- Histories of a component: the inputs so far, the latest first, and the state after them.
use dyx_3wd.Base.{List, [], ◌∷◌}

module _ {ℓ κ} {S : Type ℓ} {I : Type κ} (step : S → I → S) (s : S) where
  unfoldable pub after : List I → S
  after [] = s
  after (i ∷ is) = step (after is) i

  -- What every step keeps holds after every history.
  pub after_inv {μ} :
      (P : S → Type μ) → P s → ((t : S) (i : I) → P t → P (step t i)) → (is : List I) → P (after is)
  unfolding after
  after_inv P start keep [] = start
  after_inv P start keep (i ∷ is) = keep (after is) i (after_inv P start keep is)
