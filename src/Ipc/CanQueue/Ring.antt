-- ===== src/Ipc/CanQueue/Ring.antt =====
-- The batches between two counters of a ring, oldest first.
use native.Mathlib.Nat.{div-add-mod'}
use supercombo_k.Base.{
  ℕ, zero, suc, ◌+◌, ◌%◌, ◌≤◌, ◌<◌, ◌≡◌, ◌≢◌, refl, sym, ap, ap₂, ◌∙◌, List, [], ◌∷◌, ◌++◌, arith,
  length, get_or, set, get_or-set_ne,
}

-- Two counters less than a lap apart use different slots.
pub mod_ne : (n a b : ℕ) → a < b → b < a + n → a % n ≢ b % n
mod_ne n a b lo hi e = grind (arith, div-add-mod' a n, div-add-mod' b n)

module _ {ℓ} {A : Type ℓ} (empty : A) (n : ℕ) where
  -- The batches numbered `from`, `from + 1`, … , `count` of them.
  pub window : List A → ℕ → ℕ → List A
  window slots from zero = []
  window slots from (suc count) = get_or slots (from % n) empty ∷ window slots (from + 1) count

  pub window-suc :
      (slots : List A) (from count : ℕ)
      → window slots from (suc count)
        ≡ get_or slots (from % n) empty ∷ window slots (from + 1) count
  unfolding window
  window-suc slots from count = refl

  pub window-zero : (slots : List A) (from : ℕ) → window slots from 0 ≡ []
  unfolding window
  window-zero slots from = refl

  pub length-window : (slots : List A) (from count : ℕ) → length (window slots from count) ≡ count
  unfolding window
  length-window slots from zero = refl
  length-window slots from (suc count) = ap suc (length-window slots (from + 1) count)

  pub window-snoc :
      (slots : List A) (from count : ℕ)
      → window slots from (suc count)
        ≡ window slots from count ++ get_or slots ((from + count) % n) empty ∷ []
  unfolding window
  window-snoc slots from zero =
      let same : from ≡ from + 0 = omega arith in ap (λ k. get_or slots (k % n) empty ∷ []) same
  window-snoc slots from (suc count) =
      let same : from + 1 + count ≡ from + suc count = omega arith in
      ap (◌∷◌ (get_or slots (from % n) empty)) (
        window-snoc slots (from + 1) count
        ∙ ap (λ k. window slots (from + 1) count ++ get_or slots (k % n) empty ∷ []) same)

  -- A write to the slot of a later number, less than a lap ahead, is not seen.
  pub window-set :
      (slots : List A) (from count at : ℕ) (a : A)
      → from + count ≤ at
      → at < from + n
      → window (set slots (at % n) a) from count ≡ window slots from count
  unfolding window
  window-set slots from zero at a lo hi = refl
  window-set slots from (suc count) at a lo hi =
      ap₂ ◌∷◌
        (get_or-set_ne slots (at % n) (from % n) a empty
          (λ e. mod_ne n from at (omega arith) hi (sym e)))
        (window-set slots (from + 1) count at a (omega arith) (omega arith))
