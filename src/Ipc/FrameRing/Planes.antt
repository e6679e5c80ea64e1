-- ===== src/Ipc/FrameRing/Planes.antt =====
-- Copying a plane in one go and row by row.
use mathlib.Core.List.{append_assoc}
use native.Mathlib.Nat.{add-mul, mul_comm}
use supercombo_k.Base.{
  ℕ, zero, suc, ◌+◌, ◌*◌, ◌≤◌, ◌≡◌, refl, sym, ap, ap₂, ◌∙◌, List, [], ◌∷◌, ◌++◌, arith, length,
  length-append, take, drop, take-append, drop-append, length-take, min, ◌==◌, Bool-cases, inl, inr,
}
use supercombo_k.Ipc.FrameRing.{copy_at, copy_rows, copy_plane}

drop_congr : (n m : ℕ) (xs : List ℕ) → n ≡ m → drop n xs ≡ drop m xs
drop_congr n m xs e = ap (λ k. drop k xs) e

take_congr : (n m : ℕ) (xs : List ℕ) → n ≡ m → take n xs ≡ take m xs
take_congr n m xs e = ap (λ k. take k xs) e

drop_nil : (n : ℕ) → drop {A = ℕ} n [] ≡ []
drop_nil zero = refl
drop_nil (suc n) = refl

take_nil : (n : ℕ) → take {A = ℕ} n [] ≡ []
take_nil zero = refl
take_nil (suc n) = refl

drop-drop : (n k : ℕ) (xs : List ℕ) → drop k (drop n xs) ≡ drop (n + k) xs
drop-drop zero k xs = drop_congr k (0 + k) xs (omega arith)
drop-drop (suc n) k [] = drop_nil k ∙ sym (drop_nil (suc n + k))
drop-drop (suc n) k (x ∷ xs) =
    drop-drop n k xs ∙ drop_congr (suc (n + k)) (suc n + k) (x ∷ xs) (omega arith)

take_add : (n k : ℕ) (xs : List ℕ) → take n xs ++ take k (drop n xs) ≡ take (n + k) xs
take_add zero k xs = take_congr k (0 + k) xs (omega arith)
take_add (suc n) k [] = take_nil k ∙ sym (take_nil (suc n + k))
take_add (suc n) k (x ∷ xs) =
    ap (◌∷◌ x) (take_add n k xs) ∙ take_congr (suc (n + k)) (suc n + k) (x ∷ xs) (omega arith)

-- A second copy that starts where the first one ends.
copy_at-copy_at :
    (destination a b : List ℕ)
    → copy_at (copy_at destination 0 a) (length a) b ≡ copy_at destination 0 (a ++ b)
copy_at-copy_at destination a b =
    let n = length a in
    let rest = drop (0 + n) destination in
    let head : take n (a ++ rest) ≡ a = take-append a rest in
    let tail : drop (n + length b) (a ++ rest) ≡ drop (0 + length (a ++ b)) destination =
      sym (drop-drop n (length b) (a ++ rest))
      ∙ ap (drop (length b)) (drop-append a rest)
      ∙ drop-drop (0 + n) (length b) destination
      ∙ drop_congr (0 + n + length b) (0 + length (a ++ b)) destination
          (omega (arith, length-append a b)) in
    ap₂ (λ x y. x ++ (b ++ y)) head tail ∙ sym (append_assoc a b _)

row_more : (row width : ℕ) → row * width + width ≡ (row + 1) * width
row_more row width = omega (arith, add-mul row 1 width)

min_below : (n m : ℕ) → n ≤ m → min n m ≡ n
min_below n m h = ground arith

module _ (destination source : List ℕ) (width : ℕ) where
  -- The rows that are copied so far.
  abbrev so_far : ℕ → List ℕ
  so_far row = copy_at destination 0 (take (row * width) source)

  next_row :
      (row : ℕ)
      → (row + 1) * width ≤ length source
      → copy_at (so_far row) (row * width) (take width (drop (row * width) source))
        ≡ so_far (row + 1)
  next_row row fits =
      let n = row * width in
      let more : n + width ≡ (row + 1) * width = row_more row width in
      let below : n ≤ length source = omega (arith, more, fits) in
      let len : length (take n source) ≡ n =
        length-take n source ∙ min_below n (length source) below in
      let both = take_add n width source ∙ take_congr (n + width) ((row + 1) * width) source more in
      ap (λ k. copy_at (so_far row) k (take width (drop n source))) (sym len)
      ∙ copy_at-copy_at destination (take n source) (take width (drop n source))
      ∙ ap (copy_at destination 0) both

  copy_rows-so_far :
      (row left end : ℕ)
      → row + left ≡ end
      → end * width ≤ length source
      → copy_rows (so_far row) width source width row left ≡ so_far end
  unfolding copy_rows
  copy_rows-so_far row zero end e fits = let same : row ≡ end = omega arith in ap so_far same
  copy_rows-so_far row (suc left) end e fits =
      let whole : row + 1 + left ≡ end = omega arith in
      let parts : end * width ≡ (row + 1) * width + left * width =
        ap (λ n. n * width) (sym whole) ∙ add-mul (row + 1) left width in
      ap (λ x. copy_rows x width source width (row + 1) left)
        (next_row row (omega (arith, parts, fits)))
      ∙ copy_rows-so_far (row + 1) left end whole fits

  -- Nothing is copied so far.
  so_far-zero : so_far 0 ≡ destination
  so_far-zero =
      let none_yet : 0 * width ≡ 0 = omega arith in
      ap (copy_at destination 0) (take_congr (0 * width) 0 source none_yet)

-- A plane whose rows lie one after another in both buffers: the copy in one go of copy_plane is the
-- copy row by row that it makes of any other, if the source has all its bytes.
pub copy_plane-copy_rows :
    (destination source : List ℕ) (width rows : ℕ)
    → rows * width ≤ length source
    → copy_plane destination width source width rows
      ≡ copy_rows destination width source width 0 rows
unfolding copy_plane
copy_plane-copy_rows destination source width rows fits = elim (Bool-cases (width == width)) [
  | inl e ↦ rw e (
      ap (copy_at destination 0)
        (take_congr (width * rows) (rows * width) source (mul_comm width rows))
      ∙ sym (copy_rows-so_far destination source width 0 rows rows (omega arith) fits)
      ∙ ap (λ x. copy_rows x width source width 0 rows) (so_far-zero destination source width))
  | inr e ↦ absurd (ground arith)
]
