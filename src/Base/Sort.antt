-- ===== src/Base/Sort.antt =====
-- `slice::sort_by`, `sort_by_key` and `sort`: the stable sort of the Rust standard library, as a
-- function of the test "ranks strictly before". Its result on a strict weak order is determined:
-- the ascending rearrangement in which items of one rank keep their order.
pub mod Order
pub mod Laws
use aethos_linux.Base.{Bool, List, [], ◌∷◌, if◌then◌else◌}

module _ {ℓ} {A : Type ℓ} (lt : A → A → Bool) where
  -- Before the first item that does not rank strictly before `x`.
  unfoldable pub insert_by : A → List A → List A
  insert_by x [] = x ∷ []
  insert_by x (y ∷ ys) = if lt y x then y ∷ insert_by x ys else x ∷ y ∷ ys

  unfoldable pub sort_by : List A → List A
  unfolding insert_by
  sort_by [] = []
  sort_by (x ∷ xs) = insert_by x (sort_by xs)
