-- ===== src/Base/Modular.antt =====
-- Places on a ring of `n` places.
use native.Mathlib.Nat.{add-mod-mod, add-mod_right, mod-eq_of_lt}
use Prim.Native.Nat.{ℕ, ◌+◌, ◌-◌, ◌%◌, ◌<◌}
use mathlib.Core.Path.{◌≡◌, ap, ◌∙◌}
use native.Mathlib.Omega.{arith}

-- From `base` it is `(j + n - base) % n` places on to `j`.
pub distance-mod : (base j n : ℕ) → j < n → base < n → (base + (j + n - base) % n) % n ≡ j
distance-mod base j n h b =
    add-mod-mod base (j + n - base) n
    ∙ ap (λ z. z % n) (omega arith)
    ∙ add-mod_right j n
    ∙ mod-eq_of_lt h
