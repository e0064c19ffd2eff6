-- ===== src/Base/Assoc.antt =====
-- Hash maps with string keys as association lists.
use aethos_linux.Base.Tests.{if◌then◌else◌, Bool-cases}
use mathlib.Core.Path.{◌≡◌, refl, sym, subst}
use mathlib.Core.Bool.{false}
use mathlib.Core.List.{List, [], ◌∷◌}
use mathlib.Core.Option.{Option, none, some}
use mathlib.Core.Logic.{inl, inr}
use native.Mathlib.Omega.{arith}
use aethos_linux.Base.Text.{Text, text_eq, text_eq_refl, text_eq_iff}

module _ {ℓ} {V : Type ℓ} where
  unfoldable pub lookup : Text → List (Text × V) → Option V
  lookup key [] = none
  lookup key (entry ∷ entries) = if text_eq entry.0 key then some entry.1 else lookup key entries

  unfoldable pub remove : Text → List (Text × V) → List (Text × V)
  remove key [] = []
  remove key (entry ∷ entries) =
      if text_eq entry.0 key then remove key entries else entry ∷ remove key entries

  unfoldable pub insert : Text → V → List (Text × V) → List (Text × V)
  unfolding remove
  insert key value entries = (key, value) ∷ remove key entries

  pub lookup-remove_same : (key : Text) (l : List (Text × V)) → lookup key (remove key l) ≡ none
  unfolding lookup remove
  lookup-remove_same key [] = refl
  lookup-remove_same key (entry ∷ l) = ground (arith, lookup-remove_same key l)

  pub lookup-remove_other :
      (key other : Text) (l : List (Text × V))
      → text_eq key other ≡ false
      → lookup other (remove key l) ≡ lookup other l
  unfolding lookup remove
  lookup-remove_other key other [] h = refl
  lookup-remove_other key other (entry ∷ l) h = elim (Bool-cases (text_eq entry.0 key)) [
    | inl e ↦
        rw (e, subst (λ z. text_eq z other ≡ false) (sym ((text_eq_iff entry.0 key).0 e)) h)
          (lookup-remove_other key other l h)
    | inr e ↦ rw e (ground (arith, lookup-remove_other key other l h))
  ]

  pub lookup-insert_same :
      (key : Text) (value : V) (l : List (Text × V)) → lookup key (insert key value l) ≡ some value
  unfolding lookup insert
  lookup-insert_same key value l = rw (text_eq_refl key) (refl)

  pub lookup-insert_other :
      (key other : Text) (value : V) (l : List (Text × V))
      → text_eq key other ≡ false
      → lookup other (insert key value l) ≡ lookup other l
  unfolding lookup insert
  lookup-insert_other key other value l h = rw h (lookup-remove_other key other l h)
