-- ===== src/Shared/Dicts.antt =====
-- Go maps with string keys, as association lists.
use mathlib.Core.Path.{◌≡◌, refl}
use mathlib.Core.List.{List, [], ◌∷◌}
use mathlib.Core.Option.{Option, none, some}
use native.Mathlib.Omega.{arith}
use hospitus.Shared.Tests.{if◌then◌else◌}
use hospitus.Shared.Texts.{Text, same, same_iff}

abbrev pub Dict {ℓ} : Type ℓ → Type ℓ
Dict V = List (Text × V)

module _ {ℓ} {V : Type ℓ} where
  unfoldable pub lookup : Text → Dict V → Option V
  lookup k [] = none
  lookup k ((j, v) ∷ m) = if same j k then some v else lookup k m

  unfoldable pub insert : Text → V → Dict V → Dict V
  insert k v [] = (k, v) ∷ []
  insert k v ((other, old) ∷ dict) =
      if same other k then (k, v) ∷ dict else (other, old) ∷ insert k v dict

  -- `delete`.
  unfoldable pub remove : Text → Dict V → Dict V
  remove k [] = []
  remove k ((j, v) ∷ m) = let rest = remove k m in if same j k then rest else (j, v) ∷ rest

  pub lookup-insert :
      (key probe : Text) (value : V) (dict : Dict V)
      → lookup probe (insert key value dict)
        ≡ (if same key probe then some value else lookup probe dict)
  unfolding lookup insert
  lookup-insert key probe value [] = refl
  lookup-insert key probe value ((other, old) ∷ dict) = ground (
    arith,
    lookup-insert key probe value dict,
    same_iff other key,
    same_iff other probe,
    same_iff key probe,
  )

  pub lookup-remove :
      (key probe : Text) (dict : Dict V)
      → lookup probe (remove key dict) ≡ (if same key probe then none else lookup probe dict)
  unfolding lookup remove
  lookup-remove key probe [] = ground arith
  lookup-remove key probe ((other, old) ∷ dict) = ground (
    arith,
    lookup-remove key probe dict,
    same_iff other key,
    same_iff other probe,
    same_iff key probe,
  )

  -- No key stands twice.
  abbrev pub IsMap : Dict V → Type ℓ
  IsMap [] = Unit
  IsMap ((k, v) ∷ m) = (lookup k m ≡ none) × IsMap m

  pub insert-IsMap : (k : Text) (v : V) (m : Dict V) → IsMap m → IsMap (insert k v m)
  unfolding insert lookup
  insert-IsMap k v [] h = (refl, tt)
  insert-IsMap k v ((j, w) ∷ m) h =
      ground (arith, insert-IsMap k v m h.1, lookup-insert k j v m, same_iff j k, same_iff k j, h.0)

  pub remove-IsMap : (k : Text) (m : Dict V) → IsMap m → IsMap (remove k m)
  unfolding remove
  remove-IsMap k [] h = tt
  remove-IsMap k ((j, w) ∷ m) h = ground (arith, remove-IsMap k m h.1, lookup-remove k j m, h.0)
