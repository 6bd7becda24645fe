-- ===== src/Prelude/Dicts.antt =====
-- A Go map with string keys as an association list in iteration order. Go leaves that order open,
-- so the statements range over every list.
use Prim.Native.Nat.{suc, ◌≤◌}
use mathlib.Core.Path.{◌≡◌, refl, ◌∙◌, ap}
use mathlib.Core.Bool.{true}
use mathlib.Core.List.{List, [], ◌∷◌}
use mathlib.Core.Logic.{inl, inr}
use mathlib.Core.Option.{Option, none, some}
use native.Mathlib.Omega.{arith}
use pm.Prelude.Tests.{if◌then◌else◌, Bool-cases}
use pm.Prelude.Lists.{length}
use pm.Prelude.Texts.{Text, same, same_iff, same_refl, contains}

abbrev pub Dict {ℓ} : Type ℓ → Type ℓ
Dict V = List (Text × V)

abbrev pub dict_keys {ℓ} : {V : Type ℓ} → Dict V → List Text
dict_keys [] = []
dict_keys ((k, v) ∷ m) = k ∷ dict_keys m

module _ {ℓ} {V : Type ℓ} where
  unfoldable pub get : Text → Dict V → Option V
  get k [] = none
  get k ((j, v) ∷ m) = if same k j then some v else get k m

  -- m[k] = v
  unfoldable pub put : Text → V → Dict V → Dict V
  put k v [] = (k, v) ∷ []
  put k v ((j, w) ∷ m) = if same k j then (k, v) ∷ m else (j, w) ∷ put k v m

  -- delete(m, k)
  unfoldable pub remove : Text → Dict V → Dict V
  remove k [] = []
  remove k ((j, w) ∷ m) = if same k j then remove k m else (j, w) ∷ remove k m

  pub get-put :
      (j k : Text) (v : V) (m : Dict V) → get j (put k v m) ≡ (if same j k then some v else get j m)
  unfolding get put
  get-put j k v [] = refl
  get-put j k v ((i, w) ∷ m) =
      ground (arith, same_iff j k, same_iff k i, same_iff j i, get-put j k v m)

  pub get-remove :
      (j k : Text) (m : Dict V) → get j (remove k m) ≡ (if same j k then none else get j m)
  unfolding get remove
  get-remove j k [] = ground arith
  get-remove j k ((i, w) ∷ m) =
      ground (arith, same_iff j k, same_iff k i, same_iff j i, get-remove j k m)

  pub contains-dict_keys :
      (k : Text) (m : Dict V) (v : V) → get k m ≡ some v → contains k (dict_keys m) ≡ true
  unfolding get contains
  contains-dict_keys k [] v h = ground arith
  contains-dict_keys k ((j, w) ∷ m) v h = ground (arith, contains-dict_keys k m v)

  pub get_of_contains :
      (k : Text) (m : Dict V) → contains k (dict_keys m) ≡ true → (v : V) × (get k m ≡ some v)
  unfolding get contains
  get_of_contains k [] h = ground arith
  get_of_contains k ((j, w) ∷ m) h = elim (Bool-cases (same k j)) [
    | inl e ↦ (w, rw e)
    | inr e ↦ let (v, p) = get_of_contains k m (ground arith) in (v, rw e p)
  ]

  pub put-put : (k : Text) (u v : V) (m : Dict V) → put k v (put k u m) ≡ put k v m
  unfolding put
  put-put k u v [] = ground (arith, same_refl k)
  put-put k u v ((j, w) ∷ m) = ground (arith, same_refl k, put-put k u v m)

  remove_absent : (k : Text) (m : Dict V) → get k m ≡ none → remove k m ≡ m
  unfolding get remove
  remove_absent k [] h = refl
  remove_absent k ((j, w) ∷ m) h = ground (arith, remove_absent k m)

  -- A new key that is put and removed again leaves the map as it was, its order included.
  pub remove-put : (k : Text) (v : V) (m : Dict V) → get k m ≡ none → remove k (put k v m) ≡ m
  unfolding put get remove
  remove-put k v [] h = ground (arith, same_refl k)
  remove-put k v ((j, w) ∷ m) h = ground (arith, remove-put k v m)

  pub length-put : (k : Text) (v : V) (m : Dict V) → length (put k v m) ≤ suc (length m)
  unfolding put
  length-put k v [] = omega arith
  length-put k v ((j, w) ∷ m) = ground (arith, length-put k v m)

  pub length-remove : (k : Text) (m : Dict V) → length (remove k m) ≤ length m
  unfolding remove
  length-remove k [] = omega arith
  length-remove k ((j, w) ∷ m) = ground (arith, length-remove k m)

  pub get-put_self : (k : Text) (v : V) (m : Dict V) → get k (put k v m) ≡ some v
  get-put_self k v m = get-put k k v m ∙ ap (λ b. if b then some v else get k m) (same_refl k)
