-- ===== src/Base/Dict.antt =====
-- Go maps with text keys, as association lists with at most one entry for a key.
use Prim.Native.Nat.{suc, ◌≤◌}
use mathlib.Core.Path.{◌≡◌, refl}
use mathlib.Core.Option.{Option, none, some}
use mathlib.Core.List.{List, [], ◌∷◌}
use native.Mathlib.Omega.{arith}
use rook_servicechannel_gate.Base.Tests.{if◌then◌else◌}
use rook_servicechannel_gate.Base.Lists.{length}
use rook_servicechannel_gate.Base.Text.{Bytes, bytes_eq, bytes_eq_iff}

module _ {V : Type 0} where
  unfoldable pub lookup : Bytes → List (Bytes × V) → Option V
  lookup k [] = none
  lookup k ((j, v) ∷ m) = if bytes_eq j k then some v else lookup k m

  -- `m[k] = v`
  unfoldable pub put : Bytes → V → List (Bytes × V) → List (Bytes × V)
  put k v [] = (k, v) ∷ []
  put k v ((j, w) ∷ m) = if bytes_eq j k then (k, v) ∷ m else (j, w) ∷ put k v m

  -- `delete(m, k)`
  unfoldable pub delete : Bytes → List (Bytes × V) → List (Bytes × V)
  delete k [] = []
  delete k ((j, w) ∷ m) = if bytes_eq j k then delete k m else (j, w) ∷ delete k m

  -- The entries of `m` written over those of `base`, in order.
  unfoldable pub merge : List (Bytes × V) → List (Bytes × V) → List (Bytes × V)
  merge base [] = base
  merge base ((k, v) ∷ m) = merge (put k v base) m

  pub lookup-put :
      (k j : Bytes) (v : V) (m : List (Bytes × V))
      → lookup j (put k v m) ≡ (if bytes_eq k j then some v else lookup j m)
  unfolding lookup put
  lookup-put k j v [] = refl
  lookup-put k j v ((i, w) ∷ m) =
      ground (arith, bytes_eq_iff k j, bytes_eq_iff i k, bytes_eq_iff i j, lookup-put k j v m)

  pub lookup-delete :
      (k j : Bytes) (m : List (Bytes × V))
      → lookup j (delete k m) ≡ (if bytes_eq k j then none else lookup j m)
  unfolding lookup delete
  lookup-delete k j [] = ground arith
  lookup-delete k j ((i, w) ∷ m) =
      ground (arith, bytes_eq_iff k j, bytes_eq_iff i k, bytes_eq_iff i j, lookup-delete k j m)

  pub length-put_le :
      (k : Bytes) (v : V) (m : List (Bytes × V)) → length (put k v m) ≤ suc (length m)
  unfolding put
  length-put_le k v [] = omega arith
  length-put_le k v ((j, w) ∷ m) = ground (arith, length-put_le k v m)

  pub length-delete_le : (k : Bytes) (m : List (Bytes × V)) → length (delete k m) ≤ length m
  unfolding delete
  length-delete_le k [] = omega arith
  length-delete_le k ((j, w) ∷ m) = ground (arith, length-delete_le k m)

  -- No key has two entries.
  abbrev pub IsUnique : List (Bytes × V) → Type 0
  IsUnique [] = Unit
  IsUnique ((k, v) ∷ m) = (lookup k m ≡ none) × IsUnique m

  pub put-IsUnique : (k : Bytes) (v : V) (m : List (Bytes × V)) → IsUnique m → IsUnique (put k v m)
  unfolding put lookup
  put-IsUnique k v [] u = (refl, tt)
  put-IsUnique k v ((j, w) ∷ m) (absent, u) =
      ground (arith, bytes_eq_iff j k, bytes_eq_iff k j, lookup-put k j v m, put-IsUnique k v m u)

  pub delete-IsUnique : (k : Bytes) (m : List (Bytes × V)) → IsUnique m → IsUnique (delete k m)
  unfolding delete
  delete-IsUnique k [] u = tt
  delete-IsUnique k ((j, w) ∷ m) (absent, u) =
      ground (arith, lookup-delete k j m, delete-IsUnique k m u)

  pub length-put_absent :
      (k : Bytes) (v : V) (m : List (Bytes × V))
      → lookup k m ≡ none
      → length (put k v m) ≡ suc (length m)
  unfolding put lookup
  length-put_absent k v [] h = refl
  length-put_absent k v ((j, w) ∷ m) h = ground (arith, length-put_absent k v m)

  pub length-put_present :
      (k : Bytes) (v w : V) (m : List (Bytes × V))
      → lookup k m ≡ some w
      → length (put k v m) ≡ length m
  unfolding put lookup
  length-put_present k v w [] h = cc
  length-put_present k v w ((j, x) ∷ m) h = ground (arith, length-put_present k v w m)

  pub length-delete_absent :
      (k : Bytes) (m : List (Bytes × V)) → lookup k m ≡ none → length (delete k m) ≡ length m
  unfolding delete lookup
  length-delete_absent k [] h = refl
  length-delete_absent k ((j, w) ∷ m) h = ground (arith, length-delete_absent k m)

  pub length-delete_present :
      (k : Bytes) (w : V) (m : List (Bytes × V))
      → IsUnique m
      → lookup k m ≡ some w
      → suc (length (delete k m)) ≡ length m
  unfolding delete lookup
  length-delete_present k w [] u h = cc
  length-delete_present k w ((j, x) ∷ m) (absent, u) h =
      ground (arith, bytes_eq_iff j k, length-delete_absent k m, length-delete_present k w m u)
