-- ===== src/Base/Sort/Unique.antt =====
-- A sort by a comparator that tells the elements apart does not depend on their order.
use Prim.Native.Nat.{Ordering}
use mathlib.Core.Path.{◌≡◌, refl, ap, ◌∙◌}
use mathlib.Core.Logic.{◌≢◌}
use mathlib.Core.List.{List, [], ◌∷◌}
use native.Mathlib.Omega.{arith}
use v_kernelx.Base.Lists.{All}
use v_kernelx.Base.Compare.{IsComparator, is_le_trans}
use v_kernelx.Base.Sort.{insert_sorted, sort_by}

module _ {ℓ} {A : Type ℓ} {cmp : A → A → Ordering} (o : IsComparator cmp) where
  insert_sorted_comm :
      (x y : A) (zs : List A)
      → cmp x y ≢ Ordering.eq
      → insert_sorted cmp x (insert_sorted cmp y zs) ≡ insert_sorted cmp y (insert_sorted cmp x zs)
  unfolding insert_sorted
  insert_sorted_comm x y [] apart = ground (arith, o.flip x y)
  insert_sorted_comm x y (z ∷ zs) apart = ground (
    arith,
    o.flip x y,
    o.flip x z,
    o.flip y z,
    is_le_trans o x y z,
    is_le_trans o y x z,
    insert_sorted_comm x y zs apart,
  )

  -- Any two elements at different places compare as different.
  abbrev pub IsApart : List A → Type ℓ
  IsApart [] = Unit
  IsApart (x ∷ xs) = All (λ y. cmp x y ≢ Ordering.eq) xs × IsApart xs

-- The same elements in another order.
pub data Reorders {ℓ} {A : Type ℓ} : List A → List A → Type ℓ where
  same : (xs : List A) → Reorders xs xs
  keep : (x : A) {xs ys : List A} → Reorders xs ys → Reorders (x ∷ xs) (x ∷ ys)
  swap : (x y : A) (xs : List A) → Reorders (x ∷ y ∷ xs) (y ∷ x ∷ xs)
  chain : {xs ys zs : List A} → Reorders xs ys → Reorders ys zs → Reorders xs zs

All-Reorders {ℓ κ} :
    {A : Type ℓ} (P : A → Type κ) {xs ys : List A} → Reorders xs ys → All P xs → All P ys
All-Reorders P (same xs) h = h
All-Reorders P (keep x r) h = (h.0, All-Reorders P r h.1)
All-Reorders P (swap x y xs) h = (h.1.0, (h.0, h.1.1))
All-Reorders P (chain r s) h = All-Reorders P s (All-Reorders P r h)

module _ {ℓ} {A : Type ℓ} {cmp : A → A → Ordering} (o : IsComparator cmp) where
  IsApart-Reorders : {xs ys : List A} → Reorders xs ys → IsApart o xs → IsApart o ys
  IsApart-Reorders (same xs) h = h
  IsApart-Reorders (keep x r) h = (All-Reorders _ r h.0, IsApart-Reorders r h.1)
  IsApart-Reorders (swap x y xs) h =
      ((λ e. h.0.0 (ground (arith, o.flip x y)), h.1.0), (h.0.1, h.1.1))
  IsApart-Reorders (chain r s) h = IsApart-Reorders s (IsApart-Reorders r h)

  -- Lists of the same elements, all apart, have the same sort.
  pub sort_by-eq_of_Reorders :
      {xs ys : List A} → Reorders xs ys → IsApart o xs → sort_by cmp xs ≡ sort_by cmp ys
  unfolding sort_by
  sort_by-eq_of_Reorders (same xs) h = refl
  sort_by-eq_of_Reorders (keep x r) h = ap (insert_sorted cmp x) (sort_by-eq_of_Reorders r h.1)
  sort_by-eq_of_Reorders (swap x y xs) h = insert_sorted_comm o x y (sort_by cmp xs) h.0.0
  sort_by-eq_of_Reorders (chain r s) h =
      sort_by-eq_of_Reorders r h ∙ sort_by-eq_of_Reorders s (IsApart-Reorders r h)
