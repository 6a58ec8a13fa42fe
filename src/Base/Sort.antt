-- ===== src/Base/Sort.antt =====
pub mod Unique
pub mod Counts
-- The standard library's stable `sort_by`, as an insertion sort: a stable sort has one result.
use Prim.Native.Nat.{Ordering}
use mathlib.Core.Path.{◌≡◌, refl}
use mathlib.Core.Logic.{inl, inr}
use mathlib.Core.Bool.{true}
use mathlib.Core.List.{List, [], ◌∷◌, Perm}
use mathlib.Core.List.Perm
use v_kernelx.Base.Tests.{if◌then◌else◌, Bool-cases}
use v_kernelx.Base.Lists.{All}
use v_kernelx.Base.Compare.{is_le, IsComparator, is_le_trans, is_le_total}

module _ {ℓ} {A : Type ℓ} (cmp : A → A → Ordering) where
  -- in front of the elements that are not less
  unfoldable pub insert_sorted : A → List A → List A
  insert_sorted x [] = x ∷ []
  insert_sorted x (y ∷ ys) = if is_le (cmp x y) then x ∷ y ∷ ys else y ∷ insert_sorted x ys

  unfoldable pub sort_by : List A → List A
  unfolding insert_sorted
  sort_by [] = []
  sort_by (x ∷ xs) = insert_sorted x (sort_by xs)

  -- No element is greater than a later one.
  abbrev pub IsSorted : List A → Type ℓ
  IsSorted [] = Unit
  IsSorted (x ∷ xs) = All (λ y. is_le (cmp x y) ≡ true) xs × IsSorted xs

  insert_sorted-perm : (x : A) (xs : List A) → Perm (insert_sorted x xs) (x ∷ xs)
  unfolding insert_sorted
  insert_sorted-perm x [] = Perm.refl _
  insert_sorted-perm x (y ∷ ys) = elim (Bool-cases (is_le (cmp x y))) [
    | inl e ↦ rw e (Perm.refl _)
    | inr e ↦ rw e (Perm.trans (Perm.cons y (insert_sorted-perm x ys)) (Perm.swap x y ys))
  ]

  pub sort_by-perm : (xs : List A) → Perm (sort_by xs) xs
  unfolding sort_by
  sort_by-perm [] = Perm.refl _
  sort_by-perm (x ∷ xs) =
      Perm.trans (insert_sorted-perm x (sort_by xs)) (Perm.cons x (sort_by-perm xs))

module _ {ℓ} {A : Type ℓ} {cmp : A → A → Ordering} (o : IsComparator cmp) where
  All-insert_sorted {κ} :
      (P : A → Type κ) (x : A) (xs : List A) → P x → All P xs → All P (insert_sorted cmp x xs)
  unfolding insert_sorted
  All-insert_sorted P x [] px h = (px, tt)
  All-insert_sorted P x (y ∷ ys) px h = elim (Bool-cases (is_le (cmp x y))) [
    | inl e ↦ rw e (px, h)
    | inr e ↦ rw e (h.0, All-insert_sorted P x ys px h.1)
  ]

  All-le_trans :
      (x y : A) (ys : List A)
      → is_le (cmp x y) ≡ true
      → All (λ z. is_le (cmp y z) ≡ true) ys
      → All (λ z. is_le (cmp x z) ≡ true) ys
  All-le_trans x y [] h a = tt
  All-le_trans x y (z ∷ zs) h a = (is_le_trans o x y z h a.0, All-le_trans x y zs h a.1)

  insert_sorted-IsSorted :
      (x : A) (xs : List A) → IsSorted cmp xs → IsSorted cmp (insert_sorted cmp x xs)
  unfolding insert_sorted
  insert_sorted-IsSorted x [] h = (tt, tt)
  insert_sorted-IsSorted x (y ∷ ys) h = elim (Bool-cases (is_le (cmp x y))) [
    | inl e ↦ rw e ((e, All-le_trans x y ys e h.0), h)
    | inr e ↦ rw e (
      All-insert_sorted (λ z. is_le (cmp y z) ≡ true) x ys (is_le_total o x y e) h.0,
      insert_sorted-IsSorted x ys h.1,
    )
  ]

  pub sort_by-IsSorted : (xs : List A) → IsSorted cmp (sort_by cmp xs)
  unfolding sort_by
  sort_by-IsSorted [] = tt
  sort_by-IsSorted (x ∷ xs) = insert_sorted-IsSorted x (sort_by cmp xs) (sort_by-IsSorted xs)

  -- A sorted list is left as it is.
  pub sort_by-eq_of_IsSorted : (xs : List A) → IsSorted cmp xs → sort_by cmp xs ≡ xs
  unfolding sort_by
  sort_by-eq_of_IsSorted [] h = refl
  sort_by-eq_of_IsSorted (x ∷ xs) h = rw (sort_by-eq_of_IsSorted xs h.1) (insert_front x xs h.0)
    where
      insert_front :
          (x : A) (xs : List A)
          → All (λ y. is_le (cmp x y) ≡ true) xs
          → insert_sorted cmp x xs ≡ x ∷ xs
      insert_front x [] a = refl
      insert_front x (y ∷ ys) a = rw a.0
