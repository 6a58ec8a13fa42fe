-- ===== src/Base/Sort/Counts.antt =====
-- How often a text stands in a list.
use mathlib.Core.Path.{◌≡◌, refl}
use mathlib.Core.Bool.{false}
use mathlib.Core.List.{List, [], ◌∷◌, ◌++◌}
use Prim.Native.Nat.{ℕ, suc, ◌+◌, ◌≤◌, Ordering}
use native.Mathlib.Omega.{arith}
use v_kernelx.Base.Lists.{length}
use v_kernelx.Base.Sort.{insert_sorted, sort_by}
use v_kernelx.Base.Tests.{if◌then◌else◌}
use v_kernelx.Base.Text.{Str, str_eq, str_eq_iff}

abbrev pub occurrences : Str → List Str → ℕ
occurrences h [] = 0
occurrences h (x ∷ xs) = let rest = occurrences h xs in if str_eq x h then suc rest else rest

-- The list without the first `h`.
abbrev pub remove : Str → List Str → List Str
remove h [] = []
remove h (x ∷ xs) = let rest = remove h xs in if str_eq x h then xs else x ∷ rest

pub occurrences_self : (h : Str) (xs : List Str) → occurrences h (h ∷ xs) ≡ suc (occurrences h xs)
occurrences_self h xs = rw ((str_eq_iff h h).1 refl) refl

pub occurrences-append :
    (h : Str) (xs ys : List Str) → occurrences h (xs ++ ys) ≡ occurrences h xs + occurrences h ys
occurrences-append h [] ys = omega arith
occurrences-append h (x ∷ xs) ys = ground (arith, occurrences-append h xs ys)

module _ (cmp : Str → Str → Ordering) (h : Str) where
  occurrences-insert_sorted :
      (x : Str) (xs : List Str) → occurrences h (insert_sorted cmp x xs) ≡ occurrences h (x ∷ xs)
  unfolding insert_sorted
  occurrences-insert_sorted x [] = refl
  occurrences-insert_sorted x (y ∷ ys) = ground (arith, occurrences-insert_sorted x ys)

  pub occurrences-sort_by : (xs : List Str) → occurrences h (sort_by cmp xs) ≡ occurrences h xs
  unfolding sort_by
  occurrences-sort_by [] = refl
  occurrences-sort_by (x ∷ xs) =
      ground (arith, occurrences-insert_sorted x (sort_by cmp xs), occurrences-sort_by xs)

-- What is there is taken out once, and nothing else changes.
pub length-remove :
    (h : Str) (xs : List Str) → 1 ≤ occurrences h xs → suc (length (remove h xs)) ≡ length xs
length-remove h [] found = omega (arith, found)
length-remove h (x ∷ xs) found = ground (arith, length-remove h xs)

pub occurrences-remove_self :
    (h : Str) (xs : List Str)
    → 1 ≤ occurrences h xs
    → suc (occurrences h (remove h xs)) ≡ occurrences h xs
occurrences-remove_self h [] found = omega (arith, found)
occurrences-remove_self h (x ∷ xs) found = ground (arith, occurrences-remove_self h xs)

pub occurrences-remove_other :
    (h j : Str) (xs : List Str)
    → str_eq h j ≡ false
    → occurrences j (remove h xs) ≡ occurrences j xs
occurrences-remove_other h j [] apart = refl
occurrences-remove_other h j (x ∷ xs) apart =
    ground
      (arith, occurrences-remove_other h j xs apart, str_eq_iff x h, str_eq_iff x j, str_eq_iff h j)
