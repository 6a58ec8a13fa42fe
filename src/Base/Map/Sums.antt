-- ===== src/Base/Map/Sums.antt =====
-- A number for each entry of an ordered map, added up.
use Prim.Native.Nat.{ℕ, ◌+◌}
use mathlib.Core.Path.{◌≡◌, sym, ap}
use mathlib.Core.Logic.{inl, inr}
use mathlib.Core.Option.{Option, none, some}
use mathlib.Core.List.{[], ◌∷◌}
use native.Mathlib.Omega.{arith}
use v_kernelx.Base.Compare.{cmp_refl}
use v_kernelx.Base.Tests.{Bool-cases}
use v_kernelx.Base.Text.{Str, str_eq, str_eq_iff, str_cmp, str_cmp-IsComparator, str_cmp-IsExact}
use v_kernelx.Base.Map.{Map, get, insert, place, IsOrdered}
use v_kernelx.Base.Map.Ext.{Ordering-cases, get_below, All-below}

module _ {V : Type 0} (f : V → ℕ) where
  abbrev pub sum : Map V → ℕ
  sum [] = 0
  sum (e ∷ m) = f e.1 + sum m

  abbrev pub number_of : Option V → ℕ
  number_of none = 0
  number_of (some v) = f v

  -- A write puts the number of its value in the place of that of the old one.
  pub sum-insert :
      (k : Str) (v : V) (m : Map V)
      → IsOrdered m
      → sum (insert k v m) + number_of (get k m) ≡ sum m + f v
  unfolding insert get place
  sum-insert k v [] o = omega arith
  sum-insert k v ((j, w) ∷ m) o = elim (Ordering-cases (str_cmp k j)) [
    | inl below ↦
        let gone : get k ((j, w) ∷ m) ≡ none =
          get_below k ((j, w) ∷ m) (below, All-below k j m below o.0) in
        rw below (omega (arith, ap number_of gone))
    | inr (inl level) ↦
        let here = (str_eq_iff j k).1 (sym (str_cmp-IsExact.exact k j level)) in
        rw (level, here) (omega arith)
    | inr (inr above) ↦ elim (Bool-cases (str_eq j k)) [
      | inl same ↦ absurd (
          let e = (str_eq_iff j k).0 same in
          ground (arith, cmp_refl str_cmp-IsComparator k, ap (str_cmp k) e, above))
      | inr apart ↦ rw (above, apart) (omega (arith, sum-insert k v m o.1))
    ]
  ]
