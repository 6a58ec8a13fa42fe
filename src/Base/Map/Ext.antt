-- ===== src/Base/Map/Ext.antt =====
-- Two ordered maps with the same entry under every key are one map.
use Prim.Native.Nat.{Ordering}
use mathlib.Core.Path.{◌≡◌, refl, ap, ap₂}
use mathlib.Core.Bool.{false}
use mathlib.Core.Logic.{◌⊎◌, inl, inr}
use mathlib.Core.Option.{none, some}
use mathlib.Core.List.{[], ◌∷◌}
use native.Mathlib.Omega.{arith}
use v_kernelx.Base.Tests.{Bool-cases}
use v_kernelx.Base.Lists.{All}
use v_kernelx.Base.Compare.{cmp_refl}
use v_kernelx.Base.Text.{Str, str_eq, str_eq_iff, str_cmp, str_cmp-IsComparator, str_cmp-IsExact}
use v_kernelx.Base.Map.{Map, get, IsOrdered}

pub Ordering-cases : (o : Ordering) → (o ≡ Ordering.lt) ⊎ (o ≡ Ordering.eq) ⊎ (o ≡ Ordering.gt)
Ordering-cases Ordering.lt = inl refl
Ordering-cases Ordering.eq = inr (inl refl)
Ordering-cases Ordering.gt = inr (inr refl)

module _ {ℓ} {V : Type ℓ} where
  -- A key below all keys is not there.
  pub get_below : (k : Str) (m : Map V) → All (λ f. str_cmp k f.0 ≡ Ordering.lt) m → get k m ≡ none
  unfolding get
  get_below k [] h = refl
  get_below k ((j, v) ∷ m) h = elim (Bool-cases (str_eq j k)) [
    | inl same ↦
        let e = (str_eq_iff j k).0 same in
        absurd (ground (arith, cmp_refl str_cmp-IsComparator k, ap (str_cmp k) e, h.0))
    | inr apart ↦ rw apart (get_below k m h.1)
  ]

  pub All-below :
      (i j : Str) (m : Map V)
      → str_cmp i j ≡ Ordering.lt
      → All (λ f. str_cmp j f.0 ≡ Ordering.lt) m
      → All (λ f. str_cmp i f.0 ≡ Ordering.lt) m
  All-below i j [] h a = tt
  All-below i j (e ∷ m) h a = (str_cmp-IsComparator.lt_trans i j e.0 h a.0, All-below i j m h a.1)

  get_head : (k : Str) (v : V) (m : Map V) → get k ((k, v) ∷ m) ≡ some v
  unfolding get
  get_head k v m = rw ((str_eq_iff k k).1 refl) refl

  -- Behind one first entry the rest agree too.
  tails_agree :
      (i j : Str) (v w : V) (m n : Map V)
      → i ≡ j
      → v ≡ w
      → IsOrdered ((i, v) ∷ m)
      → IsOrdered ((j, w) ∷ n)
      → ((k : Str) → get k ((i, v) ∷ m) ≡ get k ((j, w) ∷ n))
      → (k : Str) → get k m ≡ get k n
  unfolding get
  tails_agree i j v w m n same value om on h k = elim (Bool-cases (str_eq i k)) [
    | inl here ↦
        let at : i ≡ k = (str_eq_iff i k).0 here in
        cc (at, same, get_below i m om.0, get_below j n on.0)
    | inr there ↦ let there' : str_eq j k ≡ false = cc (same, there) in rw (there, there') at (h k)
  ]

  pub eq_of_get :
      (m n : Map V) → IsOrdered m → IsOrdered n → ((k : Str) → get k m ≡ get k n) → m ≡ n
  eq_of_get [] [] om on h = refl
  eq_of_get [] ((j, w) ∷ n) om on h = absurd (unfold get in cc (h j, get_head j w n))
  eq_of_get ((i, v) ∷ m) [] om on h = absurd (unfold get in cc (h i, get_head i v m))
  eq_of_get ((i, v) ∷ m) ((j, w) ∷ n) om on h = elim (Ordering-cases (str_cmp i j)) [
    | inl below ↦
        absurd
          (cc (h i, get_head i v m, get_below i ((j, w) ∷ n) (below, All-below i j n below on.0)))
    | inr (inr above) ↦
        let below : str_cmp j i ≡ Ordering.lt = ground (arith, str_cmp-IsComparator.flip i j) in
        absurd
          (cc (h j, get_head j w n, get_below j ((i, v) ∷ m) (below, All-below j i m below om.0)))
    | inr (inl level) ↦
        let same = str_cmp-IsExact.exact i j level in
        let value : v ≡ w = cc (h i, same, get_head i v m, get_head j w n) in
        ap₂ ◌∷◌ (λ t. (same t, value t))
          (eq_of_get m n om.1 on.1 (tails_agree i j v w m n same value om on h))
  ]
