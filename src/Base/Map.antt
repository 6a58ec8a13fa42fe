-- ===== src/Base/Map.antt =====
-- `BTreeMap<String, V>` as the list of its entries in the order of the keys, which is the order
-- in which the map is iterated.
pub mod Ext
pub mod Sums
use Prim.Native.Nat.{Ordering}
use mathlib.Core.Path.{◌≡◌, refl}
use mathlib.Core.Bool.{Bool, true, false}
use mathlib.Core.Option.{Option, none, some}
use mathlib.Core.List.{List, [], ◌∷◌}
use native.Mathlib.Omega.{arith}
use mathlib.Core.Logic.{◌⊎◌}
use v_kernelx.Base.Tests.{if◌then◌else◌}
use v_kernelx.Base.Lists.{All}
use v_kernelx.Base.Compare.{cmp_refl}
use v_kernelx.Base.Text.{Str, str_eq, str_eq_iff, str_cmp, str_cmp-IsComparator, str_cmp-IsExact}

abbrev pub Map {ℓ} : Type ℓ → Type ℓ
Map V = List (Str × V)

module _ {ℓ} {V : Type ℓ} where
  unfoldable pub get : Str → Map V → Option V
  get k [] = none
  get k ((j, v) ∷ m) = if str_eq j k then some v else get k m

  unfoldable pub contains_key : Str → Map V → Bool
  unfolding get
  contains_key k m = elim (get k m) [ none ↦ false | some _ ↦ true ]

  place : Ordering → Str → V → Str × V → Map V → Map V → Map V
  place Ordering.lt k v e m rest = (k, v) ∷ e ∷ m
  place Ordering.eq k v e m rest = (k, v) ∷ m
  place Ordering.gt k v e m rest = e ∷ rest

  unfoldable pub insert : Str → V → Map V → Map V
  unfolding place
  insert k v [] = (k, v) ∷ []
  insert k v (e ∷ m) = place (str_cmp k e.0) k v e m (insert k v m)

  abbrev pub values : Map V → List V
  values [] = []
  values (e ∷ m) = e.1 ∷ values m

  -- The keys rise strictly.
  abbrev pub IsOrdered : Map V → Type 0
  IsOrdered [] = Unit
  IsOrdered (e ∷ m) = All (λ f. str_cmp e.0 f.0 ≡ Ordering.lt) m × IsOrdered m

  pub get-insert :
      (k j : Str) (v : V) (m : Map V)
      → get j (insert k v m) ≡ (if str_eq k j then some v else get j m)
  unfolding get insert
  get-insert k j v [] = refl
  get-insert k j v ((i, w) ∷ m) = ground (
    arith,
    str_eq_iff k j,
    str_eq_iff i j,
    str_eq_iff i k,
    str_cmp-IsExact.exact k i,
    cmp_refl str_cmp-IsComparator k,
    get-insert k j v m,
  )

  pub get-insert_self : (k : Str) (v : V) (m : Map V) → get k (insert k v m) ≡ some v
  get-insert_self k v m = ground (arith, get-insert k k v m, str_eq_iff k k)

  pub contains_key-insert_self :
      (k : Str) (v : V) (m : Map V) → contains_key k (insert k v m) ≡ true
  unfolding contains_key
  contains_key-insert_self k v m = ground (arith, get-insert k k v m, str_eq_iff k k)

  pub contains_key-insert :
      (k j : Str) (v : V) (m : Map V)
      → contains_key j m ≡ true
      → contains_key j (insert k v m) ≡ true
  unfolding contains_key
  contains_key-insert k j v m h = ground (arith, get-insert k j v m)

  pub All-contains_key-insert :
      (k : Str) (v : V) (m : Map V) (ps : List Str)
      → All (λ p. contains_key p m ≡ true) ps
      → All (λ p. contains_key p (insert k v m) ≡ true) ps
  All-contains_key-insert k v m [] h = tt
  All-contains_key-insert k v m (p ∷ ps) h =
      (contains_key-insert k p v m h.0, All-contains_key-insert k v m ps h.1)

  -- What an entry of the grown map is: the new one, or an old one.
  pub get-insert_cases :
      (k j : Str) (v w : V) (m : Map V)
      → get j (insert k v m) ≡ some w
      → ((k ≡ j) × (v ≡ w)) ⊎ (get j m ≡ some w)
  get-insert_cases k j v w m h = ground (arith, get-insert k j v m, str_eq_iff k j)

  pub All-insert {κ} :
      (P : Str × V → Type κ) (k : Str) (v : V) (m : Map V)
      → P (k, v)
      → All P m
      → All P (insert k v m)
  unfolding insert
  All-insert P k v [] p h = (p, tt)
  All-insert P k v (e ∷ m) p h =
      let rest = All-insert P k v m p h.1 in
      elim (str_cmp k e.0) as (λ o. All P (place o k v e m (insert k v m))) [
        | Ordering.lt ↦ (p, h)
        | Ordering.eq ↦ (p, h.1)
        | Ordering.gt ↦ (h.0, rest)
      ]

  All-lt_trans :
      (i j : Str) (m : Map V)
      → str_cmp i j ≡ Ordering.lt
      → All (λ f. str_cmp j f.0 ≡ Ordering.lt) m
      → All (λ f. str_cmp i f.0 ≡ Ordering.lt) m
  All-lt_trans i j [] h a = tt
  All-lt_trans i j (e ∷ m) h a =
      (str_cmp-IsComparator.lt_trans i j e.0 h a.0, All-lt_trans i j m h a.1)

  place-IsOrdered :
      (o : Ordering) (k : Str) (v : V) (e : Str × V) (m : Map V)
      → str_cmp k e.0 ≡ o
      → IsOrdered (e ∷ m)
      → IsOrdered (insert k v m)
      → IsOrdered (place o k v e m (insert k v m))
  unfolding place
  place-IsOrdered Ordering.lt k v e m c h rest = ((c, All-lt_trans k e.0 m c h.0), h)
  place-IsOrdered Ordering.eq k v e m c h rest = (rw (str_cmp-IsExact.exact k e.0 c) h.0, h.1)
  place-IsOrdered Ordering.gt k v e m c h rest = (
    All-insert (λ f. str_cmp e.0 f.0 ≡ Ordering.lt) k v m
        (ground (arith, str_cmp-IsComparator.flip k e.0)) h.0,
    rest,
  )

  pub insert-IsOrdered : (k : Str) (v : V) (m : Map V) → IsOrdered m → IsOrdered (insert k v m)
  unfolding insert
  insert-IsOrdered k v [] h = (tt, tt)
  insert-IsOrdered k v (e ∷ m) h =
      place-IsOrdered (str_cmp k e.0) k v e m refl h (insert-IsOrdered k v m h.1)
