-- ===== src/Region/Meta.antt =====
-- The request's own metadata goes into the event under `meta:` and comes out again.
use v_kernelx.Base.{
  ◌≡◌, refl, ◌∙◌, true, false, Option, none, some, [], ◌∷◌, ◌++◌, arith, inl, inr, Bool-cases,
  Option-cases, if◌then◌else◌,
}
use v_kernelx.Base.Text.{Str, str, str_eq, str_eq_iff}
use v_kernelx.Base.Map.{Map, get, insert, IsOrdered, get-insert, insert-IsOrdered}
use v_kernelx.Base.Map.Ext.{get_below, eq_of_get}
use v_kernelx.Region.Genesis.{add_meta}
use v_kernelx.Region.Reading.{strip_prefix, stripped_meta}

-- The first of two that is there.
abbrev pub first : Option Str → Option Str → Option Str
first (some v) o = some v
first none o = o

pub strip_prefix-append : (p k : Str) → strip_prefix p (p ++ k) ≡ some k
unfolding strip_prefix
strip_prefix-append [] k = refl
strip_prefix-append (c ∷ p) k = ground (arith, strip_prefix-append p k)

pub strip_prefix-eq-some : (p c k : Str) → strip_prefix p c ≡ some k → c ≡ p ++ k
unfolding strip_prefix
strip_prefix-eq-some [] c k h = ground arith
strip_prefix-eq-some (x ∷ p) [] k h = ground arith
strip_prefix-eq-some (x ∷ p) (c ∷ s) k h = ground (arith, strip_prefix-eq-some p s k)

append_cancel : (p s t : Str) → p ++ s ≡ p ++ t → s ≡ t
append_cancel [] s t h = h
append_cancel (c ∷ p) s t h = append_cancel p s t (cc)

module _ (prefix : Str) where
  str_eq-append : (s t : Str) → str_eq (prefix ++ s) (prefix ++ t) ≡ str_eq s t
  str_eq-append s t =
      ground
        (arith, str_eq_iff (prefix ++ s) (prefix ++ t), str_eq_iff s t, append_cancel prefix s t)

abbrev pub meta_key : Str → Str
meta_key k = str "meta:" ++ k

get_cons :
    (k j v : Str) (m : Map Str) → get k ((j, v) ∷ m) ≡ (if str_eq j k then some v else get k m)
unfolding get
get_cons k j v m = refl

-- In an ordered map the first key stands once.
get_tail : (k j v : Str) (m : Map Str) → IsOrdered ((j, v) ∷ m) → str_eq j k ≡ true → get k m ≡ none
get_tail k j v m o h = let at : j ≡ k = (str_eq_iff j k).0 h in rw (← at) (get_below j m o.0)

not_meta : (k j : Str) → strip_prefix (str "meta:") j ≡ none → str_eq (meta_key k) j ≡ false
not_meta k j h = elim (Bool-cases (str_eq (meta_key k) j)) [
  | inl same ↦
      let at : meta_key k ≡ j = (str_eq_iff (meta_key k) j).0 same in
      absurd (cc (at, strip_prefix-append (str "meta:") k, h))
  | inr apart ↦ apart
]

not_meta_flip : (k j : Str) → strip_prefix (str "meta:") j ≡ none → str_eq j (meta_key k) ≡ false
not_meta_flip k j h =
    ground (arith, not_meta k j h, str_eq_iff j (meta_key k), str_eq_iff (meta_key k) j)

-- A key that is no `meta:` key is left alone.
pub get-add_meta_other :
    (j : Str) (m md : Map Str)
    → strip_prefix (str "meta:") j ≡ none
    → get j (add_meta m md) ≡ get j m
unfolding add_meta
get-add_meta_other j m [] h = refl
get-add_meta_other j m ((k, v) ∷ md) h =
    get-add_meta_other j (insert (meta_key k) v m) md h
    ∙ (get-insert (meta_key k) j v m ∙ rw (not_meta k j h) refl)

pub get-add_meta :
    (k : Str) (m md : Map Str)
    → IsOrdered md
    → get (meta_key k) (add_meta m md) ≡ first (get k md) (get (meta_key k) m)
unfolding add_meta
get-add_meta k m [] o = unfold get in refl
get-add_meta k m ((j, v) ∷ md) o = ground (
  arith,
  get-add_meta k (insert (meta_key j) v m) md o.1,
  get-insert (meta_key j) (meta_key k) v m,
  str_eq-append (str "meta:") j k,
  get_cons k j v md,
  get_tail k j v md o,
)

pub get-stripped_meta :
    (k : Str) (acc md : Map Str)
    → IsOrdered md
    → get k (stripped_meta acc md) ≡ first (get (meta_key k) md) (get k acc)
unfolding stripped_meta
get-stripped_meta k acc [] o = unfold get in refl
get-stripped_meta k acc ((j, v) ∷ md) o = elim (Option-cases (strip_prefix (str "meta:") j)) [
  | inl other ↦
      rw (get_cons (meta_key k) j v md, not_meta_flip k j other, other)
        (get-stripped_meta k acc md o.1)
  | inr (i, own) ↦
      let at : j ≡ meta_key i = strip_prefix-eq-some (str "meta:") j i own in
      let same : str_eq j (meta_key k) ≡ str_eq i k = rw at (str_eq-append (str "meta:") i k) in
      let gone = get_tail (meta_key k) j v md o in
      rw own (
        ground (
          arith,
          get-stripped_meta k (insert i v acc) md o.1,
          get-insert i k v acc,
          get_cons (meta_key k) j v md,
          same,
          gone,
        ))
]

stripped_meta-IsOrdered : (acc md : Map Str) → IsOrdered acc → IsOrdered (stripped_meta acc md)
unfolding stripped_meta
stripped_meta-IsOrdered acc [] h = h
stripped_meta-IsOrdered acc ((j, v) ∷ md) h = elim (Option-cases (strip_prefix (str "meta:") j)) [
  | inl other ↦ rw other (stripped_meta-IsOrdered acc md h)
  | inr (i, own) ↦ rw own (stripped_meta-IsOrdered (insert i v acc) md (insert-IsOrdered i v acc h))
]

add_meta-IsOrdered : (m md : Map Str) → IsOrdered m → IsOrdered (add_meta m md)
unfolding add_meta
add_meta-IsOrdered m [] h = h
add_meta-IsOrdered m ((k, v) ∷ md) h =
    add_meta-IsOrdered (insert (meta_key k) v m) md (insert-IsOrdered (meta_key k) v m h)

-- What was added under `meta:` to a map without such keys is read back as it was.
pub stripped_meta-add_meta :
    (m md : Map Str)
    → IsOrdered m
    → IsOrdered md
    → ((k : Str) → get (meta_key k) m ≡ none)
    → stripped_meta [] (add_meta m md) ≡ md
stripped_meta-add_meta m md om od fresh =
    eq_of_get (stripped_meta [] (add_meta m md)) md (stripped_meta-IsOrdered [] _ tt) od (λ k.
      get-stripped_meta k [] (add_meta m md) (add_meta-IsOrdered m md om)
      ∙ rw (get-add_meta k m md od, fresh k) (only k (get k md)))
  where
    only : (k : Str) (o : Option Str) → first (first o none) (get k []) ≡ o
    only k none = unfold get in refl
    only k (some v) = refl
