-- ===== src/Ffi/Heads/Dedup.antt =====
-- src/ffi.rs: `dedup` of sorted texts.
use v_kernelx.Base.{
  ◌≡◌, refl, ◌∙◌, ap, Bool, true, false, ◌||◌, arith, Bool-cases, inl, inr, List, [], ◌∷◌, All,
  Ordering, is_le,
}
use v_kernelx.Base.Sort.{IsSorted}
use v_kernelx.Base.Text.{Str, str_eq, str_eq_iff, str_cmp, str_cmp-IsComparator, str_cmp-IsExact}
use v_kernelx.Ffi.Events.{dedup_from, dedup}
use v_kernelx.Ffi.Heads.Sets.{stands}

-- The texts rise strictly.
abbrev pub IsRising : List Str → Type 0
IsRising [] = Unit
IsRising (x ∷ xs) = All (λ y. str_cmp x y ≡ Ordering.lt) xs × IsRising xs

All-dedup_from :
    (P : Str → Type 0) (last : Str) (xs : List Str) → P last → All P xs → All P (dedup_from last xs)
unfolding dedup_from
All-dedup_from P last [] p all = (p, tt)
All-dedup_from P last (x ∷ xs) p all = elim (Bool-cases (str_eq last x)) [
  | inl same ↦ rw same (All-dedup_from P last xs p (all.1))
  | inr apart ↦ rw apart (p, All-dedup_from P x xs (all.0) (all.1))
]

lt_le_trans :
    (a b c : Str)
    → str_cmp a b ≡ Ordering.lt
    → is_le (str_cmp b c) ≡ true
    → str_cmp a c ≡ Ordering.lt
lt_le_trans a b c h k =
    ground (arith, str_cmp-IsComparator.lt_trans a b c, str_cmp-IsExact.exact b c)

All-lt_le :
    (a b : Str) (xs : List Str)
    → str_cmp a b ≡ Ordering.lt
    → All (λ y. is_le (str_cmp b y) ≡ true) xs
    → All (λ y. str_cmp a y ≡ Ordering.lt) xs
All-lt_le a b [] h all = tt
All-lt_le a b (x ∷ xs) h all = (lt_le_trans a b x h (all.0), All-lt_le a b xs h (all.1))

dedup_from-IsRising :
    (last : Str) (xs : List Str)
    → All (λ y. is_le (str_cmp last y) ≡ true) xs
    → IsSorted str_cmp xs
    → IsRising (dedup_from last xs)
unfolding dedup_from
dedup_from-IsRising last [] least sorted = (tt, tt)
dedup_from-IsRising last (x ∷ xs) least sorted = elim (Bool-cases (str_eq last x)) [
  | inl same ↦ rw same (dedup_from-IsRising last xs (least.1) (sorted.1))
  | inr apart ↦
      let less : str_cmp last x ≡ Ordering.lt =
        ground (arith, least.0, str_cmp-IsExact.exact last x, str_eq_iff last x) in
      rw apart (
        All-dedup_from (λ y. str_cmp last y ≡ Ordering.lt) x xs less
            (All-lt_le last x xs less (sorted.0)),
        dedup_from-IsRising x xs (sorted.0) (sorted.1),
      )
]

pub dedup-IsRising : (xs : List Str) → IsSorted str_cmp xs → IsRising (dedup xs)
unfolding dedup
dedup-IsRising [] sorted = tt
dedup-IsRising (x ∷ xs) sorted = dedup_from-IsRising x xs (sorted.0) (sorted.1)

or_twice : (a b : Bool) → (a || b) ≡ (a || (a || b))
or_twice true b = refl
or_twice false b = refl

stands-dedup_from :
    (h last : Str) (xs : List Str) → stands h (dedup_from last xs) ≡ (str_eq last h || stands h xs)
unfolding dedup_from
stands-dedup_from h last [] = refl
stands-dedup_from h last (x ∷ xs) = elim (Bool-cases (str_eq last x)) [
  | inl same ↦ rw same (
      stands-dedup_from h last xs
      ∙ rw ((str_eq_iff last x).0 same) (or_twice (str_eq x h) (stands h xs)))
  | inr apart ↦ rw apart (ap (λ b. str_eq last h || b) (stands-dedup_from h x xs))
]

pub stands-dedup : (h : Str) (xs : List Str) → stands h (dedup xs) ≡ stands h xs
unfolding dedup
stands-dedup h [] = refl
stands-dedup h (x ∷ xs) = stands-dedup_from h x xs
