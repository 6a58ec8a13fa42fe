-- ===== src/Base/Compare.antt =====
-- `std::cmp::Ordering` as the native `Ordering`, `then_with`, and the laws of a comparator.
use Prim.Native.Nat.{compare, Ordering}
use mathlib.Core.Path.{◌≡◌}
use mathlib.Core.Bool.{Bool, true, false}
use native.Mathlib.Omega.{arith}

abbrev pub reversed : Ordering → Ordering
reversed Ordering.lt = Ordering.gt
reversed Ordering.eq = Ordering.eq
reversed Ordering.gt = Ordering.lt

abbrev pub then_with : Ordering → Ordering → Ordering
then_with Ordering.lt o = Ordering.lt
then_with Ordering.eq o = o
then_with Ordering.gt o = Ordering.gt

-- `!= Greater`
abbrev pub is_le : Ordering → Bool
is_le Ordering.gt = false
is_le Ordering.eq = true
is_le Ordering.lt = true

-- A comparator is a total preorder.
pub record IsComparator {ℓ} {A : Type ℓ} (cmp : A → A → Ordering) : Type ℓ where
  pub flip : (a b : A) → cmp b a ≡ reversed (cmp a b)
  pub lt_trans : (a b c : A) → cmp a b ≡ Ordering.lt → cmp b c ≡ Ordering.lt → cmp a c ≡ Ordering.lt
  pub eq_left : (a b c : A) → cmp a b ≡ Ordering.eq → cmp a c ≡ cmp b c

-- Two elements that compare equal are equal.
pub record IsExact {ℓ} {A : Type ℓ} (cmp : A → A → Ordering) : Type ℓ where
  pub exact : (a b : A) → cmp a b ≡ Ordering.eq → a ≡ b

pub compare-IsComparator : IsComparator compare
compare-IsComparator = record {
  flip = λ a b. ground arith;
  lt_trans = λ a b c h k. ground arith;
  eq_left = λ a b c h. ground arith;
}

pub compare-IsExact : IsExact compare
compare-IsExact = record { exact = λ a b h. ground arith }

module _ {ℓ} {A : Type ℓ} {cmp : A → A → Ordering} (o : IsComparator cmp) where
  pub cmp_refl : (a : A) → cmp a a ≡ Ordering.eq
  cmp_refl a = ground (arith, o.flip a a)

  pub eq_right : (a b c : A) → cmp b c ≡ Ordering.eq → cmp a b ≡ cmp a c
  eq_right a b c h = ground (arith, o.flip b a, o.flip c a, o.eq_left b c a h)

  pub is_le_trans :
      (a b c : A) → is_le (cmp a b) ≡ true → is_le (cmp b c) ≡ true → is_le (cmp a c) ≡ true
  is_le_trans a b c h k = ground (arith, o.lt_trans a b c, o.eq_left a b c, eq_right a b c)

  pub is_le_total : (a b : A) → is_le (cmp a b) ≡ false → is_le (cmp b a) ≡ true
  is_le_total a b h = ground (arith, o.flip a b)

  -- The comparator on a key of the elements.
  pub by_key-IsComparator {κ} :
      {B : Type κ} (key : B → A) → IsComparator (λ (x y : B). cmp (key x) (key y))
  by_key-IsComparator key = record {
    flip = λ a b. o.flip (key a) (key b);
    lt_trans = λ a b c h k. o.lt_trans (key a) (key b) (key c) h k;
    eq_left = λ a b c h. o.eq_left (key a) (key b) (key c) h;
  }

module _ {ℓ} {A : Type ℓ} {f g : A → A → Ordering} (p : IsComparator f) (q : IsComparator g) where
  pub then_with-IsComparator : IsComparator (λ (a b : A). then_with (f a b) (g a b))
  then_with-IsComparator = record {
    flip = λ a b. ground (arith, p.flip a b, q.flip a b);
    lt_trans = λ a b c h k.
        ground (arith, p.lt_trans a b c, p.eq_left a b c, eq_right p a b c, q.lt_trans a b c);
    eq_left = λ a b c h. ground (arith, p.eq_left a b c, q.eq_left a b c);
  }
