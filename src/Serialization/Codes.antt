-- ===== src/Serialization/Codes.antt =====
-- Prefix codes: a writer whose bytes, with anything behind them, determine the value written. Each
-- writer of the module is one, on the values that Rust's types can hold.
use v_kernelx.Base.{
  ℕ, zero, suc, ◌/◌, ◌%◌, ◌^◌, ◌<◌, ◌≡◌, refl, sym, ap₂, ◌∙◌, List, [], ◌∷◌, ◌++◌, append_assoc,
  arith, length, All, u64_mod, length-append,
}
use native.Mathlib.Nat.{pow-suc}
use v_kernelx.Base.Text.{Str}
use v_kernelx.Base.Map.{Map}
use v_kernelx.Serialization.{
  to_be_bytes, write_bool, write_u32, write_u64, write_f64, write_str, write_each, write_vec_str,
  write_entry, write_btreemap_str_str, write_vec_u64,
}

-- On the values with `P`, the bytes of `write` can be read off the front of any bytes.
abbrev pub IsCode {ℓ κ} : {A : Type ℓ} → (A → Type κ) → (A → List ℕ) → Type (ℓ ⊔ κ)
IsCode {A} P write =
    (a b : A) (r s : List ℕ) → P a → P b → write a ++ r ≡ write b ++ s → (a ≡ b) × (r ≡ s)

abbrev pub Is64 : ℕ → Type 0
Is64 n = n < u64_mod

-- A length that fits `usize`.
abbrev pub IsSized {ℓ} : {A : Type ℓ} → List A → Type 0
IsSized xs = length xs < u64_mod

pub append_inj {ℓ} :
    {A : Type ℓ} (xs ys r s : List A)
    → length xs ≡ length ys
    → xs ++ r ≡ ys ++ s
    → (xs ≡ ys) × (r ≡ s)
append_inj [] [] r s h e = (refl, e)
append_inj [] (y ∷ ys) r s h e = absurd (omega arith)
append_inj (x ∷ xs) [] r s h e = absurd (omega arith)
append_inj (x ∷ xs) (y ∷ ys) r s h e =
    let ih = append_inj xs ys r s (omega arith) (cc) in (cc (ih.0), ih.1)

pub length-to_be_bytes : (width value : ℕ) → length (to_be_bytes width value) ≡ width
unfolding to_be_bytes
length-to_be_bytes zero value = refl
length-to_be_bytes (suc width) value =
    rw (length-append (to_be_bytes width (value / 256)) (value % 256 ∷ []))
      (omega (arith, length-to_be_bytes width (value / 256)))

-- Fixed-width bytes determine a number in range.
pub to_be_bytes-inj :
    (width a b : ℕ)
    → a < 256 ^ width
    → b < 256 ^ width
    → to_be_bytes width a ≡ to_be_bytes width b
    → a ≡ b
unfolding to_be_bytes
to_be_bytes-inj zero a b ha hb e = omega arith
to_be_bytes-inj (suc width) a b ha hb e =
    let parts =
      append_inj (to_be_bytes width (a / 256)) (to_be_bytes width (b / 256)) (a % 256 ∷ [])
        (b % 256 ∷ [])
        (length-to_be_bytes width (a / 256) ∙ sym (length-to_be_bytes width (b / 256))) e in
    let high =
      to_be_bytes-inj width (a / 256) (b / 256) (omega (arith, pow-suc 256 width))
        (omega (arith, pow-suc 256 width)) parts.0 in
    let low : a % 256 ≡ b % 256 = cc (parts.1) in omega arith

length-write_u64 : (value : ℕ) → length (write_u64 value) ≡ 8
unfolding write_u64 write_u32
length-write_u64 value = omega (
  arith,
  length-append (to_be_bytes 4 (value / 2 ^ 32)) (to_be_bytes 4 (value % 2 ^ 32)),
  length-to_be_bytes 4 (value / 2 ^ 32),
  length-to_be_bytes 4 (value % 2 ^ 32),
)

write_u64-inj : (a b : ℕ) → Is64 a → Is64 b → write_u64 a ≡ write_u64 b → a ≡ b
unfolding write_u64 write_u32
write_u64-inj a b ha hb e =
    let parts =
      append_inj (to_be_bytes 4 (a / 2 ^ 32)) (to_be_bytes 4 (b / 2 ^ 32)) _ _
        (length-to_be_bytes 4 (a / 2 ^ 32) ∙ sym (length-to_be_bytes 4 (b / 2 ^ 32))) e in
    let high = to_be_bytes-inj 4 (a / 2 ^ 32) (b / 2 ^ 32) (omega arith) (omega arith) parts.0 in
    let low = to_be_bytes-inj 4 (a % 2 ^ 32) (b % 2 ^ 32) (omega arith) (omega arith) parts.1 in
    omega arith

-- The writer by two halves writes the eight big-endian bytes.
pub write_u64-to_be_bytes : (value : ℕ) → Is64 value → write_u64 value ≡ to_be_bytes 8 value
unfolding write_u64 write_u32 to_be_bytes
write_u64-to_be_bytes value h = ground arith

module _ {ℓ κ} {A : Type ℓ} {P : A → Type κ} (write : A → List ℕ) (width : ℕ) where
  pub IsCode-fixed :
      ((a : A) → length (write a) ≡ width)
      → ((a b : A) → P a → P b → write a ≡ write b → a ≡ b)
      → IsCode P write
  IsCode-fixed sized inj a b r s pa pb e =
      let parts = append_inj (write a) (write b) r s (sized a ∙ sym (sized b)) e in
      (inj a b pa pb parts.0, parts.1)

pub write_u64-IsCode : IsCode Is64 write_u64
write_u64-IsCode = IsCode-fixed write_u64 8 length-write_u64 write_u64-inj

pub write_f64-IsCode : IsCode Is64 write_f64
unfolding write_f64
write_f64-IsCode =
    IsCode-fixed (to_be_bytes 8) 8 (length-to_be_bytes 8)
      (λ a b ha hb e. to_be_bytes-inj 8 a b (omega arith) (omega arith) e)

pub write_bool-IsCode : IsCode (λ _. Unit {0}) write_bool
unfolding write_bool
write_bool-IsCode a b r s pa pb e = ground arith

-- A length in front of raw bytes, whichever way the length is written.
pub prefixed-IsCode :
    (write_length : ℕ → List ℕ)
    → IsCode Is64 write_length
    → IsCode IsSized (λ (v : List ℕ). write_length (length v) ++ v)
prefixed-IsCode write_length code a b r s pa pb e =
    let front = code (length a) (length b) (a ++ r) (b ++ s) pa pb (simp append_assoc at e) in
    append_inj a b r s front.0 front.1

pub write_str-IsCode : IsCode IsSized write_str
unfolding write_str
write_str-IsCode = prefixed-IsCode write_u64 write_u64-IsCode

module _ {ℓ κ} {A : Type ℓ} (P : A → Type κ) (write : A → List ℕ) (code : IsCode P write) where
  pub write_each-IsCode :
      (xs ys : List A) (r s : List ℕ)
      → length xs ≡ length ys
      → All P xs
      → All P ys
      → write_each write xs ++ r ≡ write_each write ys ++ s
      → (xs ≡ ys) × (r ≡ s)
  unfolding write_each
  write_each-IsCode [] [] r s h px py e = (refl, e)
  write_each-IsCode [] (y ∷ ys) r s h px py e = absurd (omega arith)
  write_each-IsCode (x ∷ xs) [] r s h px py e = absurd (omega arith)
  write_each-IsCode (x ∷ xs) (y ∷ ys) r s h px py e =
      let front =
        code x y (write_each write xs ++ r) (write_each write ys ++ s) px.0 py.0
          (simp append_assoc at e) in
      let rest = write_each-IsCode xs ys r s (omega arith) px.1 py.1 front.1 in
      (ap₂ ◌∷◌ front.0 rest.0, rest.1)

  -- A count in front of so many values, whichever way the count is written.
  pub counted-IsCode :
      (write_length : ℕ → List ℕ)
      → IsCode Is64 write_length
      → IsCode
          (λ (xs : List A). IsSized xs × All P xs)
          (λ xs. write_length (length xs) ++ write_each write xs)
  counted-IsCode write_length code64 xs ys r s px py e =
      let front =
        code64 (length xs) (length ys) (write_each write xs ++ r) (write_each write ys ++ s) px.0
          py.0 (simp append_assoc at e) in
      write_each-IsCode xs ys r s front.0 px.1 py.1 front.1

  -- An entry of a map: the key, then the value.
  pub write_entry-IsCode : IsCode (λ (e : Str × A). IsSized e.0 × P e.1) (write_entry write)
  unfolding write_entry
  write_entry-IsCode (k, v) (j, w) r s pa pb e =
      let key =
        write_str-IsCode k j (write v ++ r) (write w ++ s) pa.0 pb.0 (simp append_assoc at e) in
      let value = code v w r s pa.1 pb.1 key.1 in (λ i. (key.0 i, value.0 i), value.1)

abbrev pub IsSizedList : List Str → Type 0
IsSizedList xs = IsSized xs × All IsSized xs

abbrev pub IsSizedMap : Map Str → Type 0
IsSizedMap m = IsSized m × All (λ e. IsSized e.0 × IsSized e.1) m

abbrev pub Is64List : List ℕ → Type 0
Is64List xs = IsSized xs × All Is64 xs

pub write_vec_str-IsCode : IsCode IsSizedList write_vec_str
unfolding write_vec_str
write_vec_str-IsCode = counted-IsCode IsSized write_str write_str-IsCode write_u64 write_u64-IsCode

pub write_btreemap_str_str-IsCode : IsCode IsSizedMap write_btreemap_str_str
unfolding write_btreemap_str_str
write_btreemap_str_str-IsCode =
    counted-IsCode (λ e. IsSized e.0 × IsSized e.1) (write_entry write_str)
      (write_entry-IsCode IsSized write_str write_str-IsCode) write_u64 write_u64-IsCode

pub write_vec_u64-IsCode : IsCode Is64List write_vec_u64
unfolding write_vec_u64
write_vec_u64-IsCode = counted-IsCode Is64 write_u64 write_u64-IsCode write_u64 write_u64-IsCode
