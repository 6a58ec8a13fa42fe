-- ===== src/State/Bytes/Fields.antt =====
-- Each writer of src/state.rs: its bytes determine the value, whatever follows them.
use v_kernelx.Base.{
  ℕ, ◌<◌, ◌≡◌, refl, sym, ap, ◌∙◌, Option, none, some, List, ◌++◌, append_assoc, arith, All,
  u128_mod, if◌then◌else◌,
}
use v_kernelx.Base.Text.{Str, str, str_eq}
use v_kernelx.State.{VectorType, VectorStatus}
use v_kernelx.State.Bytes.{
  write_bool, write_u64, write_u128, write_str, write_vec_u128, write_pair, write_btreemap_str_str,
  type_name, write_vector_type, status_name, write_vector_status, write_option,
}
use v_kernelx.Serialization.{to_be_bytes}
use v_kernelx.Serialization.Codes.{
  IsCode, Is64, IsSized, IsSizedMap, IsCode-fixed, length-to_be_bytes, to_be_bytes-inj,
  prefixed-IsCode, counted-IsCode,
}

abbrev pub Is128 : ℕ → Type 0
Is128 n = n < u128_mod

abbrev Anything {ℓ} : {A : Type ℓ} → A → Type 0
Anything a = Unit

pub write_bool-IsCode : IsCode Anything write_bool
unfolding write_bool
write_bool-IsCode a b r s pa pb e = ground arith

pub write_u64-IsCode : IsCode Is64 write_u64
unfolding write_u64
write_u64-IsCode =
    IsCode-fixed (to_be_bytes 8) 8 (length-to_be_bytes 8)
      (λ a b ha hb e. to_be_bytes-inj 8 a b (omega arith) (omega arith) e)

pub write_u128-IsCode : IsCode Is128 write_u128
unfolding write_u128
write_u128-IsCode =
    IsCode-fixed (to_be_bytes 16) 16 (length-to_be_bytes 16)
      (λ a b ha hb e. to_be_bytes-inj 16 a b (omega arith) (omega arith) e)

pub write_str-IsCode : IsCode IsSized write_str
unfolding write_str
write_str-IsCode = prefixed-IsCode write_u64 write_u64-IsCode

abbrev pub Is128List : List ℕ → Type 0
Is128List xs = IsSized xs × All Is128 xs

pub write_vec_u128-IsCode : IsCode Is128List write_vec_u128
unfolding write_vec_u128
write_vec_u128-IsCode = counted-IsCode Is128 write_u128 write_u128-IsCode write_u64 write_u64-IsCode

write_pair-IsCode : IsCode (λ (e : Str × Str). IsSized e.0 × IsSized e.1) write_pair
unfolding write_pair
write_pair-IsCode (k, v) (j, w) r s pa pb e =
    let key =
      write_str-IsCode k j (write_str v ++ r) (write_str w ++ s) pa.0 pb.0
        (simp append_assoc at e) in
    let value = write_str-IsCode v w r s pa.1 pb.1 key.1 in (λ i. (key.0 i, value.0 i), value.1)

pub write_btreemap_str_str-IsCode : IsCode IsSizedMap write_btreemap_str_str
unfolding write_btreemap_str_str
write_btreemap_str_str-IsCode =
    counted-IsCode (λ e. IsSized e.0 × IsSized e.1) write_pair write_pair-IsCode write_u64
      write_u64-IsCode

type_of : Str → VectorType
type_of t =
    if str_eq t (str "STANDARD")
    then VectorType.standard
    else if str_eq t (str "ORIGIN")
    then VectorType.origin
    else if str_eq t (str "PROJECTED")
    then VectorType.projected
    else if str_eq t (str "ESCROW")
    then VectorType.escrow
    else if str_eq t (str "SETTLEMENT")
    then VectorType.settlement
    else VectorType.locked

type_of-type_name : (t : VectorType) → type_of (type_name t) ≡ t
unfolding type_of str str_eq
type_of-type_name VectorType.standard = refl
type_of-type_name _ = refl

IsSized-type_name : (t : VectorType) → IsSized (type_name t)
unfolding str
IsSized-type_name VectorType.standard = omega arith
IsSized-type_name _ = omega arith

pub write_vector_type-IsCode : IsCode Anything write_vector_type
unfolding write_vector_type
write_vector_type-IsCode a b r s pa pb e =
    let c =
      write_str-IsCode (type_name a) (type_name b) r s (IsSized-type_name a) (IsSized-type_name b)
        e in
    (sym (type_of-type_name a) ∙ (ap type_of c.0 ∙ type_of-type_name b), c.1)

status_of : Str → VectorStatus
status_of t =
    if str_eq t (str "ACTIVE")
    then VectorStatus.active
    else if str_eq t (str "PROJECTED")
    then VectorStatus.projected
    else if str_eq t (str "ESCROWED")
    then VectorStatus.escrowed
    else if str_eq t (str "SETTLED")
    then VectorStatus.settled
    else VectorStatus.archived

status_of-status_name : (t : VectorStatus) → status_of (status_name t) ≡ t
unfolding status_of str str_eq
status_of-status_name VectorStatus.active = refl
status_of-status_name _ = refl

IsSized-status_name : (t : VectorStatus) → IsSized (status_name t)
unfolding str
IsSized-status_name VectorStatus.active = omega arith
IsSized-status_name _ = omega arith

pub write_vector_status-IsCode : IsCode Anything write_vector_status
unfolding write_vector_status
write_vector_status-IsCode a b r s pa pb e =
    let c =
      write_str-IsCode (status_name a) (status_name b) r s (IsSized-status_name a)
        (IsSized-status_name b) e in
    (sym (status_of-status_name a) ∙ (ap status_of c.0 ∙ status_of-status_name b), c.1)

-- A predicate on what an option holds, if anything.
abbrev pub OnSome {ℓ κ} : {A : Type ℓ} → (A → Type κ) → Option A → Type κ
OnSome P none = Unit
OnSome P (some a) = P a

pub write_option-IsCode {ℓ κ} :
    {A : Type ℓ} (P : A → Type κ) (write : A → List ℕ)
    → IsCode P write
    → IsCode (OnSome P) (write_option write)
unfolding write_option write_bool
write_option-IsCode P write code none none r s pa pb e = (refl, cc)
write_option-IsCode P write code none (some b) r s pa pb e = absurd (ground arith)
write_option-IsCode P write code (some a) none r s pa pb e = absurd (ground arith)
write_option-IsCode P write code (some a) (some b) r s pa pb e =
    let c = code a b r s pa pb (cc) in (ap some c.0, c.1)
