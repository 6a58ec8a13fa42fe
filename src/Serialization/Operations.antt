-- ===== src/Serialization/Operations.antt =====
-- The canonical bytes of an operation determine it: the tags differ, and only one carries a name.
use v_kernelx.Base.{
  ℕ, ◌≡◌, refl, sym, ap, ◌∙◌, ◌⊎◌, inl, inr, if◌then◌else◌, List, [], ◌++◌, append_assoc,
  append-nil, arith, length,
}
use v_kernelx.Base.Text.{Str, str, str_eq}
use v_kernelx.Event.{
  OperationType, origin_create, certify, transfer, drain, project, reconstruct, move, rotate, scale,
  normalize, constrain, query, record_op, other,
}
use v_kernelx.Serialization.{write_str, operation_bytes}
use v_kernelx.Serialization.Codes.{IsCode, IsSized, append_inj, write_str-IsCode}

-- The tag that is written for an operation, the name behind it, and how they are read back.
abbrev tag : OperationType → Str
tag (other name) = str "OTHER"
tag origin_create = str "ORIGIN_CREATE"
tag certify = str "CERTIFY"
tag transfer = str "TRANSFER"
tag drain = str "DRAIN"
tag project = str "PROJECT"
tag reconstruct = str "RECONSTRUCT"
tag move = str "MOVE"
tag rotate = str "ROTATE"
tag scale = str "SCALE"
tag normalize = str "NORMALIZE"
tag constrain = str "CONSTRAIN"
tag query = str "QUERY"
tag record_op = str "RECORD"

abbrev pub name_of : OperationType → Str
name_of (other name) = name
name_of origin_create = []
name_of _ = []

abbrev behind : OperationType → List ℕ
behind (other name) = write_str name
behind origin_create = []
behind _ = []

operation_bytes-tag : (o : OperationType) → operation_bytes o ≡ write_str (tag o) ++ behind o
unfolding operation_bytes
operation_bytes-tag (other name) = refl
operation_bytes-tag origin_create = sym (append-nil _)
operation_bytes-tag _ = sym (append-nil _)

from_tag : Str → Str → OperationType
from_tag t name =
    if str_eq t (str "ORIGIN_CREATE")
    then origin_create
    else if str_eq t (str "CERTIFY")
    then certify
    else if str_eq t (str "TRANSFER")
    then transfer
    else if str_eq t (str "DRAIN")
    then drain
    else if str_eq t (str "PROJECT")
    then project
    else if str_eq t (str "RECONSTRUCT")
    then reconstruct
    else if str_eq t (str "MOVE")
    then move
    else if str_eq t (str "ROTATE")
    then rotate
    else if str_eq t (str "SCALE")
    then scale
    else if str_eq t (str "NORMALIZE")
    then normalize
    else if str_eq t (str "CONSTRAIN")
    then constrain
    else if str_eq t (str "QUERY")
    then query
    else if str_eq t (str "RECORD")
    then record_op
    else other name

from_tag-tag : (o : OperationType) → from_tag (tag o) (name_of o) ≡ o
unfolding from_tag str str_eq
from_tag-tag (other name) = refl
from_tag-tag origin_create = refl
from_tag-tag _ = refl

IsSized-tag : (o : OperationType) → IsSized (tag o)
unfolding str
IsSized-tag (other name) = omega arith
IsSized-tag origin_create = omega arith
IsSized-tag _ = omega arith

-- Either the operation carries a name, or its tag alone says which it is.
tag_cases :
    (o : OperationType) → ((name : Str) × (o ≡ other name)) ⊎ ((x : Str) → from_tag (tag o) x ≡ o)
unfolding from_tag str str_eq
tag_cases (other name) = inl (name, refl)
tag_cases origin_create = inr (λ x. refl)
tag_cases _ = inr (λ x. refl)

from_tag-other : (x : Str) → from_tag (str "OTHER") x ≡ other x
unfolding from_tag str str_eq
from_tag-other x = refl

same_tag :
    (o p : OperationType) (r s : List ℕ)
    → IsSized (name_of o)
    → IsSized (name_of p)
    → tag o ≡ tag p
    → behind o ++ r ≡ behind p ++ s
    → (o ≡ p) × (r ≡ s)
same_tag o p r s ho hp t e = elim (tag_cases o) [
  | inl (name, is) ↦
      let named : p ≡ other (name_of p) =
        sym (from_tag-tag p)
        ∙ (ap (λ u. from_tag u (name_of p)) (sym t ∙ ap tag is) ∙ from_tag-other (name_of p)) in
      let code =
        write_str-IsCode name (name_of p) r s (rw (ap name_of is) at ho) hp
          (sym (ap (λ u. behind u ++ r) is) ∙ (e ∙ ap (λ u. behind u ++ s) named)) in
      (is ∙ (ap other code.0 ∙ sym named), code.1)
  | inr plain ↦
      let same : o ≡ p =
        sym (plain (name_of p)) ∙ (ap (λ u. from_tag u (name_of p)) t ∙ from_tag-tag p) in
      (same, (append_inj (behind o) (behind p) r s (ap (λ u. length (behind u)) same) e).1)
]

abbrev pub IsSizedOperation : OperationType → Type 0
IsSizedOperation o = IsSized (name_of o)

pub operation_bytes-IsCode : IsCode IsSizedOperation operation_bytes
operation_bytes-IsCode o p r s ho hp e =
    let written =
      write_str-IsCode (tag o) (tag p) (behind o ++ r) (behind p ++ s) (IsSized-tag o)
        (IsSized-tag p) (simp (operation_bytes-tag, append_assoc) at e) in
    same_tag o p r s ho hp written.0 written.1
