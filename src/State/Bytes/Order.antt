-- ===== src/State/Bytes/Order.antt =====
-- The state root of states in different orders.
use v_kernelx.Base.{
  ◌≡◌, ◌≢◌, refl, List, [], ◌∷◌, arith, All, ℕ, Ordering, compare-IsComparator, by_key-IsComparator,
  then_with-IsComparator, IsComparator,
}
use v_kernelx.Base.Sort.Unique.{IsApart, Reorders, sort_by-eq_of_Reorders}
use v_kernelx.Base.Text.{Str, str_cmp-IsComparator, str_cmp-IsExact}
use v_kernelx.State.{VectorStateV1}
use v_kernelx.State.Bytes.{root_order, compute_state_root}

root_order-IsComparator : IsComparator root_order
root_order-IsComparator =
    then_with-IsComparator
      (then_with-IsComparator
        (by_key-IsComparator str_cmp-IsComparator (λ (s : VectorStateV1). s.vector_id))
        (by_key-IsComparator compare-IsComparator (λ (s : VectorStateV1). s.version)))
      (by_key-IsComparator compare-IsComparator (λ (s : VectorStateV1). s.updated_at_ms))

-- No two of the states share an id.
abbrev pub HasOwnIds : List VectorStateV1 → Type 0
HasOwnIds [] = Unit
HasOwnIds (s ∷ states) = All (λ t. s.vector_id ≢ t.vector_id) states × HasOwnIds states

apart_from :
    (s : VectorStateV1) (states : List VectorStateV1)
    → All (λ t. s.vector_id ≢ t.vector_id) states
    → All (λ t. root_order s t ≢ Ordering.eq) states
apart_from s [] h = tt
apart_from s (t ∷ states) h = (
  λ e. h.0 (str_cmp-IsExact.exact s.vector_id t.vector_id (ground arith)),
  apart_from s states h.1,
)

HasOwnIds-IsApart :
    (states : List VectorStateV1) → HasOwnIds states → IsApart root_order-IsComparator states
HasOwnIds-IsApart [] h = tt
HasOwnIds-IsApart (s ∷ states) h = (apart_from s states h.0, HasOwnIds-IsApart states h.1)

-- The state root of states with different ids does not depend on the order they come in.
pub compute_state_root-eq_of_Reorders :
    (blake3_hex : List ℕ → Str) (states others : List VectorStateV1) (logical_clock : ℕ)
    → Reorders states others
    → HasOwnIds states
    → compute_state_root blake3_hex states logical_clock
      ≡ compute_state_root blake3_hex others logical_clock
unfolding compute_state_root
compute_state_root-eq_of_Reorders blake3_hex states others logical_clock r ids =
    rw (sort_by-eq_of_Reorders root_order-IsComparator r (HasOwnIds-IsApart states ids)) refl
