-- ===== src/Engine/Moves.antt =====
-- What a transfer and an origin write to the states, whether or not their record and their event go
-- through.
use v_kernelx.Base.{
  ℕ, ◌+◌, ◌≡◌, ◌≢◌, refl, sym, ap, ◌∙◌, Option, none, some, List, [], ◌∷◌, arith, is_nil, length,
  length-zip_with,
}
use v_kernelx.Base.Text.{Str, str_eq_iff}
use v_kernelx.Base.Map.{Map, get, insert, get-insert}
use v_kernelx.Components.{Covers, Room, total, sub_all, add_all, length-eq_of_Covers, total-add_all}
use v_kernelx.Engine.Induction.{record_transfer-Keeps}
use v_kernelx.Engine.Ledger.{keep_record-Keeps}
use v_kernelx.Engine.Monad.{KernelEngine, ◌>>=◌}
use v_kernelx.Engine.Operations.{existing, recertified, record_transfer, transfer}
use v_kernelx.Engine.States.{append-Keeps_states}
use v_kernelx.Error.{ok}
use v_kernelx.External.{External}
use v_kernelx.State.{VectorStateV1, validate_canonical_state}
use v_kernelx.Storage.{get_state, put_state, put_record}
use v_kernelx.Transfer.{sent, received}
use v_kernelx.Transfer.Conservation.{Accepted, transfer-eq-ok_iff, transfer-total}
use v_kernelx.Validation.{validate_state}

is_nil-length : (xs ys : List ℕ) → length xs ≡ length ys → is_nil xs ≡ is_nil ys
is_nil-length [] [] h = refl
is_nil-length [] (y ∷ ys) h = absurd (omega arith)
is_nil-length (x ∷ xs) [] h = absurd (omega arith)
is_nil-length (x ∷ xs) (y ∷ ys) h = refl

module _ (now : ℕ) (s : VectorStateV1) (amount : List ℕ)
    (same : length s.components ≡ length amount) (valid : validate_state s ≡ ok tt) where
  sent-valid : validate_state (recertified now (sent s amount)) ≡ ok tt
  unfolding recertified sent validate_state validate_canonical_state
  sent-valid =
      rw
        (is_nil-length (sub_all s.components amount) s.components
          (length-zip_with _ s.components amount same))
        valid

  received-valid : validate_state (recertified now (received s amount)) ≡ ok tt
  unfolding recertified received validate_state validate_canonical_state
  received-valid =
      rw
        (is_nil-length (add_all s.components amount) s.components
          (length-zip_with _ s.components amount same))
        valid

module _ (ext : External) (now : ℕ → ℕ) (k : KernelEngine) (amount : List ℕ) where
  record_transfer-states :
      (bf bt af at' : VectorStateV1) (k' : KernelEngine)
      → (record_transfer ext now bf bt af at' amount k').1.store.states ≡ k'.store.states
  unfolding put_record
  record_transfer-states bf bt af at' k' =
      (record_transfer-Keeps ext (λ j. j.store.states ≡ k'.store.states)
          (append-Keeps_states ext (λ m. m ≡ k'.store.states))
          (keep_record-Keeps (λ store. store.states ≡ k'.store.states) (λ r store h. h)) now bf bt
          af at' amount).at
        k' refl

  -- An accepted transfer between stored, valid states writes the sender's new state and then the
  -- receiver's, and no other, whether or not the records and events go through afterwards.
  pub transfer-states :
      (from_id to_id : Str) (from to : VectorStateV1)
      → get_state from_id k.store ≡ some from
      → get_state to_id k.store ≡ some to
      → validate_state from ≡ ok tt
      → validate_state to ≡ ok tt
      → Accepted from to amount
      → (transfer ext now from_id to_id amount k).1.store.states
        ≡ insert to.vector_id
            (recertified (now 1) (received to amount))
            (insert from.vector_id (recertified (now 0) (sent from amount)) k.store.states)
  unfolding transfer existing ◌>>=◌ put_state recertified received sent
  transfer-states from_id to_id from to here there valid_from valid_to accepted =
      let paid = length-eq_of_Covers amount from.components accepted.1 in
      let moved =
        (transfer-eq-ok_iff from to amount (sent from amount, received to amount)).1
          (accepted, refl) in
      let sender = sent-valid (now 0) from amount (sym paid) valid_from in
      let receiver = received-valid (now 1) to amount (sym accepted.0 ∙ sym paid) valid_to in
      rw (here, there, moved, sender, receiver)
        (record_transfer-states from to (recertified (now 0) (sent from amount))
          (recertified (now 1) (received to amount)) _)

-- What two writes leave of a map.
module _ {V : Type 0} (i j : Str) (v w : V) (m : Map V) where
  get-insert_last : get j (insert j w (insert i v m)) ≡ some w
  get-insert_last = ground (arith, get-insert j j w (insert i v m), str_eq_iff j j)

  get-insert_first : i ≢ j → get i (insert j w (insert i v m)) ≡ some v
  get-insert_first apart =
      ground
        (arith, get-insert j i w (insert i v m), get-insert i i v m, str_eq_iff j i, str_eq_iff i i)

  get-insert_other : (id : Str) → id ≢ i → id ≢ j → get id (insert j w (insert i v m)) ≡ get id m
  get-insert_other id not_i not_j = ground (
    arith,
    get-insert j id w (insert i v m),
    get-insert i id v m,
    str_eq_iff j id,
    str_eq_iff i id,
  )

-- The total of what a vector holds in a store; nothing where it is not there.
abbrev total_in : Option VectorStateV1 → ℕ
total_in none = 0
total_in (some s) = total s.components

abbrev pub held : Str → KernelEngine → ℕ
held id k = total_in (get_state id k.store)

module _ (ext : External) (now : ℕ → ℕ) (k : KernelEngine) (amount : List ℕ) where
  -- An accepted transfer between two different stored vectors, both valid, with no component of
  -- the receiver beyond u128, keeps the sum of what the two hold in the store.
  pub transfer-conserves :
      (from to : VectorStateV1)
      → get_state from.vector_id k.store ≡ some from
      → get_state to.vector_id k.store ≡ some to
      → from.vector_id ≢ to.vector_id
      → validate_state from ≡ ok tt
      → validate_state to ≡ ok tt
      → Accepted from to amount
      → Room to.components amount
      → let after = (transfer ext now from.vector_id to.vector_id amount k).1 in
        held from.vector_id after + held to.vector_id after
        ≡ held from.vector_id k + held to.vector_id k
  unfolding get_state recertified
  transfer-conserves from to here there apart valid_from valid_to accepted room =
      let states =
        transfer-states ext now k amount from.vector_id to.vector_id from to here there valid_from
          valid_to accepted in
      let sender = ap (get from.vector_id) states ∙ get-insert_first _ _ _ _ k.store.states apart in
      let receiver =
        ap (get to.vector_id) states ∙ get-insert_last from.vector_id _ _ _ k.store.states in
      let moved =
        (transfer-eq-ok_iff from to amount (sent from amount, received to amount)).1
          (accepted, refl) in
      rw (here, there, sender, receiver)
        (transfer-total from to amount (sent from amount) (received to amount) moved room)

  -- An accepted transfer between two stored, valid vectors leaves every third vector as it is.
  pub transfer-get_state_other :
      (from to : VectorStateV1) (id : Str)
      → get_state from.vector_id k.store ≡ some from
      → get_state to.vector_id k.store ≡ some to
      → validate_state from ≡ ok tt
      → validate_state to ≡ ok tt
      → Accepted from to amount
      → id ≢ from.vector_id
      → id ≢ to.vector_id
      → get_state id (transfer ext now from.vector_id to.vector_id amount k).1.store
        ≡ get_state id k.store
  unfolding get_state
  transfer-get_state_other from to id here there valid_from valid_to accepted not_from not_to =
      ap (get id) (
        transfer-states ext now k amount from.vector_id to.vector_id from to here there valid_from
          valid_to accepted)
      ∙ get-insert_other _ _ _ _ k.store.states id not_from not_to

  -- An accepted transfer of a valid stored vector to itself, with no component beyond u128, makes
  -- it hold the amount more: the receiver's state is written over the sender's.
  pub transfer-self_creates :
      (s : VectorStateV1)
      → get_state s.vector_id k.store ≡ some s
      → validate_state s ≡ ok tt
      → Covers amount s.components
      → Room s.components amount
      → held s.vector_id (transfer ext now s.vector_id s.vector_id amount k).1
        ≡ held s.vector_id k + total amount
  unfolding get_state recertified received
  transfer-self_creates s here valid cover room =
      let states =
        transfer-states ext now k amount s.vector_id s.vector_id s s here here valid valid
          (refl, cover) in
      let written =
        ap (get s.vector_id) states ∙ get-insert_last s.vector_id _ _ _ k.store.states in
      rw (here, written) (total-add_all s.components amount room)
