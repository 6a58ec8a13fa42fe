-- ===== src/State/Bytes/Root.antt =====
-- What a state root commits to.
use v_kernelx.Base.{◌≡◌, refl, ap, List, [], ◌++◌, All, ℕ, length}
use v_kernelx.Base.Text.{str}
use v_kernelx.Serialization.Codes.{
  IsCode, Is64, IsSized, append_inj, prefixed-IsCode, write_each-IsCode,
}
use v_kernelx.State.{VectorStateV1}
use v_kernelx.State.Bytes.{
  write_state, write_u64, state_root_material, canonical_vector_state_bytes,
}
use v_kernelx.State.Bytes.Fields.{write_u64-IsCode}
use v_kernelx.State.Bytes.Inverse.{IsHeld, canonical_vector_state_bytes-inj}

-- What Rust's types give of a state that is written with the length of its bytes.
abbrev pub IsRooted : VectorStateV1 → Type 0
IsRooted s = IsHeld s × IsSized (canonical_vector_state_bytes s)

write_state-IsCode : IsCode IsRooted write_state
unfolding write_state
write_state-IsCode a b r s pa pb e =
    let bytes =
      prefixed-IsCode write_u64 write_u64-IsCode (canonical_vector_state_bytes a)
        (canonical_vector_state_bytes b) r s pa.1 pb.1 e in
    (canonical_vector_state_bytes-inj a b pa.0 pb.0 bytes.0, bytes.1)

-- The bytes that the state root hashes determine the states, in their order, and the clock, within
-- the ranges of Rust's types.
pub state_root_material-inj :
    (xs ys : List VectorStateV1) (c d : ℕ)
    → IsSized xs × All IsRooted xs
    → IsSized ys × All IsRooted ys
    → Is64 c
    → Is64 d
    → state_root_material xs c ≡ state_root_material ys d
    → (xs ≡ ys) × (c ≡ d)
unfolding state_root_material
state_root_material-inj xs ys c d px py pc pd e =
    let tagged =
      append_inj (str "v-kernelx/state-root-v1") (str "v-kernelx/state-root-v1") _ _ refl e in
    let counts = write_u64-IsCode (length xs) (length ys) _ _ px.0 py.0 tagged.1 in
    let clocks = write_u64-IsCode c d _ _ pc pd counts.1 in
    let states =
      write_each-IsCode IsRooted write_state write_state-IsCode xs ys [] [] counts.0 px.1 py.1
        (ap (λ x. x ++ []) clocks.1) in
    (states.0, clocks.0)
