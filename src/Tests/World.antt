-- ===== src/Tests/World.antt =====
-- A concrete world for the tests: the kernel's outside calls, two vectors and an engine.
use v_kernelx.Base.{ℕ, true, none, some, List, [], ◌∷◌, ◌==◌, if◌then◌else◌}
use v_kernelx.Base.Text.{str, decimal, to_ascii_uppercase}
use v_kernelx.Consensus.{default_policy}
use v_kernelx.Engine.Monad.{KernelEngine}
use v_kernelx.Error.{ok}
use v_kernelx.External.{External, number, object, end}
use v_kernelx.State.{VectorStateV1, VectorType, new}
use v_kernelx.Storage.{empty_store}

-- A hash that keeps its input, and signatures that are all good.
abbrev pub toy : External
toy = record {
  blake3_hex = λ bytes. 48 ∷ bytes;
  key_error = λ _. none;
  signature_error = λ _. none;
  verify = λ _ _ _. true;
  value_string = λ _. str "{}";
  u128_value = λ n. some (number (decimal n));
  state_json = λ _. [];
  certification_json = λ _. [];
  ratio_bits = λ ratio. if ratio == 1000 then 0x3ff0000000000000 else 0x3fe6666666666666;
  map_json = λ m. ok (str "{}");
  region_json = λ _. str "{}";
  hex = λ bytes. bytes;
  unhex = λ text. some text;
  public_key = λ key. key;
  sign = λ key message. message;
  parse_json = λ t. ok (object end);
  found_json = λ s. str "null";
  to_uppercase = to_ascii_uppercase;
}

-- A clock that stands still.
abbrev pub clock : ℕ → ℕ
clock i = 1000

abbrev pub alice : VectorStateV1
alice = new (str "A") (str "pk-a") (str "S") (50 ∷ 30 ∷ []) VectorType.standard 7

abbrev pub bob : VectorStateV1
bob = new (str "B") (str "pk-b") (str "S") (5 ∷ 1 ∷ []) VectorType.standard 7

abbrev pub amount : List ℕ
amount = 20 ∷ 10 ∷ []

-- An engine that holds the two vectors and nothing else.
abbrev pub two_vectors : KernelEngine
two_vectors = record {
  store = record empty_store { states = (str "A", alice) ∷ (str "B", bob) ∷ [] };
  consensus = default_policy;
}
