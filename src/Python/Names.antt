-- ===== src/Python/Names.antt =====
-- src/lib.rs: the functions of the Python module. The version is that of src/Cargo.toml.
use v_kernelx.Base.{List, [], ◌∷◌, map}
use v_kernelx.Base.Text.{Str, str}

abbrev pub kernel_name : Str
kernel_name = str "v-kernelx"

abbrev pub kernel_version : Str
kernel_version = str "0.1.4"

abbrev pub exposed_modules : List Str
exposed_modules = map str (
    "certification" ∷ "consensus" ∷ "dag" ∷ "developer" ∷ "drain" ∷ "engine" ∷ "error" ∷ "event"
    ∷ "ffi" ∷ "hash" ∷ "interpreter" ∷ "origin" ∷ "projection" ∷ "python_api" ∷ "query" ∷ "region"
    ∷ "reconstruction" ∷ "record" ∷ "replay" ∷ "sdk" ∷ "serialization" ∷ "signature" ∷ "snapshot"
    ∷ "state" ∷ "storage" ∷ "transfer" ∷ "validation" ∷ "wallet" ∷ [])
