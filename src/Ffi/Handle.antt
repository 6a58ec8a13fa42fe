-- ===== src/Ffi/Handle.antt =====
-- src/ffi.rs: the handle, its mutex, the texts that cross the boundary, and the last error. A call
-- runs to its end before the next one starts, so a lock that is held is held by the call itself: by
-- the documentation of `Mutex::lock` such a call does not return.
use v_kernelx.Base.{
  ℕ, Bool, true, false, Option, none, some, List, [], any, ◌==◌, if◌then◌else◌, ◌++◌,
}
use v_kernelx.Base.Text.{Str, str}
use v_kernelx.Base.Map.{Map}
use v_kernelx.Engine.{new_engine}
use v_kernelx.Engine.Monad.{KernelEngine}
use v_kernelx.Error.{Result, ok, err}
use v_kernelx.External.{External, Value, bool, string, object, end, field}

-- A set of texts is a map to units.
pub record KernelInner : Type 0 where
  pub engine : KernelEngine
  pub last_error : Option Str
  pub seen_request_ids : Map (Unit {0})

-- `Mutex<KernelInner>`: what it guards, whether a guard is alive, and whether it is poisoned.
pub record KernelHandle : Type 0 where
  pub inner : KernelInner
  pub held : Bool
  pub poisoned : Bool

-- How a call goes: it returns, it waits for a lock that it holds, or it panics.
pub data Ended (A : Type 0) : Type 0 where
  returned : A → Ended A
  stuck aborted : Ended A

abbrev pub Act : Type 0 → Type 0 → Type 0
Act S A = S → Ended A × S

abbrev pub proceed : {S A B : Type 0} → Ended A → (A → Act S B) → Act S B
proceed (returned a) f s = f a s
proceed stuck f s = (stuck, s)
proceed aborted f s = (aborted, s)

infixl 5 ◌>>=◌ ◌>>◌
unfoldable pub ◌>>=◌ : {S A B : Type 0} → Act S A → (A → Act S B) → Act S B
◌>>=◌ m f s = let (r, s') = m s in proceed r f s'

abbrev pub ◌>>◌ : {S A B : Type 0} → Act S A → Act S B → Act S B
m >> n = m >>= λ _. n

module _ {S A : Type 0} where
  abbrev pub pure : A → Act S A
  pure a s = (returned a, s)

  -- A value of the `json!` macro, which panics on a number that it cannot hold.
  abbrev pub or_abort : Option A → Act S A
  or_abort none s = (aborted, s)
  or_abort (some a) s = (returned a, s)

-- `*mut KernelHandle`: null, or a handle.
abbrev pub Pointer : Type 0
Pointer = Option KernelHandle

-- `*const c_char`: null, or the bytes before the NUL.
abbrev pub CStr : Type 0
CStr = Option (List ℕ)

-- `CString::new` refuses a text with a NUL inside.
unfoldable pub to_c_string : Str → Str
to_c_string s =
    if any (λ c. c == 0) s then str "{\"ok\":false,\"error\":\"invalid cstring\"}" else s

-- Why `CStr::to_str` refuses bytes, if it does.
abbrev pub Utf8Error : Type 0
Utf8Error = List ℕ → Option Str

checked_text : List ℕ → Option Str → Result Str Str
checked_text bytes none = ok bytes
checked_text bytes (some e) = err (str "utf8 error in FFI string: " ++ e)

unfoldable pub from_c_string : Utf8Error → CStr → Result Str Str
unfolding checked_text
from_c_string utf8_error none = err (str "null pointer passed to kernel FFI")
from_c_string utf8_error (some bytes) = checked_text bytes (utf8_error bytes)

module _ (ext : External) where
  unfoldable pub ok_json : Value → Str
  ok_json value =
      to_c_string
        (ext.value_string (object (field (str "ok") (bool true) (field (str "result") value end))))

  unfoldable pub err_json : Str → Str
  err_json error = to_c_string (
      ext.value_string
        (object (field (str "error") (string error) (field (str "ok") (bool false) end))))

-- `if let Ok(mut inner) = handle.inner.lock() { inner.last_error = .. }`
unfoldable pub write_last_error : Option Str → Act KernelHandle (Unit {0})
write_last_error message h =
    if h.held
    then (stuck, h)
    else if h.poisoned
    then (returned tt, h)
    else (returned tt, record h { inner = record (h.inner) { last_error = message } })

unfoldable pub set_last_error : Str → Act KernelHandle (Unit {0})
unfolding write_last_error
set_last_error msg = write_last_error (some msg)

unfoldable pub clear_last_error : Act KernelHandle (Unit {0})
unfolding write_last_error
clear_last_error = write_last_error none

-- The same through a pointer that may be null.
abbrev pub last_error_string : Pointer → Ended (Option Str)
last_error_string none = returned (some (str "kernel handle is null"))
last_error_string (some h) =
    if h.held then stuck else if h.poisoned then returned none else returned h.inner.last_error

-- `kernel_init`
abbrev pub kernel_init : KernelHandle
kernel_init = record {
  inner = record { engine = new_engine; last_error = none; seen_request_ids = [] };
  held = false;
  poisoned = false;
}

-- What is left of the pointer after `kernel_free`.
abbrev pub kernel_free : Pointer → Pointer
kernel_free none = none
kernel_free (some h) = none

c_string_of : Ended (Option Str) → Ended CStr
c_string_of (returned none) = returned none
c_string_of (returned (some msg)) = returned (some (to_c_string msg))
c_string_of stuck = stuck
c_string_of aborted = aborted

unfoldable pub kernel_last_error : Pointer → Ended CStr
unfolding c_string_of
kernel_last_error handle = c_string_of (last_error_string handle)

-- `release` the guard where the call that holds it returns.
abbrev pub released : {A : Type 0} → Ended A → KernelHandle → KernelHandle
released (returned a) h = record h { held = false }
released stuck h = h
released aborted h = h

-- A body under the guard, and what is done with a poisoned lock.
unfoldable pub under_lock :
    {A : Type 0} → Act KernelHandle A → Act KernelHandle A → Act KernelHandle A
under_lock body poison h =
    if h.held
    then (stuck, h)
    else if h.poisoned
    then poison h
    else (let (r, h') = body (record h { held = true }) in (r, released r h'))
