-- ===== src/Wallet.antt =====
-- src/wallet.rs. A signing key is its bytes; a new wallet takes the bytes that the generator of the
-- operating system gives.
use v_kernelx.Base.{ℕ, not, Option, none, some, List, [], ◌==◌, length}
use v_kernelx.Base.Text.{Str}
use v_kernelx.Base.Map.{Map}
use v_kernelx.Error.{KernelXError, signature, Result, ok, err, ◌>>=◌, ◌>>◌, fail_if}
use v_kernelx.External.{External}

pub record WalletIdentity : Type 0 where
  pub public_key_hex : Str
  pub metadata : Map Str

pub record WalletContext : Type 0 where
  pub signing_key : List ℕ
  pub public_key_hex : Str
  pub metadata : Map Str

unfoldable pub identity : WalletContext → WalletIdentity
identity wallet = record { public_key_hex = wallet.public_key_hex; metadata = wallet.metadata }

-- `.map_err(|_| KernelXError::Signature)`
abbrev or_signature : Option (List ℕ) → Result KernelXError (List ℕ)
or_signature none = err signature
or_signature (some bytes) = ok bytes

-- The bytes, unless the check of Ed25519 refuses them.
abbrev unless_refused : Option Str → List ℕ → Result KernelXError (List ℕ)
unless_refused none bytes = ok bytes
unless_refused (some why) bytes = err signature

module _ (ext : External) where
  unfoldable pub generate : List ℕ → WalletContext
  generate random_key = record {
    signing_key = random_key;
    public_key_hex = ext.hex (ext.public_key random_key);
    metadata = [];
  }

  unfoldable pub sign : List ℕ → WalletContext → Str
  sign message wallet = ext.hex (ext.sign wallet.signing_key message)

  unfoldable pub verifying_key_from_hex : Str → Result KernelXError (List ℕ)
  verifying_key_from_hex public_key_hex = do
    pk_bytes ← or_signature (ext.unhex public_key_hex)
    fail_if (not (length pk_bytes == 32)) signature
    unless_refused (ext.key_error pk_bytes) pk_bytes

  unfoldable pub verify_signature : Str → List ℕ → Str → Result KernelXError (Unit {0})
  verify_signature public_key_hex message signature_hex = do
    verifying_key ← verifying_key_from_hex public_key_hex
    sig_bytes ← or_signature (ext.unhex signature_hex)
    parsed ← unless_refused (ext.signature_error sig_bytes) sig_bytes
    fail_if (not (ext.verify verifying_key message parsed)) signature
