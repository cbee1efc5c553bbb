-- ===== src/Stc.antt =====
-- The crypto operations that the program calls through crypto/stc_wrapper.py, class STCWrapper. They
-- end in the context object of the Seigr Toolset Crypto package, which is not part of the repository:
-- here they are a parameter, a record of functions. `none` means that the call raises.
use Prim.Native.String.{String}
use seigr_toolset_transmissi.Common.{ℕ, ◌≡◌, Option, some, List, Bytes}
use seigr_toolset_transmissi.Common.Int.{ℤ}

-- The values of the `associated_data` dictionaries; `hex b` is the string b.hex().
pub data Datum : Type 0 where
  int : ℤ → Datum
  bytes : Bytes → Datum
  text : String → Datum
  hex : Bytes → Datum

abbrev pub AssociatedData : Type 0
AssociatedData = List (String × Datum)

-- `encrypt_frame(payload, associated_data)` is randomised: its first argument is the random choice of
-- this call. It returns the ciphertext and the metadata that `decrypt_frame` wants back.
pub record Stc : Type 0 where
  pub encrypt_frame : ℕ → Bytes → AssociatedData → Option (Bytes × Bytes)
  pub decrypt_frame : Bytes → Bytes → AssociatedData → Option Bytes

-- The documented behaviour: a ciphertext decrypts, under the same associated data, to its plaintext.
pub record IsLawful (stc : Stc) : Type 0 where
  pub decrypt-encrypt :
      (draw : ℕ) (payload : Bytes) (ad : AssociatedData) (c m : Bytes)
      → stc.encrypt_frame draw payload ad ≡ some (c, m)
      → stc.decrypt_frame c m ad ≡ some payload
