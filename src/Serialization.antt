-- ===== src/Serialization.antt =====
-- seigr_toolset_transmissions/utils/serialization.py: the values that STTSerializer reads and writes,
-- and the type tags. A `str` is the list of its code points; a `float` is the bit pattern of its 64
-- bits, since the code only moves it; a `dict` has strings as keys, in insertion order.
pub mod Utf8
pub mod Encode
pub mod Decode
pub mod Normal
pub mod Leaves
pub mod RoundTrip
pub mod Total
pub mod Fuel
pub mod Truncation
mod Examples
use Prim.Native.String.{String}
use Prim.Native.Char.{code}
use seigr_toolset_transmissi.Common.{
  ℕ, List, [], ◌∷◌, Bool, Bytes, Option, none, some, if◌then◌else◌,
}
use seigr_toolset_transmissi.Common.Int.{ℤ}
use seigr_toolset_transmissi.Common.Dict.{bytes_beq}

abbrev pub Text : Type 0
Text = List ℕ

-- A text literal.
abbrev pub codes : String → Text
codes String.[] = []
codes (String.◌∷◌ c s) = code c ∷ codes s

mutual
  pub data Value : Type 0 where
    null : Value
    bool : Bool → Value
    int : ℤ → Value
    float : ℕ → Value
    bytes : Bytes → Value
    str : Text → Value
    list : Items → Value
    dict : Fields → Value

  pub data Items : Type 0 where
    nil : Items
    cons : Value → Items → Items

  pub data Fields : Type 0 where
    end : Fields
    field : Text → Value → Fields → Fields

-- The exceptions: STTSerializationError with its four messages of decoding, `struct.error`,
-- UnicodeError and, for a value read with too little fuel, `out_of_fuel`.
pub data SerialError : Type 0 where
  empty_input unexpected_end unknown_tag key_not_string struct_failure unicode_failure : SerialError
  out_of_fuel : SerialError

-- STTType
abbrev pub null_tag : ℕ
null_tag = 0x00

abbrev pub false_tag : ℕ
false_tag = 0x01

abbrev pub true_tag : ℕ
true_tag = 0x02

abbrev pub int8_tag : ℕ
int8_tag = 0x10

abbrev pub int16_tag : ℕ
int16_tag = 0x11

abbrev pub int32_tag : ℕ
int32_tag = 0x12

abbrev pub int64_tag : ℕ
int64_tag = 0x13

abbrev pub float64_tag : ℕ
float64_tag = 0x21

abbrev pub bytes_tag : ℕ
bytes_tag = 0x30

abbrev pub string_tag : ℕ
string_tag = 0x31

abbrev pub list_tag : ℕ
list_tag = 0x40

abbrev pub dict_tag : ℕ
dict_tag = 0x41

-- d.get(k) and d[k] = v
unfoldable pub get_field : Text → Fields → Option Value
get_field k end = none
get_field k (field j v fs) = if bytes_beq j k then some v else get_field k fs

unfoldable pub put_field : Text → Value → Fields → Fields
put_field k v end = field k v end
put_field k v (field j w fs) = if bytes_beq j k then field j v fs else field j w (put_field k v fs)
