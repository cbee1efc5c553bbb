-- ===== src/Serialization/Utf8.antt =====
-- Python's UTF-8 codec in its strict form, which `str.encode` and `bytes.decode` use: no surrogates,
-- no overlong forms, nothing above U+10FFFF.
use seigr_toolset_transmissi.Common.{
  ℕ, zero, suc, ◌+◌, ◌-◌, ◌*◌, ◌/◌, ◌%◌, ◌<◌, ◌≡◌, refl, [], ◌∷◌, ◌++◌, Bytes, Bool, true, false,
  ◌&&◌, not, Option, none, some, ◌≤◌, ◌∙◌, Option-cases, inl, inr, ltb, leb, if◌then◌else◌, arith,
}
use seigr_toolset_transmissi.Serialization.{Text}

is_surrogate : ℕ → Bool
is_surrogate c = leb 0xD800 c && ltb c 0xE000

encode_char : ℕ → Option Bytes
unfolding is_surrogate
encode_char c =
    if ltb c 0x80
    then some (c ∷ [])
    else if ltb c 0x800
    then some ((0xC0 + c / 64) ∷ (0x80 + c % 64) ∷ [])
    else if is_surrogate c
    then none
    else if ltb c 0x10000
    then some ((0xE0 + c / 4096) ∷ (0x80 + c / 64 % 64) ∷ (0x80 + c % 64) ∷ [])
    else if ltb c 0x110000
    then some
        ((0xF0 + c / 262144) ∷ (0x80 + c / 4096 % 64) ∷ (0x80 + c / 64 % 64) ∷ (0x80 + c % 64) ∷ [])
    else none

-- `s.encode('utf-8')`, `none` where it raises.
unfoldable pub encode : Text → Option Bytes
unfolding encode_char
encode [] = some []
encode (c ∷ cs) = elim (encode_char c) [
  | none ↦ none
  | some bs ↦ elim (encode cs) [ none ↦ none | some rest ↦ some (bs ++ rest) ]
]

is_valid : ℕ → ℕ → Bool
unfolding is_surrogate
is_valid least c = leb least c && (ltb c 0x110000 && not (is_surrogate c))

push : ℕ → Option Text → Option Text
push c none = none
push c (some cs) = some (c ∷ cs)

-- `bs.decode('utf-8')`: the number of continuation bytes that are missing, the bits read so far, and
-- the least code point of a form of this length. Between two characters all three are zero.
decode_from : ℕ → ℕ → ℕ → Bytes → Option Text
unfolding is_valid push
decode_from zero bits least [] = some []
decode_from (suc n) bits least [] = none
decode_from zero bits least (b ∷ bs) =
    if ltb b 0x80
    then push b (decode_from 0 0 0 bs)
    else if ltb b 0xC0
    then none
    else if ltb b 0xE0
    then decode_from 1 (b - 0xC0) 0x80 bs
    else if ltb b 0xF0
    then decode_from 2 (b - 0xE0) 0x800 bs
    else if ltb b 0xF8
    then decode_from 3 (b - 0xF0) 0x10000 bs
    else none
decode_from (suc zero) bits least (b ∷ bs) =
    let c = bits * 64 + (b - 0x80) in
    if leb 0x80 b && ltb b 0xC0
    then (if is_valid least c then push c (decode_from 0 0 0 bs) else none)
    else none
decode_from (suc (suc n)) bits least (b ∷ bs) =
    if leb 0x80 b && ltb b 0xC0 then decode_from (suc n) (bits * 64 + (b - 0x80)) least bs else none

unfoldable pub decode : Bytes → Option Text
unfolding decode_from
decode bs = decode_from 0 0 0 bs

-- The last continuation byte of a form.
last_byte :
    (bits least c b : ℕ) (rest : Bytes)
    → bits * 64 + b ≡ c
    → b < 64
    → is_valid least c ≡ true
    → decode_from 1 bits least ((0x80 + b) ∷ rest) ≡ push c (decode_from 0 0 0 rest)
unfolding decode_from
last_byte bits least c b rest e lt v =
    let low : (leb 0x80 (0x80 + b) && ltb (0x80 + b) 0xC0) ≡ true = ground arith in
    let cut : 0x80 + b - 0x80 ≡ b = omega arith in rw (low, cut, e, v)

-- A continuation byte with others behind it.
middle_byte :
    (n bits least b : ℕ) (rest : Bytes)
    → b < 64
    → decode_from (suc (suc n)) bits least ((0x80 + b) ∷ rest)
      ≡ decode_from (suc n) (bits * 64 + b) least rest
unfolding decode_from
middle_byte n bits least b rest lt =
    let low : (leb 0x80 (0x80 + b) && ltb (0x80 + b) 0xC0) ≡ true = ground arith in
    let cut : 0x80 + b - 0x80 ≡ b = omega arith in rw (low, cut)

start_2 :
    (b : ℕ) (rest : Bytes)
    → b < 32
    → decode_from 0 0 0 ((0xC0 + b) ∷ rest) ≡ decode_from 1 b 0x80 rest
unfolding decode_from
start_2 b rest lt =
    let t0 : ltb (0xC0 + b) 0x80 ≡ false = ground arith in
    let t59 : ltb (0xC0 + b) 0xC0 ≡ false = ground arith in
    let t119 : ltb (0xC0 + b) 0xE0 ≡ true = ground arith in
    let cut : 0xC0 + b - 0xC0 ≡ b = omega arith in rw (t0, t59, t119, cut)

start_3 :
    (b : ℕ) (rest : Bytes)
    → b < 16
    → decode_from 0 0 0 ((0xE0 + b) ∷ rest) ≡ decode_from 2 b 0x800 rest
unfolding decode_from
start_3 b rest lt =
    let t0 : ltb (0xE0 + b) 0x80 ≡ false = ground arith in
    let t59 : ltb (0xE0 + b) 0xC0 ≡ false = ground arith in
    let t119 : ltb (0xE0 + b) 0xE0 ≡ false = ground arith in
    let t180 : ltb (0xE0 + b) 0xF0 ≡ true = ground arith in
    let cut : 0xE0 + b - 0xE0 ≡ b = omega arith in rw (t0, t59, t119, t180, cut)

start_4 :
    (b : ℕ) (rest : Bytes)
    → b < 8
    → decode_from 0 0 0 ((0xF0 + b) ∷ rest) ≡ decode_from 3 b 0x10000 rest
unfolding decode_from
start_4 b rest lt =
    let t0 : ltb (0xF0 + b) 0x80 ≡ false = ground arith in
    let t59 : ltb (0xF0 + b) 0xC0 ≡ false = ground arith in
    let t119 : ltb (0xF0 + b) 0xE0 ≡ false = ground arith in
    let t180 : ltb (0xF0 + b) 0xF0 ≡ false = ground arith in
    let t241 : ltb (0xF0 + b) 0xF8 ≡ true = ground arith in
    let cut : 0xF0 + b - 0xF0 ≡ b = omega arith in rw (t0, t59, t119, t180, t241, cut)

decode_2 :
    (c : ℕ) (rest : Bytes)
    → 0x80 ≤ c
    → c < 0x800
    → decode_from 0 0 0 ((0xC0 + c / 64) ∷ (0x80 + c % 64) ∷ rest) ≡ push c (decode_from 0 0 0 rest)
unfolding is_valid is_surrogate
decode_2 c rest le lt =
    start_2 (c / 64) _ (omega arith)
    ∙ last_byte (c / 64) 0x80 c (c % 64) rest (omega arith) (omega arith) (ground arith)

decode_3 :
    (c : ℕ) (rest : Bytes)
    → 0x800 ≤ c
    → c < 0x10000
    → is_surrogate c ≡ false
    → decode_from 0 0 0 ((0xE0 + c / 4096) ∷ (0x80 + c / 64 % 64) ∷ (0x80 + c % 64) ∷ rest)
      ≡ push c (decode_from 0 0 0 rest)
unfolding is_valid
decode_3 c rest le lt s =
    start_3 (c / 4096) _ (omega arith)
    ∙ middle_byte 0 (c / 4096) 0x800 (c / 64 % 64) _ (omega arith)
    ∙ last_byte (c / 4096 * 64 + c / 64 % 64) 0x800 c (c % 64) rest (omega arith) (omega arith)
        (ground arith)

decode_4 :
    (c : ℕ) (rest : Bytes)
    → 0x10000 ≤ c
    → c < 0x110000
    → decode_from 0 0 0 (
        (0xF0 + c / 262144)
        ∷ (0x80 + c / 4096 % 64)
        ∷ (0x80 + c / 64 % 64)
        ∷ (0x80 + c % 64)
        ∷ rest)
      ≡ push c (decode_from 0 0 0 rest)
unfolding is_valid is_surrogate
decode_4 c rest le lt =
    let high = c / 262144 * 64 + c / 4096 % 64 in
    start_4 (c / 262144) _ (omega arith)
    ∙ middle_byte 1 (c / 262144) 0x10000 (c / 4096 % 64) _ (omega arith)
    ∙ middle_byte 0 high 0x10000 (c / 64 % 64) _ (omega arith)
    ∙ last_byte (high * 64 + c / 64 % 64) 0x10000 c (c % 64) rest (omega arith) (omega arith)
        (ground arith)

decode_1 :
    (c : ℕ) (rest : Bytes)
    → c < 0x80
    → decode_from 0 0 0 (c ∷ rest) ≡ push c (decode_from 0 0 0 rest)
unfolding decode_from
decode_1 c rest h = ground arith

decode_char :
    (c : ℕ) (bs rest : Bytes)
    → encode_char c ≡ some bs
    → decode_from 0 0 0 (bs ++ rest) ≡ push c (decode_from 0 0 0 rest)
unfolding encode_char
decode_char c bs rest h =
    ground (arith, decode_1 c rest, decode_2 c rest, decode_3 c rest, decode_4 c rest)

decode_from-nil : decode_from 0 0 0 [] ≡ some []
unfolding decode_from
decode_from-nil = refl

-- What is encoded is decoded.
pub decode-encode : (cs : Text) (bs : Bytes) → encode cs ≡ some bs → decode bs ≡ some cs
unfolding decode encode push
decode-encode [] bs h = let e : bs ≡ [] = cc h in rw e decode_from-nil
decode-encode (c ∷ cs) bs h = elim (Option-cases (encode_char c)) [
  | inl e ↦ absurd (let x = (rw (e, encode) at h) in cc x)
  | inr (first, e) ↦ elim (Option-cases (encode cs)) [
    | inl e' ↦ absurd (let x = (rw (e, e', encode) at h) in cc x)
    | inr (rest, e') ↦
        let x = (rw (e, e', encode) at h) in
        let shape : bs ≡ first ++ rest = cc x in
        rw (shape, decode_char c first rest e, decode-encode cs rest e')
  ]
]
