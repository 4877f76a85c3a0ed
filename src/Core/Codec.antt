-- ===== src/Core/Codec.antt =====
-- internal/core/codec.go: the field encoders and decoders of codec v1.
-- The encoder's and the decoder's error is sticky and reported at the end whatever follows, so a
-- field that fails makes the whole fail: an encoder returns an option of its bytes, and a decoder
-- takes the bytes left and returns a value and the bytes left after it.
pub mod Reads
pub mod Factors
pub mod Fields
use egauth.Base.{
  ℕ, zero, suc, ◌+◌, ◌-◌, ◌*◌, ◌/◌, ◌%◌, ◌^◌, Bool, true, false, not, ◌&&◌, ◌||◌, List, [], ◌∷◌,
  ◌++◌, Bytes, Option, none, some, length, is_empty, if◌then◌else◌, ltb, leb, ◌==◌, take, drop,
  Result, ok, err, bytes_discrete,
}
use egauth.Core.Factor.{Factor, code, factor_by_code, code_le}
use egauth.Core.Policy.{Subject, zero_time, second, parse_tenant_id}
use egauth.Core.Pending.{CredentialUse}

abbrev pub max_sealed_len : ℕ
max_sealed_len = 16 * 1024

abbrev pub tag_attrs : ℕ
tag_attrs = b'A'

abbrev pub tag_pending : ℕ
tag_pending = b'P'

-- `binary.AppendUvarint`: seven bits a byte, the lowest first. Ten rounds are enough for uint64.
unfoldable pub uvarint_rounds : ℕ → ℕ → Bytes
uvarint_rounds zero n = []
uvarint_rounds (suc k) n =
    let rest = uvarint_rounds k (n / 128) in if ltb n 128 then n ∷ [] else (n % 128 + 128) ∷ rest

unfoldable pub append_uvarint : ℕ → Bytes
append_uvarint n = uvarint_rounds 10 n

-- `binary.Uvarint` from byte `i` on; `scale` is `2 ^ s`, and `x` is below it, so that `|` is `+`.
unfoldable pub uvarint_from : ℕ → ℕ → ℕ → Bytes → Option (ℕ × Bytes)
uvarint_from i scale x [] = none
uvarint_from i scale x (b ∷ bs) =
    let rest = uvarint_from (i + 1) (scale * 128) (x + b % 128 * scale) bs in
    if i == 10
    then none
    else (if ltb b 128
        then (if i == 9 && ltb 1 b then none else some (x + b * scale, bs))
        else rest)

unfoldable pub uvarint : Bytes → Option (ℕ × Bytes)
uvarint b = uvarint_from 0 1 0 b

-- Big-endian numbers of `k` bytes.
unfoldable pub be_bytes : ℕ → ℕ → Bytes
be_bytes zero n = []
be_bytes (suc k) n = be_bytes k (n / 256) ++ (n % 256 ∷ [])

unfoldable pub be_value : ℕ → Bytes → ℕ
be_value acc [] = acc
be_value acc (b ∷ bs) = be_value (acc * 256 + b) bs

unfoldable pub put_bytes : Bytes → Bytes
put_bytes p = append_uvarint (length p) ++ p

unfoldable pub put_u64 : ℕ → Bytes
put_u64 v = put_bytes (be_bytes 8 v)

unfoldable pub put_bool : Bool → Bytes
put_bool b = put_bytes (if b then 1 ∷ [] else 0 ∷ [])

unfoldable pub put_uuid : ℕ → Bytes
put_uuid u = put_bytes (be_bytes 16 u)

-- The Unix epoch, and the instants that fit an int64 of nanoseconds around it.
abbrev pub unix_epoch : ℕ
unix_epoch = 62135596800 * second

abbrev pub codec_time : ℕ → Bool
codec_time t = leb (unix_epoch - 2 ^ 63) t && ltb t (unix_epoch + 2 ^ 63)

-- `uint64(t.UnixNano())`, in two's complement.
unfoldable pub to_unix_nano : ℕ → ℕ
to_unix_nano t = (t + 2 ^ 64 - unix_epoch) % 2 ^ 64

-- `time.Unix(0, int64(v))`.
unfoldable pub from_unix_nano : ℕ → ℕ
from_unix_nano v = if ltb v (2 ^ 63) then unix_epoch + v else unix_epoch + v - 2 ^ 64

unfoldable pub put_time : ℕ → Option Bytes
put_time t =
    if t == zero_time
    then some (put_bytes [])
    else (if codec_time t then some (put_u64 (to_unix_nano t)) else none)

unfoldable pub put_subject : Bytes → ℕ → Bytes
put_subject tenant user = put_bytes tenant ++ put_uuid user

unfoldable pub put_codes : List Factor → Bytes
put_codes [] = []
put_codes (f ∷ fs) = put_bytes (code f) ++ put_codes fs

unfoldable pub put_factors : List Factor → Bytes
put_factors fs = append_uvarint (length fs) ++ put_codes fs

abbrev pub Decoder : Type 0 → Type 0
Decoder A = Bytes → Option (A × Bytes)

infixl 5 ◌>>=◌
abbrev pub ◌>>=◌ : {A B : Type 0} → Decoder A → (A → Decoder B) → Decoder B
◌>>=◌ d k b = elim (d b) [ none ↦ none | some (a, rest) ↦ k a rest ]

abbrev pub return : {A : Type 0} → A → Decoder A
return a b = some (a, b)

-- `fail`.
abbrev pub check : {A : Type 0} → Bool → A → Decoder A
check true a b = some (a, b)
check false a b = none

unfoldable pub get_count : Decoder ℕ
get_count b = elim (uvarint b) [
  | none ↦ none
  | some (n, rest) ↦ if ltb (length rest) n then none else some (n, rest)
]

abbrev pub split_bytes : ℕ → Decoder Bytes
split_bytes n b = some (take n b, drop n b)

unfoldable pub get_bytes : Decoder Bytes
get_bytes = get_count >>= split_bytes

unfoldable pub get_fixed : ℕ → Decoder Bytes
get_fixed size = get_bytes >>= λ p. check (length p == size) p

unfoldable pub get_u64 : Decoder ℕ
get_u64 = get_fixed 8 >>= λ p. return (be_value 0 p)

unfoldable pub get_bool : Decoder Bool
get_bool = get_fixed 1 >>= λ p. check (leb (be_value 0 p) 1) (be_value 0 p == 1)

unfoldable pub get_uuid : Decoder ℕ
get_uuid = get_fixed 16 >>= λ p. return (be_value 0 p)

unfoldable pub get_time : Decoder ℕ
get_time = get_bytes >>= λ p.
    check (is_empty p || length p == 8)
      (if is_empty p then zero_time else from_unix_nano (be_value 0 p))

unfoldable pub get_transport : Decoder ℕ
get_transport = get_fixed 1 >>= λ p. return (be_value 0 p)

-- `subject`: the empty tenant is the single one, and any other is parsed.
unfoldable pub tenant_ok : Bytes → Bool
tenant_ok raw = is_empty raw || (elim (parse_tenant_id raw) [ ok _ ↦ true | err _ ↦ false ])

unfoldable pub get_subject : Decoder Subject
get_subject = get_bytes >>= λ raw.
    get_uuid >>= λ user. check (tenant_ok raw) (record { tenant = raw; user = user })

unfoldable pub known : Bytes → Decoder Factor
known c b = elim (factor_by_code c) [ none ↦ none | some f ↦ some (f, b) ]

unfoldable pub get_factor : Decoder Factor
get_factor = get_bytes >>= known

-- Whether the last of `out` has a code that is not below that of `f`.
unfoldable pub breaks_order : List Factor → Factor → Bool
breaks_order [] f = false
breaks_order (x ∷ []) f = code_le f x
breaks_order (x ∷ y ∷ ys) f = breaks_order (y ∷ ys) f

unfoldable pub get_factors_from : ℕ → List Factor → Decoder (List Factor)
get_factors_from zero out b = some (out, b)
get_factors_from (suc n) out b = elim (get_factor b) [
  | none ↦ none
  | some (f, rest) ↦ if breaks_order out f then none else get_factors_from n (out ++ (f ∷ [])) rest
]

unfoldable pub get_factors : Decoder (List Factor)
get_factors = get_count >>= λ n. get_factors_from n []
