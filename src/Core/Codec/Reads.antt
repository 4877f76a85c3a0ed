-- ===== src/Core/Codec/Reads.antt =====
-- Each decoder reads back what its encoder wrote, and leaves what follows.
use egauth.Base.{
  ℕ, zero, suc, ◌/◌, ◌%◌, ◌^◌, ◌<◌, ◌≤◌, ◌≡◌, refl, ap, ◌∙◌, Bool, true, false, [], ◌∷◌, ◌++◌,
  Bytes, some, length, length-append, take-append, drop-append, arith, inl, inr, is_empty, ◌||◌,
  ◌⊎◌, if◌then◌else◌, ◌==◌,
}
use egauth.Core.Policy.{Subject, zero_time}
use mathlib.Core.List.{append_assoc}
use egauth.Core.Codec.{
  Decoder, ◌>>=◌, return, check, uvarint_rounds, append_uvarint, uvarint_from, uvarint, be_bytes,
  be_value, put_bytes, put_u64, put_bool, put_uuid, get_count, get_bytes, get_fixed, get_u64,
  get_bool, get_uuid, max_sealed_len, get_transport, codec_time, to_unix_nano, from_unix_nano,
  put_time, get_time, put_subject, get_subject, tenant_ok,
}

-- `d` reads `v` from `b`, whatever comes after it.
abbrev pub Reads : {A : Type 0} → Decoder A → Bytes → A → Type 0
Reads d b v = (rest : Bytes) → d (b ++ rest) ≡ some (v, rest)

>>=-Reads :
    {A B : Type 0} (d : Decoder A) (k : A → Decoder B) (b c : Bytes) (v : A) (w : B)
    → Reads d b v
    → Reads (k v) c w
    → Reads (d >>= k) (b ++ c) w
>>=-Reads d k b c v w h g rest = rw (append_assoc b c rest, h (c ++ rest), ◌>>=◌) (g rest)

uvarint-append_uvarint :
    (n : ℕ) (rest : Bytes) → n < 2097152 → uvarint (append_uvarint n ++ rest) ≡ some (n, rest)
unfolding uvarint append_uvarint uvarint_rounds uvarint_from
uvarint-append_uvarint n rest h = ground arith

-- The bytes of a sealed value: at most `max_sealed_len`, and so is every part of it.
abbrev pub Fits : Bytes → Type 0
Fits b = length b ≤ max_sealed_len

pub Fits-append : (b c : Bytes) → Fits (b ++ c) → Fits b × Fits c
Fits-append b c h = (omega (arith, length-append b c), omega (arith, length-append b c))

pub get_count-Reads :
    (n : ℕ) (b : Bytes)
    → n ≤ length b
    → Fits b
    → (rest : Bytes) → get_count (append_uvarint n ++ (b ++ rest)) ≡ some (n, b ++ rest)
unfolding get_count
get_count-Reads n b h f rest =
    ground (arith, uvarint-append_uvarint n (b ++ rest), length-append b rest)

pub get_bytes-Reads : (p : Bytes) → Fits (put_bytes p) → Reads get_bytes (put_bytes p) p
unfolding get_bytes put_bytes
get_bytes-Reads p f rest =
    rw
      (
        append_assoc (append_uvarint (length p)) p rest,
        get_count-Reads (length p) p (omega arith) (Fits-append (append_uvarint (length p)) p f).1
            rest,
        ◌>>=◌,
        take-append p rest,
        drop-append p rest,
      )
      refl

get_fixed-Reads :
    (size : ℕ) (p : Bytes)
    → length p ≡ size
    → Fits (put_bytes p)
    → Reads (get_fixed size) (put_bytes p) p
unfolding get_fixed
get_fixed-Reads size p e f rest = ground (arith, get_bytes-Reads p f rest)

length-be_bytes : (k n : ℕ) → length (be_bytes k n) ≡ k
unfolding be_bytes
length-be_bytes zero n = refl
length-be_bytes (suc k) n =
    omega (arith, length-append (be_bytes k (n / 256)) (n % 256 ∷ []), length-be_bytes k (n / 256))

be_value-be_bytes_8 : (n : ℕ) → n < 2 ^ 64 → be_value 0 (be_bytes 8 n) ≡ n
unfolding be_bytes be_value
be_value-be_bytes_8 n h = omega arith

be_value-be_bytes_16 : (n : ℕ) → n < 2 ^ 128 → be_value 0 (be_bytes 16 n) ≡ n
unfolding be_bytes be_value
be_value-be_bytes_16 n h = omega arith

-- A decoder that maps what another reads.
map-Reads :
    {A B : Type 0} (d : Decoder A) (f : A → B) (b : Bytes) (v : A) (w : B)
    → f v ≡ w
    → Reads d b v
    → Reads (d >>= λ a. return (f a)) b w
map-Reads d f b v w e h rest = rw (h rest, ◌>>=◌) (ground arith)

pub get_u64-Reads : (n : ℕ) → n < 2 ^ 64 → Fits (put_u64 n) → Reads get_u64 (put_u64 n) n
unfolding get_u64 put_u64
get_u64-Reads n h f =
    map-Reads (get_fixed 8) (be_value 0) (put_bytes (be_bytes 8 n)) (be_bytes 8 n) n
      (be_value-be_bytes_8 n h) (get_fixed-Reads 8 (be_bytes 8 n) (length-be_bytes 8 n) f)

pub get_uuid-Reads : (n : ℕ) → n < 2 ^ 128 → Fits (put_uuid n) → Reads get_uuid (put_uuid n) n
unfolding get_uuid put_uuid
get_uuid-Reads n h f =
    map-Reads (get_fixed 16) (be_value 0) (put_bytes (be_bytes 16 n)) (be_bytes 16 n) n
      (be_value-be_bytes_16 n h) (get_fixed-Reads 16 (be_bytes 16 n) (length-be_bytes 16 n) f)

pub get_transport-Reads :
    (t : ℕ) → Fits (put_bytes (t ∷ [])) → Reads get_transport (put_bytes (t ∷ [])) t
unfolding get_transport
get_transport-Reads t f =
    map-Reads (get_fixed 1) (be_value 0) (put_bytes (t ∷ [])) (t ∷ []) t
      (unfold be_value in omega arith) (get_fixed-Reads 1 (t ∷ []) refl f)

pub get_bool-Reads : (b : Bool) → Fits (put_bool b) → Reads get_bool (put_bool b) b
unfolding get_bool put_bool be_value
get_bool-Reads true f rest = ground (arith, get_fixed-Reads 1 (1 ∷ []) refl f rest)
get_bool-Reads false f rest = ground (arith, get_fixed-Reads 1 (0 ∷ []) refl f rest)

to_unix_nano_lt : (t : ℕ) → to_unix_nano t < 2 ^ 64
unfolding to_unix_nano
to_unix_nano_lt t = omega arith

from-to_unix_nano : (t : ℕ) → codec_time t ≡ true → from_unix_nano (to_unix_nano t) ≡ t
unfolding from_unix_nano to_unix_nano
from-to_unix_nano t h = ground arith

time_of_bytes :
    (p rest : Bytes)
    → length p ≡ 8
    → check {A = ℕ}
        (is_empty p || length p == 8)
        (if is_empty p then zero_time else from_unix_nano (be_value 0 p))
        rest
      ≡ some (from_unix_nano (be_value 0 p), rest)
time_of_bytes [] rest h = absurd (omega arith)
time_of_bytes (x ∷ p) rest h = ground arith

put_time_cases :
    (t : ℕ) (b : Bytes)
    → put_time t ≡ some b
    → ((t ≡ zero_time) × (b ≡ put_bytes []))
      ⊎ ((codec_time t ≡ true) × (b ≡ put_u64 (to_unix_nano t)))
unfolding put_time
put_time_cases t b e = ground arith

get_time-Reads_zero : Reads get_time (put_bytes []) zero_time
unfolding get_time
get_time-Reads_zero rest =
    rw
      (
        get_bytes-Reads [] (unfold put_bytes append_uvarint uvarint_rounds in omega arith) rest,
        ◌>>=◌,
      )
      refl

get_time-Reads_nano :
    (t : ℕ)
    → codec_time t ≡ true
    → Fits (put_u64 (to_unix_nano t))
    → Reads get_time (put_u64 (to_unix_nano t)) t
unfolding get_time put_u64
get_time-Reads_nano t h f rest =
    let bytes = be_bytes 8 (to_unix_nano t) in
    rw (get_bytes-Reads bytes f rest, ◌>>=◌)
      (time_of_bytes bytes rest (length-be_bytes 8 (to_unix_nano t))
        ∙ ap (λ (u : ℕ). some (u, rest))
            (ap from_unix_nano (be_value-be_bytes_8 (to_unix_nano t) (to_unix_nano_lt t))
              ∙ from-to_unix_nano t h))

-- An instant in the codec's range is read back, and the zero time too.
pub get_time-Reads : (t : ℕ) (b : Bytes) → put_time t ≡ some b → Fits b → Reads get_time b t
get_time-Reads t b e f = elim (put_time_cases t b e) [
  | inl (z, w) ↦ rw (w, z) get_time-Reads_zero
  | inr (h, w) ↦ rw w (get_time-Reads_nano t h (rw w at f))
]

pub get_subject-Reads :
    (s : Subject)
    → tenant_ok s.tenant ≡ true
    → s.user < 2 ^ 128
    → Fits (put_subject s.tenant s.user)
    → Reads get_subject (put_subject s.tenant s.user) s
unfolding get_subject put_subject
get_subject-Reads s t u f rest =
    let (f1, f2) = Fits-append (put_bytes s.tenant) (put_uuid s.user) f in
    ground (
      arith,
      append_assoc (put_bytes s.tenant) (put_uuid s.user) rest,
      get_bytes-Reads s.tenant f1 (put_uuid s.user ++ rest),
      get_uuid-Reads s.user u f2 rest,
    )
