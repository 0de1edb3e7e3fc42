-- ===== src/Base/Bytes.antt =====
-- Python's `int.to_bytes`, `int.from_bytes` and `str.encode('utf-8')`.
use native.Mathlib.Nat.{pow-suc}
use Prim.Native.Nat.{ℕ, zero, suc, ◌+◌, ◌*◌, ◌/◌, ◌%◌, ◌^◌, ◌<◌}
use mathlib.Core.Path.{◌≡◌, refl}
use mathlib.Core.Bool.{◌&&◌}
use mathlib.Core.List.{List, [], ◌∷◌, ◌++◌}
use native.Mathlib.Omega.{arith}
use powergslb.Base.Tests.{ltb, leb, if◌then◌else◌}
use powergslb.Base.Lists.{length, length-append}
use powergslb.Base.Texts.{Text}
use powergslb.Base.Results.{Result, ok, err, overflow_error, value_error, ◌>>=◌}

abbrev pub Bytes : Type 0
Bytes = List ℕ

-- The last `width` base-256 digits, most significant first.
unfoldable pub big_endian : ℕ → ℕ → Bytes
big_endian zero value = []
big_endian (suc width) value = big_endian width (value / 256) ++ (value % 256) ∷ []

-- `value.to_bytes(width, 'big')`
unfoldable pub to_bytes : ℕ → ℕ → Result Bytes
unfolding big_endian
to_bytes width value =
    if ltb value (256 ^ width) then ok (big_endian width value) else err overflow_error

-- `int.from_bytes(bytes, 'big')`
unfoldable pub from_bytes_onto : ℕ → Bytes → ℕ
from_bytes_onto acc [] = acc
from_bytes_onto acc (b ∷ bytes) = from_bytes_onto (acc * 256 + b) bytes

unfoldable pub from_bytes : Bytes → ℕ
unfolding from_bytes_onto
from_bytes bytes = from_bytes_onto 0 bytes

-- One code point; a surrogate raises `UnicodeEncodeError`, which is a `ValueError`.
unfoldable pub encode_char : ℕ → Result Bytes
encode_char c =
    if ltb c 0x80
    then ok (c ∷ [])
    else if ltb c 0x800
    then ok ((0xc0 + c / 64) ∷ (0x80 + c % 64) ∷ [])
    else if leb 0xd800 c && leb c 0xdfff
    then err value_error
    else if ltb c 0x10000
    then ok ((0xe0 + c / 4096) ∷ (0x80 + c / 64 % 64) ∷ (0x80 + c % 64) ∷ [])
    else ok
        ((0xf0 + c / 262144) ∷ (0x80 + c / 4096 % 64) ∷ (0x80 + c / 64 % 64) ∷ (0x80 + c % 64) ∷ [])

-- `text.encode('utf-8')`
unfoldable pub encode : Text → Result Bytes
unfolding encode_char
encode [] = ok []
encode (c ∷ text) = do first ← encode_char c; rest ← encode text; ok (first ++ rest)

pub length-big_endian : (width value : ℕ) → length (big_endian width value) ≡ width
unfolding big_endian
length-big_endian zero value = refl
length-big_endian (suc width) value = omega (
  arith,
  length-append (big_endian width (value / 256)) ((value % 256) ∷ []),
  length-big_endian width (value / 256),
)

from_bytes-append :
    (acc : ℕ) (xs : Bytes) (b : ℕ)
    → from_bytes_onto acc (xs ++ b ∷ []) ≡ from_bytes_onto acc xs * 256 + b
unfolding from_bytes_onto
from_bytes-append acc [] b = refl
from_bytes-append acc (x ∷ xs) b = from_bytes-append (acc * 256 + x) xs b

from_bytes-big_endian :
    (width value : ℕ) → value < 256 ^ width → from_bytes_onto 0 (big_endian width value) ≡ value
unfolding big_endian from_bytes_onto
from_bytes-big_endian zero value h = omega arith
from_bytes-big_endian (suc width) value h =
    let high : value / 256 < 256 ^ width = omega (arith, pow-suc 256 width) in
    omega (
      arith,
      from_bytes-append 0 (big_endian width (value / 256)) (value % 256),
      from_bytes-big_endian width (value / 256) high,
    )

-- Reading back what was written, where it fits.
pub from_bytes-to_bytes :
    (width value : ℕ) {bytes : Bytes} → to_bytes width value ≡ ok bytes → from_bytes bytes ≡ value
unfolding to_bytes from_bytes
from_bytes-to_bytes width value h = ground (arith, from_bytes-big_endian width value)

pub length-to_bytes :
    (width value : ℕ) {bytes : Bytes} → to_bytes width value ≡ ok bytes → length bytes ≡ width
unfolding to_bytes
length-to_bytes width value h = ground (arith, length-big_endian width value)
