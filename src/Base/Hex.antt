-- ===== src/Base/Hex.antt =====
-- What the code uses of encoding/hex, strings.Split and encoding/binary. A byte is a native number
-- below 256.
pub mod Laws
use Prim.Native.Char.{Char, code}
use Prim.Native.String.{String, []}
use mathlib.Core.List.{List, ◌++◌}
use Prim.Native.Nat.{ℕ, zero, suc, ◌+◌, ◌-◌, ◌*◌, ◌/◌, ◌%◌}
use mathlib.Core.Bool.{◌&&◌}
use mathlib.Core.Option.{Option, none, some}
use clean_arch_go_gin.Base.Tests.{if◌then◌else◌, leb, ◌==◌}

abbrev pub hex_digit : ℕ → Char
hex_digit n =
    if n == 0
    then "0"
    else if n == 1
    then "1"
    else if n == 2
    then "2"
    else if n == 3
    then "3"
    else if n == 4
    then "4"
    else if n == 5
    then "5"
    else if n == 6
    then "6"
    else if n == 7
    then "7"
    else if n == 8
    then "8"
    else if n == 9
    then "9"
    else if n == 10
    then "a"
    else if n == 11
    then "b"
    else if n == 12
    then "c"
    else if n == 13
    then "d"
    else if n == 14
    then "e"
    else "f"

-- `hex.EncodeToString`
unfoldable pub hex_encode : List ℕ → String
hex_encode List.[] = []
hex_encode (List.◌∷◌ b bs) =
    String.◌∷◌ (hex_digit (b / 16)) (String.◌∷◌ (hex_digit (b % 16)) (hex_encode bs))

-- The value of a digit, in either case.
unfoldable pub from_hex : Char → Option ℕ
from_hex c =
    let n = code c in
    if leb 48 n && leb n 57
    then some (n - 48)
    else if leb 97 n && leb n 102
    then some (n - 87)
    else if leb 65 n && leb n 70
    then some (n - 55)
    else none

unfoldable pub byte_of : Option ℕ → Option ℕ → Option (List ℕ) → Option (List ℕ)
byte_of (some h) (some l) (some bs) = some (List.◌∷◌ (h * 16 + l) bs)
byte_of _ _ _ = none

-- `hex.DecodeString`; `none` is its error.
unfoldable pub hex_decode : String → Option (List ℕ)
hex_decode [] = some List.[]
hex_decode (String.◌∷◌ c []) = none
hex_decode (String.◌∷◌ c (String.◌∷◌ d s)) = byte_of (from_hex c) (from_hex d) (hex_decode s)

-- `c` in front of the first part.
unfoldable pub grow : Char → List String → List String
grow c List.[] = List.◌∷◌ (String.◌∷◌ c []) List.[]
grow c (List.◌∷◌ p ps) = List.◌∷◌ (String.◌∷◌ c p) ps

-- `strings.Split(s, ".")`
unfoldable pub split_dots : String → List String
split_dots [] = List.◌∷◌ [] List.[]
split_dots (String.◌∷◌ c s) =
    let rest = split_dots s in if code c == 46 then List.◌∷◌ [] rest else grow c rest

-- `binary.BigEndian.PutUint64` writes the eight low bytes of a number, `Uint64` reads them.
unfoldable pub be_bytes : ℕ → ℕ → List ℕ
be_bytes zero v = List.[]
be_bytes (suc k) v = be_bytes k (v / 256) ++ List.◌∷◌ (v % 256) List.[]

unfoldable pub be_value : ℕ → List ℕ → ℕ
be_value acc List.[] = acc
be_value acc (List.◌∷◌ b bs) = be_value (acc * 256 + b) bs
