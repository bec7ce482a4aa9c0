-- ===== src/Base/BigEndian.antt =====
-- Package `encoding/binary`: big-endian numbers of a fixed number of bytes.
use Prim.Native.Nat.{ℕ, zero, suc, ◌+◌, ◌*◌, ◌/◌, ◌%◌, ◌^◌, ◌<◌}
use mathlib.Core.Path.{◌≡◌, refl}
use mathlib.Core.List.{[], ◌∷◌, ◌++◌}
use native.Mathlib.Omega.{arith}
use native.Mathlib.Nat.{pow-suc}
use soil.Base.Lists.{length, length-append}
use soil.Base.Text.{Bytes}

-- The low `k` bytes of a number, as `PutUint16` and its kin write them.
unfoldable pub put_uint : ℕ → ℕ → Bytes
put_uint zero x = []
put_uint (suc k) x = put_uint k (x / 256) ++ (x % 256 ∷ [])

value_from : ℕ → Bytes → ℕ
value_from acc [] = acc
value_from acc (b ∷ s) = value_from (acc * 256 + b) s

-- `Uint16` and its kin.
unfoldable pub get_uint : Bytes → ℕ
unfolding value_from
get_uint s = value_from 0 s

value_from-append :
    (acc b : ℕ) (s : Bytes) → value_from acc (s ++ (b ∷ [])) ≡ value_from acc s * 256 + b
unfolding value_from
value_from-append acc b [] = refl
value_from-append acc b (c ∷ s) = value_from-append (acc * 256 + c) b s

-- A number that fits is read back.
pub get_uint-put_uint : (k x : ℕ) → x < 256 ^ k → get_uint (put_uint k x) ≡ x
unfolding get_uint put_uint
get_uint-put_uint zero x h = omega arith
get_uint-put_uint (suc k) x h = omega (
  arith,
  value_from-append 0 (x % 256) (put_uint k (x / 256)),
  get_uint-put_uint k (x / 256) (omega (arith, pow-suc 256 k)),
)

pub length-put_uint : (k x : ℕ) → length (put_uint k x) ≡ k
unfolding put_uint
length-put_uint zero x = refl
length-put_uint (suc k) x =
    omega (arith, length-append (put_uint k (x / 256)) (x % 256 ∷ []), length-put_uint k (x / 256))
