-- ===== src/Message.antt =====
-- micro/rpc/message: the messages of the RPC proxy. A slice's capacity is its length, a panic is
-- none. A map is a list of its pairs in the order in which `range` meets them, a nil one is empty.
pub mod Buffer
pub mod Request
pub mod Response
mod Tests
use soil.Base.{
  ℕ, ◌+◌, ◌^◌, ◌%◌, ◌&&◌, Option, none, some, List, [], ◌∷◌, ◌++◌, Bytes, length, take, drop,
  get_elem?, leb, ◌==◌, if◌then◌else◌, get_uint, replicate,
}

infixl 5 ◌>>=◌
abbrev pub ◌>>=◌ : {A B : Type 0} → Option A → (A → Option B) → Option B
none >>= f = none
some a >>= f = f a

-- A buffer that is filled from the left: what is written, and `cur`, what is left of it.
pub record Cursor : Type 0 where
  pub written : Bytes
  pub left : Bytes

-- `copy(cur[:len(s)], s)` or a store of single bytes, and the step forward.
unfoldable pub put : Bytes → Cursor → Option Cursor
put s c =
    if leb (length s) (length c.left)
    then some (record { written = c.written ++ s; left = drop (length s) c.left })
    else none

unfoldable pub puts : List Bytes → Cursor → Option Cursor
unfolding put
puts [] c = some c
puts (s ∷ ss) c = do c' ← put s c; puts ss c'

-- `make([]byte, n)`
abbrev pub start : ℕ → Cursor
start n = record { written = []; left = replicate n 0 }

-- `copy(cur, data)`: what the buffer holds then.
unfoldable pub finish : Bytes → Cursor → Bytes
finish s c = c.written ++ (take (length c.left) s ++ drop (length s) c.left)

-- `data[first:last]`
unfoldable pub slice : ℕ → ℕ → Bytes → Option Bytes
slice first last s =
    if leb first last && leb last (length s) then some (drop first (take last s)) else none

-- `if m.BodyLength > 0 { m.Data = data[m.HeadLength:] }`
abbrev pub data_behind : ℕ → ℕ → Bytes → Option Bytes
data_behind head body s = if body == 0 then some [] else slice head (length s) s

-- `data[i]`
abbrev pub byte_at : ℕ → Bytes → ℕ
byte_at i s = elim (get_elem? s i) [ none ↦ 0 | some b ↦ b ]

-- `binary.BigEndian.Uint32(data[first:first+4])`
abbrev pub uint32_at : ℕ → Bytes → ℕ
uint32_at first s = get_uint (take 4 (drop first s))

abbrev pub concat : List Bytes → Bytes
concat [] = []
concat (s ∷ ss) = s ++ concat ss
