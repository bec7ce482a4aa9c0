-- ===== src/Rpc/Stream.antt =====
-- micro/rpc/common.go: what `ReceiveRequestStream` and `ReceiveResponseStream`, which are the same
-- code, read of a connection. A connection is the list of what its calls of Read find, an empty list
-- one that fails: Read gives what is there, at most what is asked for.
pub mod Whole
use soil.Base.{
  ℕ, ◌+◌, ◌-◌, ◌^◌, ◌%◌, Option, none, some, List, [], ◌∷◌, ◌++◌, Bytes, length, take, drop, leb,
  ltb, ◌==◌, if◌then◌else◌, replicate,
}
use soil.Message.{uint32_at}

abbrev pub Conn : Type 0
Conn = List Bytes

-- `conn.Read` into a buffer of `n` bytes
unfoldable pub read : ℕ → Conn → Option (Bytes × Conn)
read n [] = if n == 0 then some ([], []) else none
read n (s ∷ ss) = if leb (length s) n then some (s, ss) else some (take n s, drop n s ∷ ss)

-- What a buffer of `n` zero bytes holds then.
abbrev pub filled : ℕ → Bytes → Bytes
filled n s = s ++ replicate (n - length s) 0

pub data Received : Type 0 where
  received : Bytes → Conn → Received
  failed panicked : Received

-- `headerLength+bodyLength`, a sum of uint32s
abbrev pub declared : Bytes → ℕ
declared s = (uint32_at 0 s + uint32_at 4 s) % 2 ^ 32

-- The second Read, into what is left of the buffer behind the lengths.
unfoldable pub receive_rest : Bytes → Option (Bytes × Conn) → Received
receive_rest lengths none = failed
receive_rest lengths (some (s, c)) = received (lengths ++ filled (declared lengths - 8) s) c

-- `requestStream[4:numOfLengthBytes]` is out of range where the sum is below 8.
unfoldable pub receive_behind : Bytes → Conn → Received
unfolding receive_rest read
receive_behind lengths c =
    if ltb (declared lengths) 8
    then panicked
    else receive_rest lengths (read (declared lengths - 8) c)

unfoldable pub receive_lengths : Option (Bytes × Conn) → Received
unfolding receive_behind
receive_lengths none = failed
receive_lengths (some (s, c)) = receive_behind (filled 8 s) c

unfoldable pub receive : Conn → Received
unfolding receive_lengths read
receive c = receive_lengths (read 8 c)
