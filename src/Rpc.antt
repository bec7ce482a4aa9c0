-- ===== src/Rpc.antt =====
-- micro/rpc: calls of services over messages. Package reflect, and what registers itself with a
-- client or a server, are parameters: a `Serializer`, a `Compressor`, a `Service`. An error is its
-- text; what a decoding that fails has filled in is left out.
pub mod Stream
pub mod Server
pub mod Client
pub mod Calls
mod Tests
use soil.Base.{ℕ, Bool, Option, none, some, Bytes, codes, List, [], ◌∷◌, ◌⊎◌, same, if◌then◌else◌}

module _ (T V : Type 0) where
  -- `serialize.Serializer`, for values `V` of types `T`
  pub record Serializer : Type 0 where
    pub code : ℕ
    pub encode : V → Bytes ⊎ Bytes
    pub decode : T → Bytes → Bytes ⊎ V

-- `compressor.Compressor`
pub record Compressor : Type 0 where
  pub code : ℕ
  pub compress : Bytes → Bytes ⊎ Bytes
  pub decompress : Bytes → Bytes ⊎ Bytes

-- What a context says; a deadline is of a type `D`, in milliseconds as the requests have it.
pub record Context (D : Type 0) : Type 0 where
  pub deadline : Option D
  pub is_one_way : Bool

-- What a method gives: a value and an error, or a panic.
pub data Outcome (V : Type 0) : Type 0 where
  returned : Option V → Option Bytes → Outcome V
  raised : Outcome V

-- A method: the type of its argument, the type of its value, and the function.
pub record Method (D T V : Type 0) : Type 0 where
  pub argument : T
  pub result : T
  pub run : Context D → V → Outcome V

-- `MethodByName` of a service
abbrev pub Service : Type 0 → Type 0 → Type 0 → Type 0
Service D T V = Bytes → Option (Method D T V)

-- `meta[key]`
unfoldable pub meta_value : Bytes → List (Bytes × Bytes) → Option Bytes
meta_value key [] = none
meta_value key ((k, v) ∷ m) = let rest = meta_value key m in if same key k then some v else rest

abbrev pub deadline_key : Bytes
deadline_key = codes "deadline"

abbrev pub one_way_key : Bytes
one_way_key = codes "one-way"
