-- ===== src/Common.antt =====
-- common.h: what client and server share. Floats are a parameter: their operations, and the C
-- library's strtof, as functions of an abstract type.
pub mod Weights
pub mod Payload
pub mod Print
pub mod Brackets
pub mod Text
pub mod Message
pub mod Read
pub mod RoundTrip
use zfl.Base.{ℕ, Bool, Bytes, List, [], ◌∷◌}

pub record Floats : Type 1 where
  pub Float : Type 0
  pub zero_float : Float
  pub add_float : Float → Float → Float
  pub div_float : Float → ℕ → Float
  pub strtof : Bytes → Float

-- What the network needs besides: the arithmetic of floats, the conversions that C inserts, and the
-- C library's functions. `greater` and `equal` are `>` and `==`.
pub record Math (Float : Type 0) : Type 0 where
  pub one_float : Float
  pub relu_param : Float
  pub of_size : ℕ → Float
  pub negate : Float → Float
  pub sub_float : Float → Float → Float
  pub mul_float : Float → Float → Float
  pub quot_float : Float → Float → Float
  pub greater : Float → Float → Bool
  pub equal : Float → Float → Bool
  pub expf : Float → Float
  pub exp : Float → Float
  pub logf : Float → Float
  pub sinf : Float → Float
  pub cosf : Float → Float
  pub asinf : Float → Float

-- The sizes of the layers, `ARCH`.
abbrev pub arch : List ℕ
arch = 784 ∷ 16 ∷ 10 ∷ []
