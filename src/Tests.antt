-- ===== src/Tests.antt =====
-- Tests of the definitions, and concrete inputs at which the theorems' hypotheses hold.
mod Text
mod Json
mod Server
mod Network
mod Client
mod Messages
mod Files
use zfl.Base.{ℕ, ◌≡◌, Bytes, length, replicate, length-replicate}

abbrev pub zeros : ℕ → Bytes
zeros n = replicate n 0

pub zeros_size : (n : ℕ) → length (zeros n) ≡ n
zeros_size n = length-replicate n 0
