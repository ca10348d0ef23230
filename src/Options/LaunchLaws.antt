-- ===== src/Options/LaunchLaws.antt =====
-- zfl.c: the texts of `start_client` fit their buffers.
use native.Mathlib.Nat.{mod-lt}
use zfl.Base.{
  ℕ, zero, suc, ◌+◌, ◌*◌, ◌%◌, ◌≤◌, ◌<◌, ◌≡◌, refl, sym, ap, ◌∙◌, [], ◌++◌, ltb, if◌then◌else◌,
  Bytes, codes, length, take, take_all, length-append, append_assoc, append-nil, arith,
}
use zfl.Options.Launch.{Formats, mac_byte, mac_from, mac_text}

-- What "%x" writes for the numbers below 32.
abbrev pub WritesHex : Formats → Type 0
WritesHex formats = (k : ℕ) → k < 32 → length (formats.hex_text k) ≡ (if ltb k 16 then 1 else 2)

module _ (formats : Formats) (rand : ℕ → ℕ) where
  -- The bytes with nothing cut off.
  abbrev pub mac_bytes : ℕ → ℕ → Bytes
  mac_bytes x zero = []
  mac_bytes x (suc n) = mac_byte formats x (rand x % 32) ++ mac_bytes (suc x) n

  digits :
      (k l : ℕ)
      → l ≡ (if ltb k 16 then 1 else 2)
      → length (if ltb k 16 then codes "0" else []) + l ≡ 2
  digits k l e = ground arith

  colon : (x : ℕ) → length (if ltb x 4 then codes ":" else []) ≡ (if ltb x 4 then 1 else 0)
  colon x = ground arith

  length-mac_byte :
      (x k : ℕ)
      → WritesHex formats
      → k < 32
      → length (mac_byte formats x k) ≡ 2 + (if ltb x 4 then 1 else 0)
  length-mac_byte x k hex h =
      length-append (if ltb k 16 then codes "0" else [])
        (formats.hex_text k ++ (if ltb x 4 then codes ":" else []))
      ∙ ap (λ l. length (if ltb k 16 then codes "0" else []) + l)
          (length-append (formats.hex_text k) (if ltb x 4 then codes ":" else []))
      ∙ omega (arith, digits k (length (formats.hex_text k)) (hex k h), colon x)

  -- What the address is long before byte `x`.
  abbrev before : ℕ → ℕ
  before x = if ltb x 5 then 3 + 3 * x else 17

  at_end : (x l : ℕ) → x + 0 ≡ 5 → l ≡ before x → l ≡ 17
  at_end x l e h = ground arith

  -- With one more byte.
  next_byte :
      (x n l k : ℕ)
      → x + suc n ≡ 5
      → l ≡ before x
      → k ≡ 2 + (if ltb x 4 then 1 else 0)
      → l + k ≡ before (suc x)
  next_byte x n l k e h m = ground arith

  small_byte : (x k : ℕ) → k ≡ 2 + (if ltb x 4 then 1 else 0) → k ≤ 3
  small_byte x k m = ground arith

  small_before : (x n l : ℕ) → x + suc n ≡ 5 → l ≡ before x → l ≤ 17
  small_before x n l e h = ground arith

  mac_from-whole :
      (x n : ℕ) (mac : Bytes)
      → WritesHex formats
      → x + n ≡ 5
      → length mac ≡ before x
      → (mac_from formats rand x n mac ≡ mac ++ mac_bytes x n)
        × (length (mac_from formats rand x n mac) ≡ 17)
  unfolding mac_from
  mac_from-whole x zero mac hex e l = (sym (append-nil mac), at_end x (length mac) e l)
  mac_from-whole x (suc n) mac hex e l =
      let b = mac_byte formats x (rand x % 32) in
      let size = length-mac_byte x (rand x % 32) hex (mod-lt (rand x) (omega arith)) in
      let three = small_byte x (length b) size in
      let whole =
        take_all (mac ++ b) 49
          (omega (arith, length-append mac b, small_before x n (length mac) e l)) in
      let kept = ap (λ t. take 49 (mac ++ t)) (take_all b 9 (omega arith)) ∙ whole in
      let (same, long) =
        mac_from-whole (suc x) n (mac ++ b) hex (omega arith)
          (length-append mac b ∙ next_byte x n (length mac) (length b) e l size) in
      (
        ap (mac_from formats rand (suc x) n) kept ∙ same ∙ append_assoc mac b (mac_bytes (suc x) n),
        ap (λ m. length (mac_from formats rand (suc x) n m)) kept ∙ long,
      )

  -- Whatever rand returns, where "%x" writes one digit below 16 and two below 32: the address of a
  -- client has its five random bytes whole, with colons between them, none of its buffers cuts it off,
  -- and it has 17 bytes.
  pub mac_text-whole :
      WritesHex formats
      → (mac_text formats rand ≡ codes "00:" ++ mac_bytes 0 5)
        × (length (mac_text formats rand) ≡ 17)
  mac_text-whole hex = mac_from-whole 0 5 (codes "00:") hex refl refl
