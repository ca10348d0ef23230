-- ===== src/Cson/Numbers.antt =====
-- cson.h: the numbers that `scan_number` reads whole, in the form that printf gives them.
use zfl.Base.{
  ℕ, ◌+◌, ◌-◌, ◌≡◌, ap, ◌∙◌, Bool, true, false, ◌||◌, Option, some, [], ◌∷◌, ◌++◌, ◌==◌,
  if◌then◌else◌, Bytes, length, take, arith, All, length-append, append_assoc, take-append,
}
use zfl.Cson.{
  Token, node, null, number, isdigit, peek_next, more, number_step, digits, number_from,
  scan_number,
}

-- A numeral: a sign or none, a first digit, more digits, and perhaps a point with digits behind.
pub data Numeral : Type 0 where
  whole : Bool → ℕ → Bytes → Numeral
  decimal : Bool → ℕ → Bytes → ℕ → Bytes → Numeral

abbrev pub sign_text : Bool → Bytes
sign_text neg = if neg then b'-' ∷ [] else []

-- Its digits and point, without the sign.
abbrev pub unsigned_text : Numeral → Bytes
unsigned_text (whole neg d ds) = d ∷ ds
unsigned_text (decimal neg d ds f fs) = d ∷ (ds ++ (b'.' ∷ f ∷ fs))

abbrev pub is_negative : Numeral → Bool
is_negative (whole neg d ds) = neg
is_negative (decimal neg d ds f fs) = neg

abbrev pub numeral_text : Numeral → Bytes
numeral_text n = sign_text (is_negative n) ++ unsigned_text n

abbrev pub IsDigits : Bytes → Type 0
IsDigits = All (λ x. isdigit x ≡ true)

abbrev pub IsNumeral : Numeral → Type 0
IsNumeral (whole neg d ds) = (isdigit d ≡ true) × IsDigits ds
IsNumeral (decimal neg d ds f fs) =
    (isdigit d ≡ true) × IsDigits ds × (isdigit f ≡ true) × IsDigits fs

-- The byte at the cursor, or behind the last one, cannot continue a number.
abbrev pub next_byte : ℕ → Bytes → ℕ
next_byte past [] = past
next_byte past (x ∷ r) = x

abbrev pub Stops : ℕ → Bytes → Type 0
Stops past r =
    (isdigit (next_byte past r)
      || (next_byte past r == b'.' || (next_byte past r == b'e' || next_byte past r == b'E')))
    ≡ false

abbrev last : ℕ → Bytes → ℕ
last x [] = x
last x (y ∷ ds) = last y ds

not_minus : (d : ℕ) → isdigit d ≡ true → (d == b'-') ≡ false
not_minus d h = ground arith

module _ (past : ℕ) where
  digits_more :
      (r : Bytes) (x y len : ℕ) (f e f' e' : Bool)
      → number_step f e y (y ∷ r) ≡ more f' e'
      → digits past f e len (x ∷ y ∷ r) ≡ digits past f' e' (len + 1) (y ∷ r)
  unfolding digits
  digits_more r x y len f e f' e' h = rw (h, digits)

  digit_step : (r : Bytes) (y : ℕ) (f e : Bool) → isdigit y ≡ true → number_step f e y r ≡ more f e
  unfolding number_step
  digit_step r y f e h = rw h

  digit_one :
      (rest : Bytes) (x y len : ℕ) (f e : Bool)
      → isdigit y ≡ true
      → digits past f e len (x ∷ y ∷ rest) ≡ digits past f e (len + 1) (y ∷ rest)
  digit_one rest x y len f e h = digits_more rest x y len f e f e (digit_step (y ∷ rest) y f e h)

  digits_run :
      (ds rest : Bytes) (x len : ℕ) (f e : Bool)
      → IsDigits ds
      → digits past f e len (x ∷ (ds ++ rest))
        ≡ digits past f e (len + length ds) (last x ds ∷ rest)
  digits_run [] rest x len f e h = ap (λ n. digits past f e n (x ∷ rest)) (omega arith)
  digits_run (y ∷ ds) rest x len f e h =
      digit_one (ds ++ rest) x y len f e h.0
      ∙ digits_run ds rest y (len + 1) f e h.1
      ∙ ap (λ n. digits past f e n (last y ds ∷ rest)) (omega arith)

  digits_stop :
      (rest : Bytes) (x len : ℕ) (f e : Bool)
      → Stops past rest
      → digits past f e len (x ∷ rest) ≡ some (len, rest)
  unfolding digits number_step
  digits_stop [] x len f e h = ground arith
  digits_stop (y ∷ rest) x len f e h = ground arith

  point_step :
      (rest : Bytes) (y : ℕ) (e : Bool)
      → isdigit y ≡ true
      → number_step false e b'.' (b'.' ∷ y ∷ rest) ≡ more true e
  unfolding number_step
  point_step rest y e h = rw h

  digits_point :
      (rest : Bytes) (x y len : ℕ) (e : Bool)
      → isdigit y ≡ true
      → digits past false e len (x ∷ (b'.' ∷ y ∷ rest))
        ≡ digits past true e (len + 1) (b'.' ∷ y ∷ rest)
  digits_point rest x y len e h =
      digits_more (y ∷ rest) x b'.' len false e true e (point_step rest y e h)

  -- The digits of a numeral are counted up to its end.
  digits-unsigned :
      (n : Numeral) (rest : Bytes) (len : ℕ)
      → IsNumeral n
      → Stops past rest
      → digits past false false len (unsigned_text n ++ rest)
        ≡ some (len + length (unsigned_text n) - 1, rest)
  digits-unsigned (whole neg d ds) rest len h s =
      digits_run ds rest d len false false h.1
      ∙ digits_stop rest (last d ds) _ false false s
      ∙ ap (λ n. some (n, rest)) (omega arith)
  digits-unsigned (decimal neg d ds f fs) rest len h s =
      ap (λ l. digits past false false len (d ∷ l)) (append_assoc ds (b'.' ∷ f ∷ fs) rest)
      ∙ digits_run ds (b'.' ∷ f ∷ (fs ++ rest)) d len false false h.1
      ∙ digits_point (fs ++ rest) (last d ds) f (len + length ds) false h.2
      ∙ digits_run (f ∷ fs) rest b'.' (len + length ds + 1) true false (h.2, h.3)
      ∙ digits_stop rest (last b'.' (f ∷ fs)) _ true false s
      ∙ ap (λ n. some (n, rest)) (omega (arith, length-append ds (b'.' ∷ f ∷ fs)))

  -- From the first digit on, the token's text is as long as what has been counted.
  number_from-unsigned :
      (n : Numeral) (start rest : Bytes) (neg : Bool) (len : ℕ)
      → IsNumeral n
      → Stops past rest
      → number_from past start neg len (unsigned_text n ++ rest)
        ≡ some (
          node number
              (some (take (len + length (unsigned_text n) - 1) (start ++ (past ∷ []))))
              null
              null,
          rest,
        )
  unfolding number_from
  number_from-unsigned (whole sign d ds) start rest neg len h s =
      rw (not_minus d h.0, h.0, digits-unsigned (whole sign d ds) rest len h s)
  number_from-unsigned (decimal sign d ds f fs) start rest neg len h s =
      rw (not_minus d h.0, h.0, digits-unsigned (decimal sign d ds f fs) rest len h s)

  number_from_minus :
      (r start : Bytes) (len : ℕ)
      → isdigit (peek_next (b'-' ∷ r)) ≡ true
      → number_from past start false len (b'-' ∷ r) ≡ number_from past start true (len + 1) r
  unfolding number_from
  number_from_minus r start len h = rw (h, number_from)

  number_from-sign :
      (n : Numeral) (start rest : Bytes)
      → IsNumeral n
      → number_from past start false 1 (b'-' ∷ (unsigned_text n ++ rest))
        ≡ number_from past start true 2 (unsigned_text n ++ rest)
  number_from-sign (whole sign d ds) start rest h =
      number_from_minus (unsigned_text (whole sign d ds) ++ rest) start 1 h.0
  number_from-sign (decimal sign d ds f fs) start rest h =
      number_from_minus (unsigned_text (decimal sign d ds f fs) ++ rest) start 1 h.0

  -- The text of a token that begins where the numeral does.
  text_of :
      (text rest : Bytes) (n : ℕ) → n ≡ length text → take n ((text ++ rest) ++ (past ∷ [])) ≡ text
  text_of text rest n e =
      ap (take n) (append_assoc text rest (past ∷ [])) ∙ take-append text (rest ++ (past ∷ [])) n e

  abbrev found : Bytes → Bytes → Option (Token × Bytes)
  found rest t = some (node number (some t) null null, rest)

  signed :
      (n : Numeral) (rest : Bytes) (neg : Bool)
      → IsNumeral n
      → Stops past rest
      → scan_number past ((sign_text neg ++ unsigned_text n) ++ rest)
        ≡ some (node number (some (sign_text neg ++ unsigned_text n)) null null, rest)
  unfolding scan_number
  signed n rest false h s =
      number_from-unsigned n (unsigned_text n ++ rest) rest false 1 h s
      ∙ ap (found rest) (text_of (unsigned_text n) rest _ (omega arith))
  signed n rest true h s =
      number_from-sign n (b'-' ∷ (unsigned_text n ++ rest)) rest h
      ∙ number_from-unsigned n (b'-' ∷ (unsigned_text n ++ rest)) rest true 2 h s
      ∙ ap (found rest) (text_of (b'-' ∷ unsigned_text n) rest _ (omega arith))

  -- A numeral is scanned whole and is the token's text, if what follows cannot continue it.
  pub scan_number-numeral :
      (n : Numeral) (rest : Bytes)
      → IsNumeral n
      → Stops past rest
      → scan_number past (numeral_text n ++ rest)
        ≡ some (node number (some (numeral_text n)) null null, rest)
  scan_number-numeral n rest h s = signed n rest (is_negative n) h s
