-- ===== src/Cson/Steps.antt =====
-- cson.h: single steps of the scanners, from what the scanners inside them return.
use zfl.Base.{
  ℕ, suc, ◌+◌, ◌-◌, ◌≡◌, ◌≢◌, refl, sym, ap, ◌∙◌, true, false, ◌||◌, ◌⊎◌, inl, inr, Option, none,
  some, [], ◌∷◌, ◌++◌, ◌==◌, Bytes, length, arith, take-append,
}
use zfl.Cson.{
  Token, node, null, number, string, array, object, isdigit, peek, is_space, skip_whitespace,
  string_loop, scan_string, scan_number, link, skip_comma, elements, scan_array, members,
  scan_object, scan_at, scan_token,
}
use zfl.Cson.Numbers.{Numeral, whole, decimal, numeral_text, IsNumeral, Stops, scan_number-numeral}
use zfl.Cson.Syntax.{Json, num, str, arr, obj, quote, json_text, IsBlank, IsPlain, IsJson}

pub skip-blank :
    (w r : Bytes) (x : ℕ) → IsBlank w → is_space x ≡ false → skip_whitespace (w ++ (x ∷ r)) ≡ x ∷ r
unfolding skip_whitespace
skip-blank [] r x h e = rw e
skip-blank (y ∷ w) r x h e = rw h.0 (skip-blank w r x h.1 e)

ne_test : (y n : ℕ) → y ≢ n → (y == n) ≡ false
ne_test y n h = ground arith

module _ (past : ℕ) where
  string_loop-plain :
      (s rest : Bytes) (x len : ℕ)
      → IsPlain s
      → string_loop past len (x ∷ (s ++ (b'"' ∷ rest))) ≡ some (len + length s + 1, rest)
  unfolding string_loop
  string_loop-plain [] rest x len h = ap (λ n. some (n, rest)) (omega arith)
  string_loop-plain (y ∷ s) rest x len h =
      rw (ne_test y 0 h.0.0, ne_test y b'"' h.0.1, ne_test y b'\\' h.0.2)
        (string_loop-plain s rest y (len + 1) h.1 ∙ ap (λ n. some (n, rest)) (omega arith))

  scan_string-quote :
      (s rest : Bytes)
      → IsPlain s
      → scan_string past (quote s rest) ≡ some (node string (some s) null null, rest)
  unfolding scan_string
  scan_string-quote s rest h = rw (string_loop-plain s rest b'"' 0 h) (
      ap (λ t. some (node string (some t) null null, rest))
        (take-append s (b'"' ∷ rest) (0 + length s + 1 - 1) (omega arith)))

-- What the scanners ask of the byte at the cursor, at the start of a value.
pub record Begins (x : ℕ) : Type 0 where
  pub not_space : is_space x ≡ false
  pub not_close : (x == b']') ≡ false

abbrev StartsNumber : ℕ → Type 0
StartsNumber x = (isdigit x ≡ true) ⊎ (x ≡ b'-')

-- A value's text is its first byte and the rest.
pub record Headed (j : Json) (rest : Bytes) : Type 0 where
  pub first : ℕ
  pub others : Bytes
  pub text : json_text j rest ≡ first ∷ others
  pub begins : Begins first

numeral-first :
    (n : Numeral) → IsNumeral n → (x : ℕ) × (r : Bytes) × (numeral_text n ≡ x ∷ r) × StartsNumber x
numeral-first (whole true d ds) h = (b'-', d ∷ ds, refl, inr refl)
numeral-first (whole false d ds) h = (d, ds, refl, inl h.0)
numeral-first (decimal true d ds f fs) h = (b'-', _, refl, inr refl)
numeral-first (decimal false d ds f fs) h = (d, _, refl, inl h.0)

StartsNumber-Begins : (x : ℕ) → StartsNumber x → Begins x
StartsNumber-Begins x (inl h) = record { not_space = ground arith; not_close = ground arith }
StartsNumber-Begins x (inr h) = record { not_space = ground arith; not_close = ground arith }

pub json_text-Headed : (j : Json) (rest : Bytes) → IsJson j → Headed j rest
unfolding json_text IsJson
json_text-Headed (num n) rest h =
    let (x, r, e, s) = numeral-first n h in
    record {
      first = x;
      others = r ++ rest;
      text = ap (λ l. l ++ rest) e;
      begins = StartsNumber-Begins x s;
    }
json_text-Headed (str s) rest h = record {
  first = b'"';
  others = _;
  text = refl;
  begins = record { not_space = refl; not_close = refl };
}
json_text-Headed (arr w is) rest h = record {
  first = b'[';
  others = _;
  text = refl;
  begins = record { not_space = refl; not_close = refl };
}
json_text-Headed (obj w ms) rest h = record {
  first = b'{';
  others = _;
  text = refl;
  begins = record { not_space = refl; not_close = refl };
}

pub skip-json :
    (w : Bytes) (j : Json) (rest : Bytes)
    → IsBlank w
    → IsJson j
    → skip_whitespace (w ++ json_text j rest) ≡ json_text j rest
skip-json w j rest b h =
    let t = json_text-Headed j rest h in
    ap (λ l. skip_whitespace (w ++ l)) t.text
    ∙ skip-blank w t.others t.first b t.begins.not_space
    ∙ sym t.text

number_test : (x n : ℕ) → StartsNumber x → (isdigit n || n == b'-') ≡ false → (x == n) ≡ false
number_test x n (inl h) k = ground arith
number_test x n (inr h) k = ground arith

-- The dispatch sends a numeral to `scan_number`.
scan_at-number :
    (token : Bytes → Option (Token × Bytes)) (past x : ℕ) (r : Bytes)
    → StartsNumber x
    → scan_at token past (x ∷ r) ≡ scan_number past (x ∷ r)
unfolding scan_at
scan_at-number token past x r h = rw (
  number_test x 0 h refl,
  number_test x b'[' h refl,
  number_test x b'{' h refl,
  number_test x b'"' h refl,
  number_test x b't' h refl,
  number_test x b'f' h refl,
  number_test x b'n' h refl,
)

-- What may follow a value inside an array or an object ends a number.
abbrev pub Ends : ℕ → Type 0
Ends x = (is_space x ≡ true) ⊎ ((x ≡ b',') ⊎ ((x ≡ b']') ⊎ (x ≡ b'}')))

Ends-Stops : (past x : ℕ) (r : Bytes) → Ends x → Stops past (x ∷ r)
Ends-Stops past x r (inl h) = ground arith
Ends-Stops past x r (inr (inl h)) = ground arith
Ends-Stops past x r (inr (inr (inl h))) = ground arith
Ends-Stops past x r (inr (inr (inr h))) = ground arith

pub blank-Stops : (past x : ℕ) (w r : Bytes) → IsBlank w → Ends x → Stops past (w ++ (x ∷ r))
blank-Stops past x [] r b e = Ends-Stops past x r e
blank-Stops past x (y ∷ w) r b e = Ends-Stops past y (w ++ (x ∷ r)) (inl b.0)

module _ (past : ℕ) where
  pub scan_numeral :
      (n : Numeral) (fuel : ℕ) (rest : Bytes)
      → IsNumeral n
      → Stops past rest
      → scan_token (suc fuel) past (numeral_text n ++ rest)
        ≡ some (node number (some (numeral_text n)) null null, rest)
  unfolding scan_token
  scan_numeral n fuel rest h s =
      let (x, r, e, starts) = numeral-first n h in
      let b = StartsNumber-Begins x starts in
      ap (λ l. scan_at (scan_token fuel past) past (skip_whitespace (l ++ rest))) e
      ∙ ap (scan_at (scan_token fuel past) past) (skip-blank [] (r ++ rest) x tt b.not_space)
      ∙ scan_at-number (scan_token fuel past) past x (r ++ rest) starts
      ∙ ap (λ l. scan_number past (l ++ rest)) (sym e)
      ∙ scan_number-numeral past n rest h s

  pub scan_quote :
      (s : Bytes) (fuel : ℕ) (rest : Bytes)
      → IsPlain s
      → scan_token (suc fuel) past (quote s rest) ≡ some (node string (some s) null null, rest)
  unfolding scan_token scan_at
  scan_quote s fuel rest h =
      rw (skip-blank [] (s ++ (b'"' ∷ rest)) b'"' tt refl) (scan_string-quote past s rest h)

  -- An array, from its elements.
  pub scan_brackets :
      (w text rest : Bytes) (fuel : ℕ) (l : Token)
      → skip_whitespace (w ++ text) ≡ text
      → elements (scan_token fuel past) (suc (suc (length (w ++ text)))) text
        ≡ some (l, b']' ∷ rest)
      → scan_token (suc fuel) past (b'[' ∷ (w ++ text)) ≡ some (node array none l null, rest)
  unfolding scan_token scan_at scan_array
  scan_brackets w text rest fuel l blank inner =
      rw (skip-blank [] (w ++ text) b'[' tt refl, blank, inner)

  -- An object, from its members.
  pub scan_braces :
      (w text rest : Bytes) (fuel : ℕ) (l : Token)
      → skip_whitespace (w ++ text) ≡ text
      → members (scan_token fuel past) past (suc (suc (length (w ++ text)))) text
        ≡ some (l, b'}' ∷ rest)
      → scan_token (suc fuel) past (b'{' ∷ (w ++ text)) ≡ some (node object none null l, rest)
  unfolding scan_token scan_at scan_object
  scan_braces w text rest fuel l blank inner =
      rw (skip-blank [] (w ++ text) b'{' tt refl, blank, inner)

  module _ (token : Bytes → Option (Token × Bytes)) where
    -- One element, from its token and those behind it.
    pub elements_step :
        (n : ℕ) (r r1 r2 r3 : Bytes) (t l : Token)
        → (peek r == b']') ≡ false
        → token r ≡ some (t, r1)
        → skip_comma (skip_whitespace r1) ≡ r2
        → elements token n r2 ≡ some (l, r3)
        → elements token (suc n) r ≡ some (link t l, r3)
    unfolding elements
    elements_step n r r1 r2 r3 t l open_ first comma later =
        rw (open_, first, comma, later, elements)

    pub members_step :
        (n : ℕ) (k a value r1 r2 r3 : Bytes) (t l : Token)
        → IsPlain k
        → IsBlank a
        → token value ≡ some (t, r1)
        → skip_comma (skip_whitespace r1) ≡ r2
        → members token past n r2 ≡ some (l, r3)
        → members token past (suc n) (quote k (a ++ (b':' ∷ value)))
          ≡ some (node string (some k) t l, r3)
    unfolding members
    members_step n k a value r1 r2 r3 t l plain blank first comma later = rw (
      scan_string-quote past k (a ++ (b':' ∷ value)) plain,
      skip-blank a value b':' blank refl,
      first,
      comma,
      later,
    )
