-- ===== src/Cson.antt =====
-- cson.h: the JSON scanner. The cursor is the list of the bytes from `c->cur` to `c->size`; the
-- byte `b[size]`, which `advance` reads when it reaches the end, is the parameter `past`. A scanner
-- returns the token that it fills in and the cursor behind it, or `none` for false.
pub mod Numbers
pub mod Syntax
pub mod Steps
pub mod Gaps
pub mod RoundTrip
use zfl.Base.{
  ℕ, zero, suc, ◌+◌, ◌-◌, Bool, true, false, not, ◌&&◌, ◌||◌, Option, none, some, List, [], ◌∷◌,
  ◌++◌, ◌>>=◌, ◌==◌, leb, ltb, if◌then◌else◌, Bytes, codes, length, take, drop,
}

pub data TokenType : Type 0 where
  null_value object array string number true_value false_value : TokenType

-- A pointer to a token: NULL, or the token's type, text, child and next.
pub data Token : Type 0 where
  null : Token
  node : TokenType → Option Bytes → Token → Token → Token

unfoldable pub translate_tokentype : TokenType → Bytes
translate_tokentype null_value = codes "null"
translate_tokentype object = codes "object"
translate_tokentype array = codes "array"
translate_tokentype string = codes "string"
translate_tokentype number = codes "number"
translate_tokentype true_value = codes "true"
translate_tokentype false_value = codes "false"

-- The cursor behind a call of `advance`, and the byte that the call returns.
abbrev pub moved : Bytes → Bytes
moved [] = []
moved (x ∷ r) = r

abbrev pub advance : ℕ → Bytes → ℕ
advance past [] = 0
advance past (x ∷ []) = past
advance past (x ∷ y ∷ r) = y

abbrev pub peek : Bytes → ℕ
peek [] = 0
peek (x ∷ r) = x

abbrev pub peek_next : Bytes → ℕ
peek_next [] = 0
peek_next (x ∷ []) = 0
peek_next (x ∷ y ∷ r) = y

abbrev pub isdigit : ℕ → Bool
isdigit c = leb b'0' c && leb c b'9'

abbrev pub is_space : ℕ → Bool
is_space c = c == b'\t' || c == b'\n' || c == b'\r' || c == b' '

unfoldable pub skip_whitespace : Bytes → Bytes
skip_whitespace [] = []
skip_whitespace (x ∷ r) = if is_space x then skip_whitespace r else x ∷ r

-- The cursor of `scan_next`.
abbrev pub scan_next : Bytes → Bytes
scan_next r = skip_whitespace (moved r)

-- What the inner loop of `scan_number` does with the byte that `advance` returned: go on, go on
-- behind a sign of the exponent, refuse, or end the number.
pub data Step : Type 0 where
  more : Bool → Bool → Step
  signed : Step
  refuse : Step
  finish : Step

-- `r` is the cursor at that byte; the flags are `fraction` and `exp`.
unfoldable pub number_step : Bool → Bool → ℕ → Bytes → Step
number_step fraction exp next r =
    if isdigit next
    then more fraction exp
    else if next == b'.'
    then if fraction || not (isdigit (peek_next r)) then refuse else more true exp
    else if next == b'e' || next == b'E'
    then if exp
      then refuse
      else if peek_next r == b'+' || peek_next r == b'-'
      then if isdigit (peek_next (moved r)) then signed else refuse
      else if isdigit (peek_next r)
      then more fraction true
      else refuse
    else finish

-- The inner loop, from the cursor at a byte already counted: the length of the text, and the
-- cursor behind it.
unfoldable pub digits : ℕ → Bool → Bool → ℕ → Bytes → Option (ℕ × Bytes)
digits past fraction exp len [] = some (len, [])
digits past fraction exp len (x ∷ []) = elim (number_step fraction exp past []) [
  | more f e ↦ digits past f e (len + 1) []
  | signed ↦ digits past fraction true (len + 2) []
  | refuse ↦ none
  | finish ↦ some (len, [])
]
digits past fraction exp len (x ∷ y ∷ r) = elim (number_step fraction exp y (y ∷ r)) [
  | more f e ↦ digits past f e (len + 1) (y ∷ r)
  | signed ↦ digits past fraction true (len + 2) r
  | refuse ↦ none
  | finish ↦ some (len, y ∷ r)
]

-- The outer loop of `scan_number`: a sign, once, before a digit; `start` is the cursor where the
-- text begins.
unfoldable pub number_from : ℕ → Bytes → Bool → ℕ → Bytes → Option (Token × Bytes)
number_from past start neg len [] = none
number_from past start neg len (x ∷ r) =
    let behind_sign = number_from past start true (len + 1) r in
    if x == b'-'
    then if neg then none else if isdigit (peek_next (x ∷ r)) then behind_sign else none
    else if isdigit x
    then (digits past false false len (x ∷ r) >>= λ (n, rest).
        some (node number (some (take n (start ++ (past ∷ [])))) null null, rest))
    else none

unfoldable pub scan_number : ℕ → Bytes → Option (Token × Bytes)
scan_number past r = number_from past r false 1 r

abbrev pub is_escape : ℕ → Bool
is_escape c =
    c == b'"'
    || c == b'\\'
    || c == b'/'
    || c == b'b'
    || c == b'f'
    || c == b'n'
    || c == b'r'
    || c == b't'
    || c == b'u'

-- The loop of `scan_string`: its `len` at the closing quote, and the cursor behind that.
unfoldable pub string_loop : ℕ → ℕ → Bytes → Option (ℕ × Bytes)
string_loop past len [] = none
string_loop past len (x ∷ []) = if past == b'"' then some (len + 1, []) else none
string_loop past len (x ∷ y ∷ r) =
    let plain = string_loop past (len + 1) (y ∷ r) in
    let escaped = string_loop past (len + 2) r in
    if y == 0
    then none
    else if y == b'"'
    then some (len + 1, r)
    else if y == b'\\'
    then if is_escape (advance past (y ∷ r)) then escaped else none
    else plain

unfoldable pub scan_string : ℕ → Bytes → Option (Token × Bytes)
scan_string past r =
    if peek r == b'"'
    then (string_loop past 0 r >>= λ (len, rest).
        some (node string (some (take (len - 1) (moved r))) null null, rest))
    else none

unfoldable pub bytes_eq : Bytes → Bytes → Bool
bytes_eq [] [] = true
bytes_eq (x ∷ s) (y ∷ t) = x == y && bytes_eq s t
bytes_eq _ _ = false

unfoldable pub scan_special : TokenType → Bytes → Option (Token × Bytes)
scan_special special r =
    let s = translate_tokentype special in
    if ltb (length r) (length s)
    then none
    else if bytes_eq (take (length s) r) s
    then some (node special (some s) null null, drop (length s) r)
    else none

-- `res->next = next`: a token that comes last keeps the `next` that it was scanned with, which is
-- the chain of its keys if it is an object.
unfoldable pub link : Token → Token → Token
link null l = l
link (node type text child next) null = node type text child next
link (node type text child next) (node t x c n) = node type text child (node t x c n)

-- The cursor behind an optional comma.
abbrev pub skip_comma : Bytes → Bytes
skip_comma r = if peek r == b',' then scan_next r else r

-- The loop of `scan_array`: the chain of the elements, and the cursor at the ']'. A round that
-- goes on moves the cursor, so the bytes left bound the rounds.
unfoldable pub elements : (Bytes → Option (Token × Bytes)) → ℕ → Bytes → Option (Token × Bytes)
elements token zero r = none
elements token (suc fuel) r = elim (peek r == b']') [
  | true ↦ some (null, r)
  | false ↦ token r >>= λ (t, r1).
      elements token fuel (skip_comma (skip_whitespace r1)) >>= λ (l, r2). some (link t l, r2)
]

unfoldable pub scan_array : (Bytes → Option (Token × Bytes)) → Bytes → Option (Token × Bytes)
scan_array token r = elements token (suc (length r)) (scan_next r) >>= λ (l, rest).
    some (node array none l null, moved rest)

-- A key's token with its value for a child.
abbrev pub with_value : Token → Token → Token → Token
with_value null value next = null
with_value (node type text child old) value next = node type text value next

-- The loop of `scan_object`: the chain of the keys, and the cursor at the '}'.
unfoldable pub members : (Bytes → Option (Token × Bytes)) → ℕ → ℕ → Bytes → Option (Token × Bytes)
members token past zero r = none
members token past (suc fuel) r = elim (peek r == b'}') [
  | true ↦ some (null, r)
  | false ↦ scan_string past r >>= λ (key, r1).
      (if peek (skip_whitespace r1) == b':' then token (moved (skip_whitespace r1)) else none)
      >>= λ (value, r2). members token past fuel (skip_comma (skip_whitespace r2)) >>= λ (l, r3).
          some (with_value key value l, r3)
]

unfoldable pub scan_object : (Bytes → Option (Token × Bytes)) → ℕ → Bytes → Option (Token × Bytes)
scan_object token past r = members token past (suc (length r)) (scan_next r) >>= λ (l, rest).
    some (node object none null l, moved rest)

-- The dispatch of `scan_token` on the byte at the cursor.
unfoldable pub scan_at : (Bytes → Option (Token × Bytes)) → ℕ → Bytes → Option (Token × Bytes)
scan_at token past r =
    if peek r == 0
    then none
    else if peek r == b'['
    then scan_array token r
    else if peek r == b'{'
    then scan_object token past r
    else if peek r == b'"'
    then scan_string past r
    else if peek r == b't'
    then scan_special true_value r
    else if peek r == b'f'
    then scan_special false_value r
    else if peek r == b'n'
    then scan_special null_value r
    else scan_number past r

-- Nested values are scanned with less fuel; each level moves the cursor, so the bytes left bound
-- the levels.
unfoldable pub scan_token : ℕ → ℕ → Bytes → Option (Token × Bytes)
scan_token zero past r = none
scan_token (suc fuel) past r = scan_at (scan_token fuel past) past (skip_whitespace r)

-- The root token, or NULL.
unfoldable pub parse_json : ℕ → Bytes → Token
parse_json past r = elim (scan_token (suc (length r)) past r) [ none ↦ null | some (t, rest) ↦ t ]
