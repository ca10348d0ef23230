-- ===== src/Http/Headers.antt =====
-- http.h: header lines that are written out are read back.
use zfl.Base.{
  ℕ, zero, suc, ◌+◌, ◌-◌, ◌^◌, ◌≤◌, ◌<◌, ◌≡◌, refl, some, List, [], ◌∷◌, ◌++◌, Bytes, length, arith,
  ap, ap₂, ◌∙◌, length-append, append_assoc, append-nil,
}
use zfl.Http.{Http, find_first_match, substr}
use zfl.Http.Find.{Clean, find_first_match-Clean}
use zfl.Http.Request.{parse_header, optional_loop, parse_optional}
use zfl.Http.RoundTrip.{sub_size-lt, substr_prefix, substr_behind, drop_past_two, c_str, pos_test}

-- A header line, as key and value.
abbrev pub header_line : Bytes → Bytes → Bytes
header_line key val = key ++ (b':' ∷ b' ' ∷ val)

-- Headers as they are sent, with the blank line.
abbrev pub header_text : List (Bytes × Bytes) → Bytes
header_text [] = b'\r' ∷ b'\n' ∷ []
header_text ((key, val) ∷ hs) = header_line key val ++ (b'\r' ∷ b'\n' ∷ header_text hs)

abbrev pub CleanHeaders : List (Bytes × Bytes) → Type 0
CleanHeaders [] = Unit
CleanHeaders ((key, val) ∷ hs) =
    Clean b':' key × Clean b'\r' (header_line key val) × CleanHeaders hs

abbrev pub stored : List (Bytes × Bytes) → List (Bytes × Bytes)
stored [] = []
stored ((key, val) ∷ hs) = (c_str key, c_str val) ∷ stored hs

length-header_line : (key val : Bytes) → length (header_line key val) ≡ length key + 2 + length val
length-header_line key val = omega (arith, length-append key (b':' ∷ b' ' ∷ val))

-- The two parts of a header line that has been copied.
line_key :
    (key val : Bytes) → substr (c_str (header_line key val)) 0 (length key) ≡ some (c_str key)
line_key key val =
    ap (λ p. substr p 0 (length key)) (append_assoc key (b':' ∷ b' ' ∷ val) (0 ∷ []))
    ∙ substr_prefix key (b':' ∷ b' ' ∷ c_str val) (length key) refl

line_val :
    (key val : Bytes) (n : ℕ)
    → n ≡ length val
    → substr (c_str (header_line key val)) (length key + 2) n ≡ some (c_str val)
line_val key val n e =
    ap (λ p. substr p (length key + 2) n) (append_assoc key (b':' ∷ b' ' ∷ val) (0 ∷ []))
    ∙ substr_behind key val (0 ∷ []) b':' b' ' n e

line_split :
    (key val : Bytes) (n : ℕ)
    → Clean b':' key
    → n ≡ length (header_line key val)
    → find_first_match (c_str (header_line key val)) n (b':' ∷ b' ' ∷ []) ≡ some (some (length key))
line_split key val n clean e =
    ap (λ p. find_first_match p n (b':' ∷ b' ' ∷ []))
      (append_assoc key (b':' ∷ b' ' ∷ val) (0 ∷ []))
    ∙ find_first_match-Clean key (c_str val) (b' ' ∷ []) b':' n clean (omega arith)
        (omega (arith, length-header_line key val))

parse_header-Clean :
    (h : Http) (key val rest : Bytes) (n : ℕ)
    → Clean b':' key
    → n ≡ length (header_line key val)
    → n < 2 ^ 64
    → parse_header h (header_line key val ++ rest) n
      ≡ some (some (record h { headers = h.headers ++ ((c_str key, c_str val) ∷ []) }))
unfolding parse_header
parse_header-Clean h key val rest n clean e lt = rw (
  substr_prefix (header_line key val) rest n e,
  line_split key val n clean e,
  line_key key val,
  sub_size-lt n (length key + 2) (omega (arith, length-header_line key val)) lt,
  line_val key val (n - (length key + 2)) (omega (arith, length-header_line key val)),
)

-- One round of the header loop reads one header line.
optional_loop_line :
    (fuel : ℕ) (h : Http) (key val rest : Bytes) (len processed k : ℕ)
    → Clean b':' key
    → Clean b'\r' (header_line key val)
    → suc k ≡ length (header_line key val)
    → suc k + 2 ≤ len
    → len < 2 ^ 64
    → optional_loop (suc fuel) h (header_line key val ++ (b'\r' ∷ b'\n' ∷ rest)) len processed
      ≡ optional_loop fuel
          (record h { headers = h.headers ++ ((c_str key, c_str val) ∷ []) })
          rest
          (len - (suc k + 2))
          (processed + (suc k + 2))
unfolding optional_loop
optional_loop_line fuel h key val rest len processed k clean_key clean e le lt = rw (
  pos_test len (omega arith),
  find_first_match-Clean (header_line key val) rest (b'\n' ∷ []) b'\r' len clean (omega arith)
      (omega arith),
  ← e,
  parse_header-Clean h key val (b'\r' ∷ b'\n' ∷ rest) (suc k) clean_key e (omega arith),
  drop_past_two (header_line key val) rest b'\r' b'\n' (suc k + 2) (omega arith),
  sub_size-lt len (suc k + 2) le lt,
  optional_loop,
)

optional_loop-headers :
    (fuel : ℕ) (h : Http) (hs : List (Bytes × Bytes)) (rest : Bytes) (len processed : ℕ)
    → CleanHeaders hs
    → length (header_text hs) ≤ len
    → len < 2 ^ 64
    → length hs < fuel
    → optional_loop fuel h (header_text hs ++ rest) len processed
      ≡ some (
        record h { headers = h.headers ++ stored hs },
        some (processed + length (header_text hs)),
      )
optional_loop-headers zero h hs rest len processed clean le lt more = absurd (omega arith)
optional_loop-headers (suc fuel) h [] rest len processed clean le lt more =
    unfold optional_loop in
    rw (
      pos_test len (omega arith),
      find_first_match-Clean [] rest (b'\n' ∷ []) b'\r' len tt (omega arith) (omega arith),
      append-nil,
      optional_loop,
    )
optional_loop-headers (suc fuel) h ((key, val) ∷ hs) rest len processed (ck, cl, ch) le lt more =
    let text = header_text hs in
    let line = header_line key val in
    let k = length key + 1 + length val in
    let h' = record h { headers = h.headers ++ ((c_str key, c_str val) ∷ []) } in
    let e : suc k ≡ length line = omega (arith, length-header_line key val) in
    let total : length (line ++ (b'\r' ∷ b'\n' ∷ text)) ≡ suc k + 2 + length text =
      omega (arith, length-append line (b'\r' ∷ b'\n' ∷ text)) in
    ap (λ p. optional_loop (suc fuel) h p len processed)
      (append_assoc line (b'\r' ∷ b'\n' ∷ text) rest)
    ∙ optional_loop_line fuel h key val (text ++ rest) len processed k ck cl e (omega arith) lt
    ∙ optional_loop-headers fuel h' hs rest (len - (suc k + 2)) (processed + (suc k + 2)) ch
        (omega arith) (omega arith) (omega arith)
    ∙ ap₂ (λ l n. some (record h { headers = l }, some n))
        (append_assoc h.headers ((c_str key, c_str val) ∷ []) (stored hs)) (omega arith)

-- Header lines whose keys hold no colon, and with no carriage return or NUL, followed by the blank
-- line, are read back in order behind the headers there were, with the number of their bytes,
-- whatever follows.
pub parse_optional-headers :
    (h : Http) (hs : List (Bytes × Bytes)) (rest : Bytes) (len : ℕ)
    → CleanHeaders hs
    → length (header_text hs) ≤ len
    → len < 2 ^ 64
    → parse_optional h (header_text hs ++ rest) len
      ≡ some (record h { headers = h.headers ++ stored hs }, some (length (header_text hs)))
unfolding parse_optional
parse_optional-headers h hs rest len clean le lt =
    optional_loop-headers (suc (length (header_text hs ++ rest))) h hs rest len 0 clean le lt
      (omega (arith, length-append (header_text hs) rest, rounds hs))
    ∙ ap (λ n. some (record h { headers = h.headers ++ stored hs }, some n)) (omega arith)
  where
    rounds : (hs : List (Bytes × Bytes)) → length hs ≤ length (header_text hs)
    rounds [] = omega arith
    rounds ((key, val) ∷ hs) =
        omega
          (arith, length-append (header_line key val) (b'\r' ∷ b'\n' ∷ header_text hs), rounds hs)
