-- ===== src/Http/QueryLaws.antt =====
-- http.h: what `parse_query_param` reads of a query string.
use zfl.Base.{
  ℕ, suc, ◌+◌, ◌-◌, ◌^◌, ◌≤◌, ◌<◌, ◌≡◌, refl, Bool, true, false, Option, none, some, [], ◌∷◌, ◌++◌,
  ◌==◌, Bytes, length, drop, arith, ap, sym, subst, ◌∙◌, drop-append, All-append, All-map,
  length-append, append_assoc, append-nil,
}
use zfl.Http.{Http, find_first_match, substr}
use zfl.Http.Find.{Clean, NoNul, find_first_match-Clean, find_first_match-nul}
use zfl.Http.Query.{strlen, parse_param, param_length, query_param, query_loop, parse_query}
use zfl.Http.RoundTrip.{c_str, sub_size-lt, substr_prefix, substr_suffix, drop_past, pos_test}

strlen-c_str : (s : Bytes) → NoNul s → strlen (c_str s) ≡ some (length s)
unfolding strlen
strlen-c_str [] nn = refl
strlen-c_str (x ∷ s) nn = ground (arith, strlen-c_str s nn.1)

abbrev pub param_text : Bytes → Bytes → Bytes
param_text key val = key ++ (b'=' ∷ val)

length-param_text : (key val : Bytes) → length (param_text key val) ≡ length key + 1 + length val
length-param_text key val = omega (arith, length-append key (b'=' ∷ val))

-- The parts of a parameter that has been copied. The value comes with a second NUL.
param_key :
    (key val : Bytes) → substr (c_str (param_text key val)) 0 (length key) ≡ some (c_str key)
param_key key val =
    ap (λ p. substr p 0 (length key)) (append_assoc key (b'=' ∷ val) (0 ∷ []))
    ∙ substr_prefix key (b'=' ∷ c_str val) (length key) refl

param_val :
    (key val : Bytes) (n : ℕ)
    → n ≡ length val + 1
    → substr (c_str (param_text key val)) (length key + 1) n ≡ some (c_str (c_str val))
param_val key val n e =
    ap (λ p. substr p (length key + 1) n)
      (append_assoc key (b'=' ∷ val) (0 ∷ [])
        ∙ sym (append_assoc key (b'=' ∷ []) (c_str val))
        ∙ ap (λ l. (key ++ (b'=' ∷ [])) ++ l) (sym (append-nil (c_str val))))
    ∙ substr_suffix (key ++ (b'=' ∷ [])) (c_str val) [] (length key + 1) n
        (omega (arith, length-append key (b'=' ∷ []))) (omega (arith, length-append val (0 ∷ [])))

param_split :
    (key val : Bytes) (len : ℕ)
    → Clean b'=' key
    → length key ≤ len
    → find_first_match (c_str (param_text key val)) len (b'=' ∷ []) ≡ some (some (length key))
param_split key val len clean le =
    ap (λ p. find_first_match p len (b'=' ∷ [])) (append_assoc key (b'=' ∷ val) (0 ∷ []))
    ∙ find_first_match-Clean key (c_str val) [] b'=' len clean (omega arith) le

lt_test : (m n : ℕ) → m < n → (m == n) ≡ false
lt_test m n h = ground arith

parse_param-Clean :
    (h : Http) (key val rest : Bytes) (len n : ℕ)
    → Clean b'=' key
    → n ≡ length (param_text key val)
    → n ≤ len
    → len < 2 ^ 64
    → parse_param h (param_text key val ++ rest) len n
      ≡ some (some (record h { queries = h.queries ++ ((c_str key, c_str (c_str val)) ∷ []) }))
unfolding parse_param
parse_param-Clean h key val rest len n clean e le lt = rw (
  substr_prefix (param_text key val) rest n e,
  param_split key val len clean (omega (arith, length-param_text key val)),
  lt_test (length key) n (omega (arith, length-param_text key val)),
  param_key key val,
  sub_size-lt n (length key) (omega (arith, length-param_text key val)) (omega arith),
  param_val key val (n - length key) (omega (arith, length-param_text key val)),
)

-- What may follow the first parameter: nothing, or an '&' and anything without a NUL.
abbrev pub IsTail : Bytes → Type 0
IsTail [] = Unit
IsTail (x ∷ s) = (x ≡ b'&') × NoNul s

IsTail-NoNul : (t : Bytes) → IsTail t → NoNul t
IsTail-NoNul [] h = tt
IsTail-NoNul (x ∷ t) h = (omega arith, h.1)

-- The length that the first round takes: up to the '&', or all that is left.
first_param :
    (text tail : Bytes) (len : ℕ)
    → Clean b'&' text
    → IsTail tail
    → len ≡ length text + length tail
    → (next : Option ℕ) × (find_first_match (text ++ c_str tail) len (b'&' ∷ []) ≡ some next)
      × (param_length next len ≡ length text)
first_param text [] len clean t e =
    (none, find_first_match-nul text [] [] b'&' len clean (omega arith), omega arith)
first_param text (x ∷ tail) len clean t e = (
  some (length text),
  rw t.0 (find_first_match-Clean text (c_str tail) [] b'&' len clean (omega arith) (omega arith)),
  refl,
)

-- One round, where the search for '&' is known.
query_loop_round :
    (fuel : ℕ) (h : Http) (found : Bool) (len : ℕ) (ptr : Bytes) (next : Option ℕ)
    → 0 < len
    → find_first_match ptr len (b'&' ∷ []) ≡ some next
    → query_loop (suc fuel) h ptr len found
      ≡ query_param (query_loop fuel) h ptr len found (param_length next len)
unfolding query_loop
query_loop_round fuel h found len ptr next pos look = rw (pos_test len pos, look, query_loop)

query_loop_at_amp :
    (fuel : ℕ) (h : Http) (rest : Bytes) (len : ℕ)
    → 0 < len
    → query_loop (suc fuel) h (b'&' ∷ rest) len true ≡ some (h, some true)
unfolding query_param
query_loop_at_amp fuel h rest len pos =
    query_loop_round fuel h true len (b'&' ∷ rest) (some 0) pos
      (find_first_match-Clean [] rest [] b'&' len tt (omega arith) (omega arith))

-- Behind the first parameter the loop ends: at no bytes left, or at the '&', which it never skips.
query_loop_stops :
    (fuel : ℕ) (h : Http) (tail : Bytes)
    → IsTail tail
    → query_loop (suc fuel) h (c_str tail) (length tail) true ≡ some (h, some true)
query_loop_stops fuel h [] t = unfold query_loop in refl
query_loop_stops fuel h (x ∷ tail) t =
    subst
      (λ y. query_loop (suc fuel) h (y ∷ c_str tail) (suc (length tail)) true ≡ some (h, some true))
      (sym t.0) (query_loop_at_amp fuel h (c_str tail) (suc (length tail)) (omega arith))

query_loop_first :
    (fuel : ℕ) (h : Http) (key val tail : Bytes) (len k : ℕ)
    → Clean b'=' key
    → Clean b'&' (param_text key val)
    → IsTail tail
    → suc k ≡ length (param_text key val)
    → len ≡ suc k + length tail
    → len < 2 ^ 64
    → query_loop (suc (suc fuel)) h (param_text key val ++ c_str tail) len false
      ≡ some (record h { queries = h.queries ++ ((c_str key, c_str (c_str val)) ∷ []) }, some true)
unfolding query_param
query_loop_first fuel h key val tail len k ck clean t e el lt =
    let (next, look, taken) = first_param (param_text key val) tail len clean t (omega arith) in
    let h' = record h { queries = h.queries ++ ((c_str key, c_str (c_str val)) ∷ []) } in
    query_loop_round (suc fuel) h _ len (param_text key val ++ c_str tail) next (omega arith) look
    ∙ rw
        (
          taken ∙ sym e,
          parse_param-Clean h key val (c_str tail) len (suc k) ck e (omega arith) lt,
          drop-append (param_text key val) (c_str tail) (suc k) e,
          sub_size-lt len (suc k) (omega arith) lt,
        )
        (ap (λ n. query_loop (suc fuel) h' (c_str tail) n true) (omega arith)
          ∙ query_loop_stops fuel h' tail t)

-- The URL, with a query string, as the client sends it.
abbrev pub query_url : Bytes → Bytes → Bytes → Bytes → Bytes
query_url path key val tail = path ++ (b'?' ∷ (param_text key val ++ tail))

query_url_block :
    (path key val tail : Bytes)
    → c_str (query_url path key val tail) ≡ path ++ (b'?' ∷ (param_text key val ++ c_str tail))
query_url_block path key val tail =
    append_assoc path (b'?' ∷ (param_text key val ++ tail)) (0 ∷ [])
    ∙ ap (λ l. path ++ (b'?' ∷ l)) (append_assoc (param_text key val) tail (0 ∷ []))

Clean-NoNul : (f : ℕ) (s : Bytes) → Clean f s → NoNul s
Clean-NoNul f s = All-map _ _ s (λ x h. h.0)

query_url-NoNul :
    (path key val tail : Bytes)
    → Clean b'?' path
    → Clean b'&' (param_text key val)
    → IsTail tail
    → NoNul (query_url path key val tail)
query_url-NoNul path key val tail cp clean t =
    All-append _ path (b'?' ∷ (param_text key val ++ tail)) (Clean-NoNul b'?' path cp) (
      omega arith,
      All-append _ (param_text key val) tail (Clean-NoNul b'&' (param_text key val) clean)
          (IsTail-NoNul tail t),
    )

rounds : (path rest : Bytes) → length (path ++ (b'?' ∷ rest)) ≡ suc (length path + length rest)
rounds path rest = omega (arith, length-append path (b'?' ∷ rest))

-- Of a query string that begins with one well-formed parameter, that parameter is added to the
-- request, and nothing else: what follows its '&' is never looked at, whatever it is. The value
-- comes with a NUL of its own.
pub parse_query-first :
    (h : Http) (path key val tail : Bytes)
    → Clean b'?' path
    → Clean b'=' key
    → Clean b'&' (param_text key val)
    → IsTail tail
    → length (query_url path key val tail) < 2 ^ 64
    → parse_query h (c_str (query_url path key val tail))
      ≡ some (record h { queries = h.queries ++ ((c_str key, c_str (c_str val)) ∷ []) }, some true)
unfolding parse_query
parse_query-first h path key val tail cp ck clean t lt =
    let text = param_text key val in
    let url = query_url path key val tail in
    let block = query_url_block path key val tail in
    let whole : length url ≡ length path + 1 + (length text + length tail) =
      omega (arith, length-append path (b'?' ∷ (text ++ tail)), length-append text tail) in
    rw
      (
        strlen-c_str url (query_url-NoNul path key val tail cp clean t),
        ap (λ p. find_first_match p (length url) (b'?' ∷ [])) block
            ∙ find_first_match-Clean path (text ++ c_str tail) [] b'?' (length url) cp (omega arith)
                (omega arith),
        ap (drop (length path + 1)) block
            ∙ drop_past path (text ++ c_str tail) b'?' (length path + 1) refl,
        sub_size-lt (length url) (length path + 1) (omega arith) lt,
        ap length block ∙ rounds path (text ++ c_str tail),
      )
      (query_loop_first (length path + length (text ++ c_str tail)) h key val tail
        (length url - (length path + 1)) (length key + length val) ck clean t
        (omega (arith, length-param_text key val)) (omega (arith, length-param_text key val))
        (omega arith))
