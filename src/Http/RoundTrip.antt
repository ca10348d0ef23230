-- ===== src/Http/RoundTrip.antt =====
-- http.h: the first line of a request, and texts that `substr` cuts out.
use zfl.Base.{
  ℕ, suc, ◌+◌, ◌-◌, ◌^◌, ◌≤◌, ◌<◌, ◌≡◌, refl, false, some, [], ◌∷◌, ◌++◌, ◌==◌, Bytes, length, drop,
  arith, ap, sym, ◌∙◌, length-append, take-append, drop-append, leb_of_le, append_assoc,
}
use zfl.Http.{Http, sub_size, substr}
use zfl.Http.Find.{Clean, find_first_match-Clean}
use zfl.Http.Request.{parse_line_end, parse_url, parse_required_req}

-- A C string: the bytes, and a NUL behind them.
abbrev pub c_str : Bytes → Bytes
c_str s = s ++ (0 ∷ [])

pub sub_size-lt : (a b : ℕ) → b ≤ a → a < 2 ^ 64 → sub_size a b ≡ a - b
sub_size-lt a b h lt = omega arith

pub substr_prefix :
    (pre rest : Bytes) (n : ℕ) → n ≡ length pre → substr (pre ++ rest) 0 n ≡ some (c_str pre)
unfolding substr
substr_prefix pre rest n e = rw (
  leb_of_le (0 + n) (length (pre ++ rest)) (omega (arith, length-append pre rest)),
  take-append pre rest n e,
)

pub substr_suffix :
    (pre mid rest : Bytes) (i n : ℕ)
    → i ≡ length pre
    → n ≡ length mid
    → substr (pre ++ (mid ++ rest)) i n ≡ some (c_str mid)
unfolding substr
substr_suffix pre mid rest i n e k = rw (
  leb_of_le (i + n) (length (pre ++ (mid ++ rest)))
      (omega (arith, length-append pre (mid ++ rest), length-append mid rest)),
  drop-append pre (mid ++ rest) i e,
  take-append mid rest n k,
)

pub substr_behind :
    (key val rest : Bytes) (x y n : ℕ)
    → n ≡ length val
    → substr (key ++ (x ∷ y ∷ (val ++ rest))) (length key + 2) n ≡ some (c_str val)
substr_behind key val rest x y n e =
    ap (λ p. substr p (length key + 2) n) (sym (append_assoc key (x ∷ y ∷ []) (val ++ rest)))
    ∙ substr_suffix (key ++ (x ∷ y ∷ [])) val rest (length key + 2) n
        (omega (arith, length-append key (x ∷ y ∷ []))) e

-- Past a text and the one byte behind it.
pub drop_past :
    (pre rest : Bytes) (x n : ℕ) → n ≡ length pre + 1 → drop n (pre ++ (x ∷ rest)) ≡ rest
drop_past pre rest x n e =
    ap (drop n) (sym (append_assoc pre (x ∷ []) rest))
    ∙ drop-append (pre ++ (x ∷ [])) rest n (omega (arith, length-append pre (x ∷ [])))

pub drop_past_two :
    (pre rest : Bytes) (x y n : ℕ) → n ≡ length pre + 2 → drop n (pre ++ (x ∷ y ∷ rest)) ≡ rest
drop_past_two pre rest x y n e =
    ap (drop n) (sym (append_assoc pre (x ∷ y ∷ []) rest))
    ∙ drop-append (pre ++ (x ∷ y ∷ [])) rest n (omega (arith, length-append pre (x ∷ y ∷ [])))

parse_line_end-Clean :
    (h : Http) (mid rest : Bytes) (len processed : ℕ)
    → Clean b'\r' mid
    → length mid ≤ len
    → parse_line_end h (mid ++ (b'\r' ∷ b'\n' ∷ rest)) len processed
      ≡ some (h, some (processed + (length mid + 2)))
unfolding parse_line_end
parse_line_end-Clean h mid rest len processed clean le =
    rw (find_first_match-Clean mid rest (b'\n' ∷ []) b'\r' len clean (omega arith) le)

parse_url-Clean :
    (h : Http) (u : ℕ) (us mid rest : Bytes) (len processed : ℕ)
    → Clean b' ' (u ∷ us)
    → Clean b'\r' mid
    → length (u ∷ us) + 1 + length mid ≤ len
    → len < 2 ^ 64
    → parse_url h ((u ∷ us) ++ (b' ' ∷ (mid ++ (b'\r' ∷ b'\n' ∷ rest)))) len processed
      ≡ some (
        record h { url = some (c_str (u ∷ us)) },
        some (processed + (length (u ∷ us) + 1) + (length mid + 2)),
      )
unfolding parse_url
parse_url-Clean h u us mid rest len processed clean_url clean_mid le lt =
    rw
      (find_first_match-Clean (u ∷ us) (mid ++ (b'\r' ∷ b'\n' ∷ rest)) [] b' ' len clean_url
        (omega arith) (omega arith))
      (rw
        (
          substr_prefix (u ∷ us) (b' ' ∷ (mid ++ (b'\r' ∷ b'\n' ∷ rest))) (suc (length us)) refl,
          drop_past (u ∷ us) (mid ++ (b'\r' ∷ b'\n' ∷ rest)) b' ' (suc (length us) + 1) refl,
          sub_size-lt len (suc (length us) + 1) (omega arith) lt,
        )
        (parse_line_end-Clean (record h { url = some (c_str (u ∷ us)) }) mid rest
          (len - (suc (length us) + 1)) (processed + (suc (length us) + 1)) clean_mid
          (omega arith)))

-- A first line with a method and a URL that hold no space, carriage return or NUL is read back:
-- both strings, and the number of bytes up to the end of the line. What stands between the URL and
-- the line's end is skipped.
pub parse_required_req-line :
    (h : Http) (m : ℕ) (ms : Bytes) (u : ℕ) (us mid rest : Bytes) (len : ℕ)
    → Clean b' ' (m ∷ ms)
    → Clean b' ' (u ∷ us)
    → Clean b'\r' mid
    → length (m ∷ ms) + 1 + (length (u ∷ us) + 1) + (length mid + 2) ≤ len
    → len < 2 ^ 64
    → parse_required_req h
        ((m ∷ ms) ++ (b' ' ∷ ((u ∷ us) ++ (b' ' ∷ (mid ++ (b'\r' ∷ b'\n' ∷ rest))))))
        len
      ≡ some (
        record h { method = some (c_str (m ∷ ms)); url = some (c_str (u ∷ us)) },
        some (length (m ∷ ms) + 1 + (length (u ∷ us) + 1) + (length mid + 2)),
      )
unfolding parse_required_req
parse_required_req-line h m ms u us mid rest len cm cu cmid le lt =
    rw
      (find_first_match-Clean (m ∷ ms) ((u ∷ us) ++ (b' ' ∷ (mid ++ (b'\r' ∷ b'\n' ∷ rest)))) []
        b' ' len cm (omega arith) (omega arith))
      (rw
        (
          substr_prefix (m ∷ ms) (b' ' ∷ ((u ∷ us) ++ (b' ' ∷ (mid ++ (b'\r' ∷ b'\n' ∷ rest)))))
              (suc (length ms)) refl,
          drop_past (m ∷ ms) ((u ∷ us) ++ (b' ' ∷ (mid ++ (b'\r' ∷ b'\n' ∷ rest)))) b' '
              (suc (length ms) + 1) refl,
          sub_size-lt len (suc (length ms) + 1) (omega arith) lt,
        )
        (parse_url-Clean (record h { method = some (c_str (m ∷ ms)) }) u us mid rest
          (len - (suc (length ms) + 1)) (suc (length ms) + 1) cu cmid (omega arith) (omega arith)))

pub pos_test : (n : ℕ) → 0 < n → (n == 0) ≡ false
pos_test n h = ground arith
