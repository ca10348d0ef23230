-- ===== src/Common/Brackets.antt =====
-- common.h: pieces of a text in brackets, as `weights_to_string` appends them.
use mathlib.Core.List.{flatten}
use zfl.Base.{
  ℕ, ◌≤◌, ◌≡◌, refl, sym, ap, ◌∙◌, List, [], ◌∷◌, ◌++◌, Bytes, codes, length, All, All-append,
  append_assoc, arith,
}

flatten-append : (k l : List Bytes) → flatten (k ++ l) ≡ flatten k ++ flatten l
unfolding flatten
flatten-append [] l = refl
flatten-append (a ∷ k) l =
    ap (λ t. a ++ t) (flatten-append k l) ∙ sym (append_assoc a (flatten k) (flatten l))

-- Pieces in brackets, with `close` behind them and more pieces.
pub bracketed :
    (row : List Bytes) (close : Bytes) (more : List Bytes) (rest : Bytes)
    → flatten (codes "[" ∷ (row ++ (close ∷ more))) ++ rest
      ≡ b'[' ∷ (flatten row ++ (close ++ (flatten more ++ rest)))
unfolding flatten
bracketed row close more rest =
    ap (λ t. b'[' ∷ (t ++ rest)) (flatten-append row (close ∷ more))
    ∙ ap (λ t. b'[' ∷ t)
        (append_assoc (flatten row) (close ++ flatten more) rest
          ∙ ap (λ t. flatten row ++ t) (append_assoc close (flatten more) rest))

pub bracketed-Short :
    (longest : ℕ) (row : List Bytes) (close : Bytes) (more : List Bytes)
    → 1 ≤ longest
    → length close ≤ longest
    → All (λ c. length c ≤ longest) row
    → All (λ c. length c ≤ longest) more
    → All (λ c. length c ≤ longest) (codes "[" ∷ (row ++ (close ∷ more)))
bracketed-Short longest row close more one h a b =
    (one, All-append (λ c. length c ≤ longest) row (close ∷ more) a (h, b))

pub two_bracketed-Short :
    (longest : ℕ) (p q : List Bytes) (close : Bytes) (more : List Bytes)
    → 2 ≤ longest
    → length close ≤ longest
    → All (λ c. length c ≤ longest) p
    → All (λ c. length c ≤ longest) q
    → All (λ c. length c ≤ longest) more
    → All
        (λ c. length c ≤ longest)
        (codes "[" ∷ (p ++ (codes "]," ∷ codes "[" ∷ (q ++ (close ∷ more)))))
two_bracketed-Short longest p q close more two h a b c =
    bracketed-Short longest p (codes "],") (codes "[" ∷ (q ++ (close ∷ more))) (omega arith) two a
      (bracketed-Short longest q close more (omega arith) h b c)

pub two_bracketed :
    (p q : List Bytes) (close : Bytes) (more : List Bytes) (rest : Bytes)
    → flatten (codes "[" ∷ (p ++ (codes "]," ∷ codes "[" ∷ (q ++ (close ∷ more))))) ++ rest
      ≡ b'['
        ∷ (flatten p ++ (b']' ∷ b',' ∷ b'[' ∷ (flatten q ++ (close ++ (flatten more ++ rest)))))
two_bracketed p q close more rest =
    bracketed p (codes "],") (codes "[" ∷ (q ++ (close ∷ more))) rest
    ∙ ap (λ t. b'[' ∷ (flatten p ++ (b']' ∷ b',' ∷ t))) (bracketed q close more rest)
