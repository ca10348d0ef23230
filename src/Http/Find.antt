-- ===== src/Http/Find.antt =====
-- http.h: what `find_first_match` finds, against the occurrences in memory.
use zfl.Base.{
  ℕ, zero, suc, ◌+◌, ◌-◌, ◌≤◌, ◌<◌, ◌≡◌, ◌≢◌, refl, Bool, true, false, ◌||◌, Option, none, some, [],
  ◌∷◌, ◌++◌, >>=-eq-some, ◌==◌, if◌then◌else◌, Bytes, length, take, drop, arith, inl, inr,
  Bool-cases, All, ◌∙◌,
}
use zfl.Http.{is_char, last_match, find_from, find_first_match}

-- The text `c` stands at the start of `p`.
abbrev pub Starts : Bytes → Bytes → Type 0
Starts p [] = Unit
Starts [] (c ∷ cs) = ⊥
Starts (x ∷ p) (c ∷ cs) = (x ≡ c) × Starts p cs

pub is_char-true : (p c : Bytes) → is_char p c ≡ some true → Starts p c
unfolding is_char
is_char-true p [] h = tt
is_char-true [] (c ∷ cs) h = cc
is_char-true (x ∷ p) (c ∷ cs) h = ground (arith, is_char-true p cs)

is_char-false : (p c : Bytes) → is_char p c ≡ some false → ¬ Starts p c
unfolding is_char
is_char-false p [] h s = cc
is_char-false [] (c ∷ cs) h s = s
is_char-false (x ∷ p) (c ∷ cs) h s = ground (arith, is_char-false p cs)

pub Starts-is_char : (p c : Bytes) → Starts p c → is_char p c ≡ some true
unfolding is_char
Starts-is_char p [] s = refl
Starts-is_char [] (c ∷ cs) s = absurd s
Starts-is_char (x ∷ p) (c ∷ cs) s = ground (arith, Starts-is_char p cs)

-- No NUL among these bytes.
abbrev pub NoNul : Bytes → Type 0
NoNul = All (λ x. x ≢ 0)

-- What a result says: the first occurrence that starts within `size` bytes and behind no NUL, or
-- that there is none.
pub data Finds (p : Bytes) (size : ℕ) (c : Bytes) : Option ℕ → Type 0 where
  found :
      {i : ℕ}
      → i ≤ size
      → NoNul (take i p)
      → Starts (drop i p) c
      → ((j : ℕ) → j < i → ¬ Starts (drop j p) c)
      → Finds p size c (some i)
  missing : ((j : ℕ) → j ≤ size → NoNul (take j p) → ¬ Starts (drop j p) c) → Finds p size c none

-- A result of the loop counts from the bytes that it has passed.
abbrev shift : ℕ → Option ℕ → Option ℕ
shift i none = none
shift i (some j) = some (i + j)

-- Where the loop stops for want of bytes or at a NUL, only this place is left to match.
last-Finds :
    (p c : Bytes) (left i : ℕ) {r : Option ℕ}
    → ((j : ℕ) → j ≤ left → NoNul (take j p) → j ≡ 0)
    → last_match c i p ≡ some r
    → (s : Option ℕ) × Finds p left c s × (r ≡ shift i s)
last-Finds p c left i {r} only h =
    let (m, here, e) = >>=-eq-some (is_char p c) (λ m. some (if m then some i else none)) h in
    decided m here e
  where
    decided :
        (m : Bool)
        → is_char p c ≡ some m
        → some (if m then some i else none) ≡ some r
        → (s : Option ℕ) × Finds p left c s × (r ≡ shift i s)
    decided true here e = (
      some 0,
      found (omega arith) tt (is_char-true p c here) (λ j lt. absurd (omega arith)),
      ground arith,
    )
    decided false here e =
        (none, missing (λ j le clean. rw (only j le clean) (is_char-false p c here)), ground arith)

-- One byte that is no NUL and starts no match is passed.
skip-Finds :
    (x : ℕ) (p c : Bytes) (left i : ℕ) {r s : Option ℕ}
    → left ≢ 0
    → x ≢ 0
    → ¬ Starts (x ∷ p) c
    → Finds p (left - 1) c s
    → r ≡ shift (i + 1) s
    → (t : Option ℕ) × Finds (x ∷ p) left c t × (r ≡ shift i t)
skip-Finds x p c left i pos nz differs (found {i = k} le clean here first) e =
    (some (suc k), found (omega arith) (nz, clean) here before, ground arith)
  where
    before : (j : ℕ) → j < suc k → ¬ Starts (drop j (x ∷ p)) c
    before zero lt = differs
    before (suc j) lt = first j (omega arith)
skip-Finds x p c left i pos nz differs (missing none_at) e = (none, missing anywhere, ground arith)
  where
    anywhere : (j : ℕ) → j ≤ left → NoNul (take j (x ∷ p)) → ¬ Starts (drop j (x ∷ p)) c
    anywhere zero le clean = differs
    anywhere (suc j) le clean = none_at j (omega arith) clean.1

-- Only the first place is within no bytes, or before a NUL.
at_nul :
    (x : ℕ) (p : Bytes) (left j : ℕ)
    → (left == 0 || x == 0) ≡ true
    → j ≤ left
    → NoNul (take j (x ∷ p))
    → j ≡ 0
at_nul x p left zero e le clean = refl
at_nul x p left (suc j) e le clean = absurd (clean.0 (ground arith))

-- One round of the loop, from what the rounds behind it find.
round-Finds :
    (x : ℕ) (p c : Bytes) (left i : ℕ) {r : Option ℕ} (m : Bool)
    → (left == 0 || x == 0) ≡ false
    → is_char (x ∷ p) c ≡ some m
    → (if m then last_match c i (x ∷ p) else find_from c (i + 1) (left - 1) p) ≡ some r
    → (find_from c (i + 1) (left - 1) p ≡ some r
        → (s : Option ℕ) × Finds p (left - 1) c s × (r ≡ shift (i + 1) s))
    → (s : Option ℕ) × Finds (x ∷ p) left c s × (r ≡ shift i s)
round-Finds x p c left i true more here e later = (
  some 0,
  found (omega arith) tt (is_char-true (x ∷ p) c here) (λ j lt. absurd (omega arith)),
  ground arith,
)
round-Finds x p c left i false more here e later =
    let (s, f, e') = later e in
    skip-Finds x p c left i (ground arith) (ground arith) (is_char-false (x ∷ p) c here) f e'

find_from-Finds :
    (p c : Bytes) (left i : ℕ) {r : Option ℕ}
    → find_from c i left p ≡ some r
    → (s : Option ℕ) × Finds p left c s × (r ≡ shift i s)
unfolding find_from
find_from-Finds [] c left i h = elim (Bool-cases (left == 0)) [
  | inl z ↦ last-Finds [] c left i (λ j le clean. ground arith) (rw z at h)
  | inr more ↦ absurd (ground arith)
]
find_from-Finds (x ∷ p) c left i {r} h = elim (Bool-cases (left == 0 || x == 0)) [
  | inl z ↦ last-Finds (x ∷ p) c left i (λ j le clean. at_nul x p left j z le clean) (rw z at h)
  | inr more ↦
      let (m, here, e) =
        >>=-eq-some (is_char (x ∷ p) c)
          (λ m. if m then last_match c i (x ∷ p) else find_from c (i + 1) (left - 1) p)
          (rw more at h) in
      round-Finds x p c left i m more here e (find_from-Finds p c (left - 1) (i + 1))
]

-- What `find_first_match` returns is the first place within `size` bytes, with no NUL in front,
-- where the text stands; it returns -1 only if there is none. The place may be `size` itself, so
-- that the match lies behind the bytes that the caller allows.
pub find_first_match-Finds :
    (p : Bytes) (size : ℕ) (c : Bytes) {r : Option ℕ}
    → find_first_match p size c ≡ some r
    → Finds p size c r
unfolding find_first_match
find_first_match-Finds p size c h =
    let (s, f, e) = find_from-Finds p c size 0 h in rw (e ∙ shift_zero s) f
  where
    shift_zero : (s : Option ℕ) → shift 0 s ≡ s
    shift_zero none = refl
    shift_zero (some j) = ground arith

-- Neither a NUL nor the byte `f`.
abbrev pub Clean : ℕ → Bytes → Type 0
Clean f = All (λ x. (x ≢ 0) × (x ≢ f))

is_char-append : (cs rest : Bytes) → is_char (cs ++ rest) cs ≡ some true
unfolding is_char
is_char-append [] rest = refl
is_char-append (c ∷ cs) rest = ground (arith, is_char-append cs rest)

find_from-Clean :
    (pre rest cs : Bytes) (f left i : ℕ)
    → Clean f pre
    → f ≢ 0
    → length pre ≤ left
    → find_from (f ∷ cs) i left (pre ++ ((f ∷ cs) ++ rest)) ≡ some (some (i + length pre))
unfolding find_from is_char
find_from-Clean [] rest cs f left i clean nz le = ground (arith, is_char-append cs rest)
find_from-Clean (x ∷ pre) rest cs f left i clean nz le =
    ground (arith, find_from-Clean pre rest cs f (left - 1) (i + 1) clean.1 nz)

-- Text with no NUL and without the first byte of `f ∷ cs` is passed up to where that stands.
pub find_first_match-Clean :
    (pre rest cs : Bytes) (f size : ℕ)
    → Clean f pre
    → f ≢ 0
    → length pre ≤ size
    → find_first_match (pre ++ ((f ∷ cs) ++ rest)) size (f ∷ cs) ≡ some (some (length pre))
unfolding find_first_match
find_first_match-Clean pre rest cs f size clean nz le =
    ground (arith, find_from-Clean pre rest cs f size 0 clean nz le)

find_from-nul :
    (pre rest cs : Bytes) (f left i : ℕ)
    → Clean f pre
    → f ≢ 0
    → find_from (f ∷ cs) i left (pre ++ (0 ∷ rest)) ≡ some none
unfolding find_from is_char
find_from-nul [] rest cs f left i clean nz = ground arith
find_from-nul (x ∷ pre) rest cs f left i clean nz =
    ground (arith, find_from-nul pre rest cs f (left - 1) (i + 1) clean.1 nz)

-- The search ends at a NUL, without a match if the first byte of `f ∷ cs` does not come before.
pub find_first_match-nul :
    (pre rest cs : Bytes) (f size : ℕ)
    → Clean f pre
    → f ≢ 0
    → find_first_match (pre ++ (0 ∷ rest)) size (f ∷ cs) ≡ some none
unfolding find_first_match
find_first_match-nul pre rest cs f size clean nz = find_from-nul pre rest cs f size 0 clean nz
