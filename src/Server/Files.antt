-- ===== src/Server/Files.antt =====
-- zflserver/src/main.c: `send_file`, `send_training_images` and `send_training_labels`. What fread
-- delivers is a list of chunks, none of them empty, and what send returns is a list for all chunks.
use mathlib.Core.List.{flatten}
use zfl.Base.{
  ℕ, ◌-◌, ◌%◌, ◌^◌, ◌<◌, inl, inr, ◌⊎◌, arith, ◌≡◌, refl, sym, ap, ◌∙◌, Bool, true, false, Option,
  none, some, List, [], ◌∷◌, ◌++◌, ◌>>=◌, >>=-eq-some, Bytes, codes, length, take, drop, append-nil,
  append_assoc, take-drop,
}
use mathlib.Core.Option.{some-injective}

-- The inner loop: what went out of a chunk, whether all of it, and the calls that are left. `none` is a
-- call that waits for ever.
unfoldable pub send_chunk : List (Option ℕ) → Bytes → Option (Bytes × Bool × List (Option ℕ))
send_chunk outcomes [] = some ([], true, outcomes)
send_chunk [] (b ∷ text) = none
send_chunk (none ∷ outcomes) (b ∷ text) = some ([], false, outcomes)
send_chunk (some n ∷ outcomes) (b ∷ text) = do
  (sent, ok, left) ← send_chunk outcomes (drop n (b ∷ text))
  some (take n (b ∷ text) ++ sent, ok, left)

-- The outer loop: what went out, and whether no call failed.
unfoldable pub send_chunks : List (Option ℕ) → List Bytes → Option (Bytes × Bool)
send_chunks outcomes [] = some ([], true)
send_chunks outcomes (chunk ∷ chunks) = send_chunk outcomes chunk >>= λ (sent, ok, left). elim ok [
  | true ↦ send_chunks left chunks >>= λ rest. some (sent ++ rest.0, rest.1)
  | false ↦ some (sent, false)
]

-- -1 as the word of an int.
abbrev pub minus_one : ℕ
minus_one = 2 ^ 32 - 1

-- What went out, and the result as the word of an int, which total_sent becomes. A file that cannot be
-- opened is `none`.
unfoldable pub send_file : List (Option ℕ) → Option (List Bytes) → Option (Bytes × ℕ)
send_file outcomes none = some ([], minus_one)
send_file outcomes (some chunks) = send_chunks outcomes chunks >>= λ r.
    some (r.0, elim r.1 [ true ↦ length r.0 % 2 ^ 32 | false ↦ minus_one ])

-- snprintf writes 99 bytes at most. `files` are the files by their paths, and "%d" is a parameter.
module _ (int_text : ℕ → Bytes) (files : Bytes → Option (List Bytes)) where
  unfoldable pub send_training_labels : List (Option ℕ) → ℕ → Option (Bytes × ℕ)
  send_training_labels outcomes id =
      send_file outcomes (files (take 99 (codes "../data/train-labels-" ++ int_text id)))

  unfoldable pub send_training_images : List (Option ℕ) → ℕ → Option (Bytes × ℕ)
  send_training_images outcomes id =
      send_file outcomes (files (take 99 (codes "../data/train-images-" ++ int_text id)))

-- A beginning, and all of it where nothing failed.
abbrev Begins : Bytes → Bytes → Bool → Type 0
Begins whole sent ok = (rest : Bytes) × (whole ≡ sent ++ rest) × (ok ≡ true → rest ≡ [])

false-ne-true : ¬ (false ≡ true)
false-ne-true e = cc

send_chunk-Begins :
    (outcomes : List (Option ℕ)) (text sent : Bytes) (ok : Bool) (left : List (Option ℕ))
    → send_chunk outcomes text ≡ some (sent, ok, left)
    → Begins text sent ok
unfolding send_chunk
send_chunk-Begins outcomes [] sent ok left e =
    let p = some-injective _ _ e in ([], ap (λ r. r.0) p ∙ sym (append-nil sent), λ all. refl)
send_chunk-Begins [] (b ∷ text) sent ok left e = cc
send_chunk-Begins (none ∷ outcomes) (b ∷ text) sent ok left e =
    let p = some-injective _ _ e in
    (b ∷ text, ap (λ r. r.0 ++ (b ∷ text)) p, λ all. absurd (false-ne-true (ap (λ r. r.1) p ∙ all)))
send_chunk-Begins (some n ∷ outcomes) (b ∷ text) sent ok left e =
    let ((out, ok', left'), step, last) =
      >>=-eq-some (send_chunk outcomes (drop n (b ∷ text)))
        (λ (s, k, l). some (take n (b ∷ text) ++ s, k, l)) e in
    let p = some-injective _ _ last in
    let (rest, split, done) = send_chunk-Begins outcomes (drop n (b ∷ text)) out ok' left' step in
    (
      rest,
      sym (take-drop n (b ∷ text))
          ∙ ap (λ l. take n (b ∷ text) ++ l) split
          ∙ sym (append_assoc (take n (b ∷ text)) out rest)
          ∙ ap (λ r. r.0 ++ rest) p,
      λ all. done (ap (λ r. r.1) p ∙ all),
    )

send_chunks-Begins :
    (outcomes : List (Option ℕ)) (chunks : List Bytes) (sent : Bytes) (ok : Bool)
    → send_chunks outcomes chunks ≡ some (sent, ok)
    → Begins (flatten chunks) sent ok
unfolding send_chunks flatten
send_chunks-Begins outcomes [] sent ok e =
    ([], ap (λ r. r.0) (some-injective _ _ e) ∙ sym (append-nil sent), λ all. refl)
send_chunks-Begins outcomes (chunk ∷ chunks) sent ok e =
    let ((out, ok', left), step, last) = >>=-eq-some (send_chunk outcomes chunk) go_on e in
    let (rest, split, done) = send_chunk-Begins outcomes chunk out ok' left step in
    either out ok' left rest split done last (λ s k h. send_chunks-Begins left chunks s k h)
  where
    go_on : Bytes × Bool × List (Option ℕ) → Option (Bytes × Bool)
    go_on (s, k, l) = elim k [
      | true ↦ send_chunks l chunks >>= λ r. some (s ++ r.0, r.1)
      | false ↦ some (s, false)
    ]

    either :
        (out : Bytes) (ok' : Bool) (left : List (Option ℕ)) (rest : Bytes)
        → chunk ≡ out ++ rest
        → (ok' ≡ true → rest ≡ [])
        → go_on (out, ok', left) ≡ some (sent, ok)
        → ((s : Bytes) (k : Bool)
            → send_chunks left chunks ≡ some (s, k)
            → Begins (flatten chunks) s k)
        → Begins (chunk ++ flatten chunks) sent ok
    either out false left rest split done last again =
        let p = some-injective _ _ last in
        (
          rest ++ flatten chunks,
          ap (λ l. l ++ flatten chunks) split
              ∙ append_assoc out rest (flatten chunks)
              ∙ ap (λ r. r.0 ++ (rest ++ flatten chunks)) p,
          λ all. absurd (false-ne-true (ap (λ r. r.1) p ∙ all)),
        )
    either out true left rest split done last again =
        let ((s, k), step, finish) =
          >>=-eq-some (send_chunks left chunks) (λ r. some (out ++ r.0, r.1)) last in
        let (rest', split', done') = again s k step in
        let p = some-injective _ _ finish in
        (
          rest',
          ap (λ l. l ++ flatten chunks) (split ∙ ap (λ l. out ++ l) (done refl) ∙ append-nil out)
              ∙ ap (λ l. out ++ l) split'
              ∙ sym (append_assoc out s rest')
              ∙ ap (λ r. r.0 ++ rest') p,
          λ all. done' (ap (λ r. r.1) p ∙ all),
        )

word_small : (n : ℕ) → n < 2 ^ 31 → n % 2 ^ 32 ≡ n
word_small n h = omega arith

-- Whatever the socket does, for a file of less than 2 ^ 31 bytes: where `send_file` returns, a beginning
-- of the file went out, in order; and the result is -1, or it is the file's size and all of the file
-- went out.
pub send_file-whole :
    (outcomes : List (Option ℕ)) (chunks : List Bytes) (sent : Bytes) (result : ℕ)
    → length (flatten chunks) < 2 ^ 31
    → send_file outcomes (some chunks) ≡ some (sent, result)
    → ((rest : Bytes) × (flatten chunks ≡ sent ++ rest))
      × ((result ≡ minus_one) ⊎ ((sent ≡ flatten chunks) × (result ≡ length (flatten chunks))))
unfolding send_file
send_file-whole outcomes chunks sent result small e =
    let ((out, ok), step, last) =
      >>=-eq-some (send_chunks outcomes chunks)
        (λ r. some (r.0, elim r.1 [ true ↦ length r.0 % 2 ^ 32 | false ↦ minus_one ])) e in
    let (rest, split, done) = send_chunks-Begins outcomes chunks out ok step in
    let p = some-injective _ _ last in
    (
      (rest, split ∙ ap (λ r. r.0 ++ rest) p),
      counted out ok rest split done (ap (λ r. r.0) p) (ap (λ r. r.1) p),
    )
  where
    counted :
        (out : Bytes) (ok : Bool) (rest : Bytes)
        → flatten chunks ≡ out ++ rest
        → (ok ≡ true → rest ≡ [])
        → out ≡ sent
        → (elim ok [ true ↦ length out % 2 ^ 32 | false ↦ minus_one ]) ≡ result
        → (result ≡ minus_one) ⊎ ((sent ≡ flatten chunks) × (result ≡ length (flatten chunks)))
    counted out false rest split done same value = inl (sym value)
    counted out true rest split done same value =
        let all = sym (split ∙ ap (λ l. out ++ l) (done refl) ∙ append-nil out) in
        inr (
          sym same ∙ all,
          sym value ∙ ap (λ l. length l % 2 ^ 32) all ∙ word_small (length (flatten chunks)) small,
        )
