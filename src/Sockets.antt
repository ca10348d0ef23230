-- ===== src/Sockets.antt =====
-- zflserver/src/main.c and zflclient/src/main.c: `sendall`. What `send` returns is a list, one item
-- for each call: how many bytes it took, or `none` for an error.
use mathlib.Core.Option.{some-injective}
use zfl.Base.{
  ℕ, ◌≤◌, ◌≡◌, refl, Bool, true, false, Option, none, some, List, [], ◌∷◌, ◌++◌, ◌>>=◌, >>=-eq-some,
  append-nil, append_assoc, ap, sym, ◌∙◌, Bytes, length, take, drop, All, arith, length-drop,
  take-drop,
}

-- What went out, and whether all was sent. `none` where a call waits for ever.
unfoldable pub sendall : List (Option ℕ) → Bytes → Option (Bytes × Bool)
sendall outcomes [] = some ([], true)
sendall [] (b ∷ buf) = none
sendall (none ∷ outcomes) (b ∷ buf) = some ([], false)
sendall (some n ∷ outcomes) (b ∷ buf) = do
  (sent, ok) ← sendall outcomes (drop n (b ∷ buf))
  some (take n (b ∷ buf) ++ sent, ok)

abbrev pub Takes : Option ℕ → Type 0
Takes none = ⊥
Takes (some n) = 1 ≤ n

-- Where `send` takes at least a byte each time it is called, and is called at most once for each byte
-- of the buffer, all bytes go out, in order.
pub sendall-All :
    (outcomes : List (Option ℕ)) (buf : Bytes)
    → All Takes outcomes
    → length buf ≤ length outcomes
    → sendall outcomes buf ≡ some (buf, true)
unfolding sendall
sendall-All outcomes [] takes enough = refl
sendall-All [] (b ∷ buf) takes enough = absurd (omega arith)
sendall-All (none ∷ outcomes) (b ∷ buf) takes enough = absurd (takes.0)
sendall-All (some n ∷ outcomes) (b ∷ buf) takes enough =
    let rest = sendall-All outcomes (drop n (b ∷ buf)) takes.1 (shorter takes.0) in
    rw rest (ap (λ l. some (l, true)) (take-drop n (b ∷ buf)))
  where
    shorter : 1 ≤ n → length (drop n (b ∷ buf)) ≤ length outcomes
    shorter h = omega (arith, length-drop n (b ∷ buf))

false-ne-true : ¬ (false ≡ true)
false-ne-true e = cc

-- What went out is the beginning of the buffer, and where the answer is 0 it is all of it.
pub sendall-prefix :
    (outcomes : List (Option ℕ)) (buf sent : Bytes) (ok : Bool)
    → sendall outcomes buf ≡ some (sent, ok)
    → (rest : Bytes) × (buf ≡ sent ++ rest) × (ok ≡ true → rest ≡ [])
unfolding sendall
sendall-prefix outcomes [] sent ok e =
    let pair = some-injective _ _ e in ([], ap (λ r. r.0) pair ∙ sym (append-nil sent), λ all. refl)
sendall-prefix [] (b ∷ buf) sent ok e = cc
sendall-prefix (none ∷ outcomes) (b ∷ buf) sent ok e =
    let pair = some-injective _ _ e in
    (
      b ∷ buf,
      ap (λ r. r.0 ++ (b ∷ buf)) pair,
      λ all. absurd (false-ne-true (ap (λ r. r.1) pair ∙ all)),
    )
sendall-prefix (some n ∷ outcomes) (b ∷ buf) sent ok e =
    let ((out, ok'), step, last) =
      >>=-eq-some (sendall outcomes (drop n (b ∷ buf))) (λ r. some (take n (b ∷ buf) ++ r.0, r.1))
        e in
    let pair = some-injective _ _ last in
    let (rest, split, all) = sendall-prefix outcomes (drop n (b ∷ buf)) out ok' step in
    (
      rest,
      sym (take-drop n (b ∷ buf))
          ∙ ap (λ l. take n (b ∷ buf) ++ l) split
          ∙ sym (append_assoc (take n (b ∷ buf)) out rest)
          ∙ ap (λ r. r.0 ++ rest) pair,
      λ done. all (ap (λ r. r.1) pair ∙ done),
    )
