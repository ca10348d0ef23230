-- ===== src/Server/Settle.antt =====
-- zflserver/src/main.c: a result that is added, and the federated average over all of a round.
use zfl.Base.{
  ℕ, suc, ◌+◌, ◌≡◌, refl, sym, ap, ◌∙◌, true, false, not, Option, none, some, List, [], ◌∷◌, ◌++◌,
  length, ◌==◌, ==_iff, ◌>>=◌, arith,
}
use zfl.Common.{Floats, arch}
use zfl.Common.Weights.{Layers, parse_weights_json}
use zfl.Common.Payload.{Payload}
use zfl.Server.{Server, Calls}
use zfl.Server.Results.{add_results, finish_round, with_sums, settle}

>>=-congr {ℓ κ} :
    {A : Type ℓ} {B : Type κ} (m : Option A) {f g : A → Option B}
    → ((a : A) → f a ≡ g a)
    → (m >>= f) ≡ (m >>= g)
>>=-congr none h = refl
>>=-congr (some a) h = h a

>>=-assoc {ℓ κ μ} :
    {A : Type ℓ} {B : Type κ} {C : Type μ} (m : Option A) (f : A → Option B) (g : B → Option C)
    → ((m >>= f) >>= g) ≡ (m >>= λ a. f a >>= g)
>>=-assoc none f g = refl
>>=-assoc (some a) f g = refl

module _ {floats : Floats} (calls : Calls floats) where
  pub add_results-eq :
      (now : ℕ) (s : Server floats) (p : Payload)
      → s.current_round.averaging ≡ false
      → add_results floats calls now s p ≡ (
          parse_weights_json floats arch p.weights s.current_round.weights s.current_round.biases
            (not (s.current_round.responded == 0))
          >>= λ (ws, bs). some (settle floats calls now (with_sums floats s ws bs)))
  unfolding add_results
  add_results-eq now s p off = rw off refl

  pub settle_last :
      (now : ℕ) (s : Server floats)
      → (s.current_round.responded == s.current_round.participants) ≡ true
      → settle floats calls now s ≡ finish_round floats calls now s
  unfolding settle
  settle_last now s last = rw last refl

  pub settle_early :
      (now : ℕ) (s : Server floats)
      → (s.current_round.responded == s.current_round.participants) ≡ false
      → settle floats calls now s ≡ s
  unfolding settle
  settle_early now s early = rw early refl

  -- Results, each at its time, under `result_mutex` one after the other.
  abbrev pub add_all : Server floats → List (ℕ × Payload) → Option (Server floats)
  add_all s [] = some s
  add_all s ((now, p) ∷ ps) = add_results floats calls now s p >>= λ s'. add_all s' ps

  -- The sums of the results, of which `n` are in the arrays already.
  abbrev pub sum_all :
      ℕ
      → Layers floats
      → Layers floats
      → List (ℕ × Payload)
      → Option (Layers floats × Layers floats)
  sum_all n ws bs [] = some (ws, bs)
  sum_all n ws bs ((now, p) ∷ ps) =
      parse_weights_json floats arch p.weights ws bs (not (n == 0)) >>= λ (ws', bs').
      sum_all (n + 1) ws' bs' ps

  abbrev pub with_all : Server floats → Layers floats × Layers floats → Server floats
  with_all s sums = record s {
    current_round = record (s.current_round) {
      weights = sums.0;
      biases = sums.1;
      responded = s.current_round.participants;
    };
  }

  abbrev parsed : Server floats → Payload → Option (Layers floats × Layers floats)
  parsed s p =
      parse_weights_json floats arch p.weights s.current_round.weights s.current_round.biases
        (not (s.current_round.responded == 0))

  one_more :
      (s : Server floats) (now : ℕ) (p : Payload) (ps : List (ℕ × Payload))
      → s.current_round.averaging ≡ false
      → add_all s ((now, p) ∷ ps) ≡ (
          parse_weights_json floats arch p.weights s.current_round.weights s.current_round.biases
            (not (s.current_round.responded == 0))
          >>= λ (ws, bs). add_all (settle floats calls now (with_sums floats s ws bs)) ps)
  one_more s now p ps off =
      ap (λ o. o >>= λ s'. add_all s' ps) (add_results-eq now s p off)
      ∙ >>=-assoc (parsed s p)
          (λ (ws, bs). some (settle floats calls now (with_sums floats s ws bs)))
          (λ s'. add_all s' ps)

  settle-finish_round :
      (s : Server floats) (now : ℕ) (ws bs : Layers floats)
      → s.current_round.responded + 1 ≡ s.current_round.participants
      → settle floats calls now (with_sums floats s ws bs)
        ≡ finish_round floats calls now (with_all s (ws, bs))
  unfolding finish_round
  settle-finish_round s now ws bs count =
      settle_last now (with_sums floats s ws bs) ((==_iff _ _).1 count)

  same_end :
      (s : Server floats) (now : ℕ) (ws bs : Layers floats) (sums : Layers floats × Layers floats)
      → finish_round floats calls now (with_all (with_sums floats s ws bs) sums)
        ≡ finish_round floats calls now (with_all s sums)
  unfolding finish_round
  same_end s now ws bs sums = refl

  not_last : (m n k : ℕ) → m + suc k + 1 ≡ n → (m + 1 == n) ≡ false
  not_last m n k h = ground arith

  -- Where `responded` results are in the arrays and exactly the missing ones of the round's
  -- participants follow, in any order and at any times, the round ends with the last and not before:
  -- the state is that of `finish_round` for the sums of all of them. (A fault in the tokens of a result
  -- is one of both sides.)
  pub add_all-finish_round :
      (s : Server floats) (ps : List (ℕ × Payload)) (now : ℕ) (p : Payload)
      → s.current_round.averaging ≡ false
      → s.current_round.responded + length ps + 1 ≡ s.current_round.participants
      → add_all s (ps ++ ((now, p) ∷ [])) ≡ (
          sum_all s.current_round.responded s.current_round.weights s.current_round.biases
            (ps ++ ((now, p) ∷ []))
          >>= λ sums. some (finish_round floats calls now (with_all s sums)))
  add_all-finish_round s [] now p off count =
      one_more s now p [] off
      ∙ >>=-congr (parsed s p) (λ (ws, bs). ap some (settle-finish_round s now ws bs (omega arith)))
      ∙ sym (
          >>=-assoc (parsed s p) (λ sums. some sums)
            (λ sums. some (finish_round floats calls now (with_all s sums))))
  add_all-finish_round s ((t, q) ∷ ps) now p off count =
      one_more s t q (ps ++ ((now, p) ∷ [])) off
      ∙ >>=-congr (parsed s q) (λ (ws, bs).
        ap (λ s'. add_all s' (ps ++ ((now, p) ∷ [])))
          (settle_early t (with_sums floats s ws bs) (not_last _ _ _ count))
        ∙ add_all-finish_round (with_sums floats s ws bs) ps now p off (omega arith)
        ∙ >>=-congr (sum_all (s.current_round.responded + 1) ws bs (ps ++ ((now, p) ∷ [])))
            (λ sums. ap some (same_end s now ws bs sums)))
      ∙ sym (
          >>=-assoc (parsed s q)
            (λ (ws, bs). sum_all (s.current_round.responded + 1) ws bs (ps ++ ((now, p) ∷ [])))
            (λ sums. some (finish_round floats calls now (with_all s sums))))
