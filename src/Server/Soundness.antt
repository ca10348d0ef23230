-- ===== src/Server/Soundness.antt =====
-- zflserver/src/main.c: what holds of the server at rest, and that adding a result keeps it.
use zfl.Base.{
  ℕ, suc, ◌+◌, ◌*◌, ◌≤◌, ◌<◌, ◌≡◌, refl, sym, ap, ◌∙◌, false, some, inl, inr, ◌⊎◌, Bool-cases,
  length, ◌==◌, ==_iff, >>=-eq-some, arith, All, subst, length-append, not,
}
use mathlib.Core.Option.{some-injective}
use native.Mathlib.Nat.{add-mul}
use zfl.Common.{Floats, arch}
use zfl.Common.Weights.{Layers, parse_weights_json}
use zfl.Common.Payload.{Payload}
use zfl.Server.{Server, Calls}
use zfl.Server.Results.{add_results, finish_round, with_sums, settle}
use zfl.Server.Settle.{add_results-eq, settle_last, settle_early}
use zfl.Server.ClientsLaws.{TableFrom}
use zfl.Server.Steps.{World, sleeping}

abbrev pub IsPayloadOf : ℕ → Payload → Type 0
IsPayloadOf round p = (1 ≤ p.round_number) × (p.round_number ≤ round)

module _ {floats : Floats} where
  -- `added` results went into rounds of `clients_per_round` results each, and into the current one.
  abbrev pub IsSoundServer : Server floats → ℕ → Type 0
  IsSoundServer s added =
      (s.current_round.averaging ≡ false)
      × (s.current_round.round_number ≤ s.num_rounds)
      × ((s.current_round.round_number ≡ 0) ⊎ (s.current_round.participants ≡ s.clients_per_round))
      × (s.current_round.responded < s.clients_per_round)
      × (length s.accuracies * s.clients_per_round + s.current_round.responded ≡ added)
      × (length s.loss ≡ length s.accuracies)
      × (length s.round_time ≡ length s.accuracies)

  -- Between critical sections: the server is sound, the clients have the ids 1, 2, 3 and so on, only
  -- the thread that starts rounds is awake while rounds are left, and what the threads hold is of a
  -- round, once checked of the current one or an earlier one.
  abbrev pub IsSound : (calls : Calls floats) → World calls → Type 0
  IsSound calls w =
      IsSoundServer w.server w.added
      × TableFrom 0 w.server.clients
      × ((w.phase ≡ sleeping) ⊎ (w.server.current_round.round_number < w.server.num_rounds))
      × All (λ p. 1 ≤ p.round_number) w.counted
      × All (IsPayloadOf w.server.current_round.round_number) w.checked

module _ {floats : Floats} (calls : Calls floats) where
  abbrev pub Keeps : Server floats → Server floats → Type 0
  Keeps s s' =
      (s'.clients ≡ s.clients)
      × (s'.current_round.round_number ≡ s.current_round.round_number)
      × (s'.num_rounds ≡ s.num_rounds)

  full_round :
      (l l' n r added : ℕ) → l' ≡ l + 1 → l * n + r ≡ added → r + 1 ≡ n → l' * n + 0 ≡ suc added
  full_round l l' n r added e c f = rw (e, add-mul) (omega arith)

  finish_round-IsSoundServer :
      (now : ℕ) (s : Server floats) (ws bs : Layers floats) (added : ℕ)
      → IsSoundServer s added
      → 1 ≤ s.current_round.round_number
      → s.current_round.responded + 1 ≡ s.current_round.participants
      → IsSoundServer (finish_round floats calls now (with_sums floats s ws bs)) (suc added)
        × Keeps s (finish_round floats calls now (with_sums floats s ws bs))
  unfolding finish_round
  finish_round-IsSoundServer now s ws bs added (off, le, part, resp, kept, losses, times) positive
        last =
      (
        (
          refl,
          le,
          part,
          omega arith,
          full_round (length s.accuracies) _ s.clients_per_round s.current_round.responded added
              (length-append s.accuracies _) kept (filled part),
          length-append s.loss _ ∙ ap (λ n. n + 1) losses ∙ sym (length-append s.accuracies _),
          length-append s.round_time _ ∙ ap (λ n. n + 1) times ∙ sym (length-append s.accuracies _),
        ),
        (refl, refl, refl),
      )
    where
      filled :
          (s.current_round.round_number ≡ 0) ⊎ (s.current_round.participants ≡ s.clients_per_round)
          → s.current_round.responded + 1 ≡ s.clients_per_round
      filled (inl none_yet) = absurd (omega arith)
      filled (inr whole) = last ∙ whole

  settle-IsSoundServer :
      (now : ℕ) (s : Server floats) (ws bs : Layers floats) (added : ℕ)
      → IsSoundServer s added
      → 1 ≤ s.current_round.round_number
      → IsSoundServer (settle floats calls now (with_sums floats s ws bs)) (suc added)
        × Keeps s (settle floats calls now (with_sums floats s ws bs))
  settle-IsSoundServer now s ws bs added (off, le, part, resp, kept, losses, times) positive =
      elim (Bool-cases (s.current_round.responded + 1 == s.current_round.participants)) [
        | inl last ↦ rw (settle_last calls now (with_sums floats s ws bs) last) (
            finish_round-IsSoundServer now s ws bs added (off, le, part, resp, kept, losses, times)
              positive ((==_iff _ _).0 last))
        | inr early ↦
            rw (settle_early calls now (with_sums floats s ws bs) early)
              ((off, le, part, unfilled early part, omega arith, losses, times), (refl, refl, refl))
      ]
    where
      unfilled :
          (s.current_round.responded + 1 == s.current_round.participants) ≡ false
          → (s.current_round.round_number ≡ 0)
            ⊎ (s.current_round.participants ≡ s.clients_per_round)
          → s.current_round.responded + 1 < s.clients_per_round
      unfilled early (inl none_yet) = absurd (omega arith)
      unfilled early (inr whole) = ground arith

  pub add_results-IsSoundServer :
      (now : ℕ) (s : Server floats) (p : Payload) (added : ℕ) {s' : Server floats}
      → IsSoundServer s added
      → 1 ≤ s.current_round.round_number
      → add_results floats calls now s p ≡ some s'
      → IsSoundServer s' (suc added) × Keeps s s'
  add_results-IsSoundServer now s p added {s' = s'} h positive result =
      let ((ws, bs), parsed, settled) =
        >>=-eq-some
          (parse_weights_json floats arch p.weights s.current_round.weights s.current_round.biases
            (not (s.current_round.responded == 0)))
          (λ (ws, bs). some (settle floats calls now (with_sums floats s ws bs)))
          (sym (add_results-eq calls now s p h.0) ∙ result) in
      subst (λ s'. IsSoundServer s' (suc added) × Keeps s s') (some-injective _ _ settled)
        (settle-IsSoundServer now s ws bs added h positive)
