-- ===== src/Server/Invariant.antt =====
-- zflserver/src/main.c: what holds of the server whatever the order of its threads' steps.
use zfl.Base.{
  ℕ, zero, suc, ◌+◌, ◌%◌, ◌^◌, ◌≤◌, ◌<◌, ◌≡◌, ◌≢◌, refl, sym, some, List, [], ◌∷◌, ◌++◌, inl, inr,
  ◌⊎◌, arith, All, All-map, subst,
}
use zfl.Common.{Floats}
use zfl.Common.Payload.{Stats}
use zfl.Server.{Calls}
use zfl.Server.Results.{update_stats}
use zfl.Server.Soundness.{IsSoundServer, IsPayloadOf, IsSound, add_results-IsSoundServer}
use zfl.Server.Rounds.{begin_round}
use zfl.Server.ClientsLaws.{TableFrom, send_id-TableFrom, poll_clients-TableFrom}
use zfl.Server.Steps.{
  World, sleeping, Step, joins, counts, checks, skips, adds, wakes, rests, polls, begins, waits,
  Steps, done, more,
}

update_stats-positive :
    (rows : List (List Stats)) (s : Stats) (n : ℕ) {rows' : List (List Stats)}
    → update_stats rows s n ≡ some rows'
    → 1 ≤ n
unfolding update_stats
update_stats-positive rows s zero h = cc
update_stats-positive rows s (suc n) h = omega arith

not_zero : (n : ℕ) → 1 ≤ n % 2 ^ 32 → 1 ≤ n
not_zero zero h = h
not_zero (suc n) h = omega arith

All-remove {ℓ κ} :
    {A : Type ℓ} (P : A → Type κ) (before : List A) (a : A) (behind : List A) {l : List A}
    → l ≡ before ++ (a ∷ behind)
    → All P l
    → P a × All P (before ++ behind)
All-remove {A = A} P before a behind e h = split before (subst (All P) e h)
  where
    split : (k : List A) → All P (k ++ (a ∷ behind)) → P a × All P (k ++ behind)
    split [] h = h
    split (b ∷ k) h = let rest = split k h.1 in (rest.0, (h.0, rest.1))

module _ {floats : Floats} (calls : Calls floats) where
  early :
      (w : World calls)
      → w.phase ≢ sleeping
      → (w.phase ≡ sleeping) ⊎ (w.server.current_round.round_number < w.server.num_rounds)
      → w.server.current_round.round_number < w.server.num_rounds
  early w awake (inl asleep) = absurd (awake asleep)
  early w awake (inr h) = h

  begin_round-IsSound :
      (w : World calls) (now : ℕ)
      → IsSoundServer w.server w.added
      → TableFrom 0 w.server.clients
      → All (λ p. 1 ≤ p.round_number) w.counted
      → All (IsPayloadOf w.server.current_round.round_number) w.checked
      → w.server.current_round.round_number < w.server.num_rounds
      → w.server.clients_ready ≡ w.server.clients_per_round
      → IsSound calls
          (record w { phase = sleeping; server = begin_round floats calls now w.server })
  unfolding begin_round
  begin_round-IsSound w now (off, le, part, resp, kept, losses, times) t c k left enough = (
    (off, omega arith, inr enough, resp, kept, losses, times),
    t,
    inl refl,
    c,
    All-map (IsPayloadOf w.server.current_round.round_number)
        (IsPayloadOf (w.server.current_round.round_number + 1)) w.checked
        (λ p h. (h.0, omega (arith, h.1))) k,
  )

  Step-IsSound : {w w' : World calls} → IsSound calls w → Step calls w w' → IsSound calls w'
  Step-IsSound (s, t, a, c, k) (joins w addr) =
      (s, (send_id-TableFrom w.server.clients addr t).1, a, c, k)
  Step-IsSound (s, t, a, c, k) (counts w p stats e) =
      (s, t, a, (not_zero p.round_number (update_stats-positive w.server.stats p.stats _ e), c), k)
  Step-IsSound (s, t, a, c, k) (checks w before p behind e now) =
      let (positive, c') = All-remove (λ p. 1 ≤ p.round_number) before p behind e c in
      (s, t, a, c', ((positive, omega arith), k))
  Step-IsSound (s, t, a, c, k) (skips w before p behind e other) =
      (s, t, a, (All-remove (λ p. 1 ≤ p.round_number) before p behind e c).1, k)
  Step-IsSound (s, t, a, c, k) (adds w now before p behind s' e result) =
      let ((positive, le), k') =
        All-remove (IsPayloadOf w.server.current_round.round_number) before p behind e k in
      let (s'', (clients, round, rounds)) =
        add_results-IsSoundServer calls now w.server p w.added s (omega arith) result in
      (
        s'',
        subst (TableFrom 0) (sym clients) t,
        rw (round, rounds) a,
        c,
        subst (λ n. All (IsPayloadOf n) (before ++ behind)) (sym round) k',
      )
  Step-IsSound (s, t, a, c, k) (wakes w asleep left idle) = (s, t, inr left, c, k)
  Step-IsSound (s, t, a, c, k) (rests w asleep left going) = (s, t, a, c, k)
  Step-IsSound (s, t, a, c, k) (polls w replies awake) = (
    s,
    (poll_clients-TableFrom 0 w.server.clients replies 0 t),
    inr (early w (λ asleep. cc) a),
    c,
    k,
  )
  Step-IsSound (s, t, a, c, k) (begins w now awake enough) =
      let left = early w (λ asleep. cc) a in begin_round-IsSound w now s t c k left enough
  Step-IsSound (s, t, a, c, k) (waits w awake few) = (s, t, inl refl, c, k)

  -- From a sound state a sound state comes, whatever steps the threads of the server take and in
  -- whatever order: at rest no round is being averaged, at most `num_rounds` rounds have begun, each
  -- with `clients_per_round` participants of which fewer have responded; the results added are
  -- `clients_per_round` for each averaged round and those of the current one; accuracies, losses and
  -- times are equally many; and the clients' ids are 1, 2, 3 and so on.
  pub Steps-IsSound : {w w' : World calls} → IsSound calls w → Steps calls w w' → IsSound calls w'
  Steps-IsSound h (done w) = h
  Steps-IsSound h (more step steps) = Steps-IsSound (Step-IsSound h step) steps
