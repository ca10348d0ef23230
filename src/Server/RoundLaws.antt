-- ===== src/Server/RoundLaws.antt =====
-- zflserver/src/main.c: when `start_round` starts a round.
use zfl.Base.{
  ℕ, ◌+◌, ◌<◌, ◌≡◌, refl, sym, ap, ◌∙◌, subst, true, false, Option, List, inl, inr, Bool-cases,
  Bytes, leb, leb_of_lt, ◌==◌, ==_iff, arith,
}
use zfl.Common.{Floats}
use zfl.Server.{Server, Calls, waiting}
use zfl.Server.Log.{log_append}
use zfl.Server.Rounds.{poll_clients, begin_round, poll_and_begin, start_round}
use zfl.Server.ClientsLaws.{ready_count, poll_clients-ready}

true-ne-false : ¬ (true ≡ false)
true-ne-false e = cc

module _ {floats : Floats} (calls : Calls floats) (now : ℕ) (replies : List (Option Bytes)) where
  abbrev logged : Server floats → Server floats
  logged s = record s { log = log_append 1 (calls.vsnprintf (waiting 10)) s.log }

  abbrev polled : Server floats → Server floats
  polled s = record s {
    clients = (poll_clients s.clients replies 0).0;
    clients_ready = (poll_clients s.clients replies 0).1;
  }

  start_round_over :
      (s : Server floats)
      → leb s.num_rounds s.current_round.round_number ≡ true
      → start_round floats calls now replies s ≡ (s, false)
  unfolding start_round
  start_round_over s over = rw over refl

  start_round_idle :
      (s : Server floats)
      → leb s.num_rounds s.current_round.round_number ≡ false
      → s.current_round.started ≡ false
      → start_round floats calls now replies s
        ≡ (poll_and_begin floats calls now replies (logged s), true)
  unfolding start_round
  start_round_idle s left idle = rw (left, idle) refl

  poll_and_begin_few :
      (s : Server floats)
      → ((poll_clients s.clients replies 0).1 == s.clients_per_round) ≡ false
      → poll_and_begin floats calls now replies s ≡ polled s
  unfolding poll_and_begin
  poll_and_begin_few s few = rw few refl

  poll_and_begin_enough :
      (s : Server floats)
      → ((poll_clients s.clients replies 0).1 == s.clients_per_round) ≡ true
      → poll_and_begin floats calls now replies s ≡ begin_round floats calls now (polled s)
  unfolding poll_and_begin
  poll_and_begin_enough s enough = rw enough refl

  -- How a server looks that has just started a round.
  pub record JustStarted (s s' : Server floats) : Type 0 where
    pub left : s.current_round.round_number < s.num_rounds
    pub next : s'.current_round.round_number ≡ s.current_round.round_number + 1
    pub whole : s'.current_round.participants ≡ s.clients_per_round
    pub ready : ready_count s'.clients ≡ s.clients_per_round
    pub kept_sums : s'.current_round.weights ≡ s.current_round.weights

  begin_round-JustStarted :
      (s : Server floats)
      → leb s.num_rounds s.current_round.round_number ≡ false
      → ((poll_clients s.clients replies 0).1 == s.clients_per_round) ≡ true
      → JustStarted s (begin_round floats calls now (polled (logged s)))
  unfolding begin_round
  begin_round-JustStarted s left enough = record {
    left = ground arith;
    next = refl;
    whole = (==_iff _ _).0 enough;
    ready = sym (poll_clients-ready s.clients replies) ∙ (==_iff _ _).0 enough;
    kept_sums = refl;
  }

  begun :
      (s : Server floats)
      → leb s.num_rounds s.current_round.round_number ≡ false
      → s.current_round.started ≡ false
      → (poll_and_begin floats calls now replies (logged s)).current_round.started ≡ true
      → JustStarted s (poll_and_begin floats calls now replies (logged s))
  begun s left idle started =
      elim (Bool-cases ((poll_clients s.clients replies 0).1 == s.clients_per_round)) [
        | inl enough ↦
            subst (JustStarted s) (sym (poll_and_begin_enough (logged s) enough))
              (begin_round-JustStarted s left enough)
        | inr few ↦ absurd (
            true-ne-false (
              sym started
              ∙ ap (λ s'. s'.current_round.started) (poll_and_begin_few (logged s) few)
              ∙ idle))
      ]

  -- A pass of the loop over a server between rounds starts the next round, if it starts one, only where
  -- one is left and exactly as many clients as a round needs were found ready by the poll, and these are
  -- the participants.
  pub start_round-JustStarted :
      (s : Server floats)
      → s.current_round.started ≡ false
      → (start_round floats calls now replies s).0.current_round.started ≡ true
      → JustStarted s (start_round floats calls now replies s).0
  start_round-JustStarted s idle started =
      elim (Bool-cases (leb s.num_rounds s.current_round.round_number)) [
        | inl over ↦ absurd (
            true-ne-false
              (sym started ∙ ap (λ r. r.0.current_round.started) (start_round_over s over) ∙ idle))
        | inr left ↦
            subst (λ r. JustStarted s r.0) (sym (start_round_idle s left idle))
              (begun s left idle (
                sym (ap (λ r. r.0.current_round.started) (start_round_idle s left idle)) ∙ started))
      ]

  begin_round_started :
      (s : Server floats) → (begin_round floats calls now s).current_round.started ≡ true
  unfolding begin_round
  begin_round_started s = refl

  -- Where a round is left and exactly as many clients as it needs answer that they are ready, a pass of
  -- the loop over a server between rounds starts it, and the loop goes on.
  pub start_round-ready_count :
      (s : Server floats)
      → s.current_round.round_number < s.num_rounds
      → s.current_round.started ≡ false
      → ready_count (poll_clients s.clients replies 0).0 ≡ s.clients_per_round
      → ((start_round floats calls now replies s).0.current_round.started ≡ true)
        × ((start_round floats calls now replies s).1 ≡ true)
  start_round-ready_count s left idle ready = rw (start_round_idle s (leb_of_lt _ _ left) idle) (
    ap (λ s'. s'.current_round.started)
          (poll_and_begin_enough (logged s)
            ((==_iff _ _).1 (poll_clients-ready s.clients replies ∙ ready)))
        ∙ begin_round_started (polled (logged s)),
    refl,
  )
