-- ===== src/Server/Training/Sends.antt =====
-- zflserver/src/main.c: what the tries of `start_round` come to.
use mathlib.Core.Option.{some-injective}
use zfl.Base.{
  ℕ, zero, suc, ◌<◌, ◌≡◌, refl, subst, Bool, true, false, inl, inr, ◌⊎◌, Option, some, List, [],
  ◌∷◌, ◌++◌, ◌>>=◌, if◌then◌else◌, Bytes, length, arith, >>=-eq-some,
}
use zfl.StringBuilder.{StringBuilder, contents}
use zfl.Client.{Try, send_once}
use zfl.Client.Tries.{send_once-SentOnce}
use zfl.Common.{Floats}
use zfl.Server.Training.{Attempt, train_once, train_tries, train_head, train_text, send_train}

true-ne-false : ¬ (true ≡ false)
true-ne-false e = cc

module _ (size_text : ℕ → Bytes) (floats : Floats) (print : floats.Float → Bytes)
    (fresh : ℕ → Bytes) where
  -- The message of a builder with the content.
  abbrev pub message : StringBuilder → Bytes
  message sb = train_head size_text sb.size ++ contents sb

  -- No connection, or a beginning of the message with the model and the round that this try read.
  abbrev pub Starts : Attempt floats → Bytes → Type 0
  Starts a s =
      ((a.connected ≡ false) × (s ≡ []))
      ⊎ ((sb : StringBuilder) × (train_text size_text floats print fresh a.nn a.round_number
            ≡ some sb)
          × ((rest : Bytes) × (message sb ≡ s ++ rest)))

  -- The same, but not all of the message.
  abbrev pub Fails : Attempt floats → Bytes → Type 0
  Fails a s =
      ((a.connected ≡ false) × (s ≡ []))
      ⊎ ((sb : StringBuilder) × (train_text size_text floats print fresh a.nn a.round_number
            ≡ some sb)
          × ((rest : Bytes) × (message sb ≡ s ++ rest))
          × (length s < length (message sb)))

  -- Try by try, all but the last one fail.
  abbrev pub SentEach : List (Attempt floats) → List Bytes → Type 0
  SentEach attempts [] = Unit
  SentEach [] (s ∷ sents) = ⊥
  SentEach (a ∷ attempts) (s ∷ []) = Starts a s
  SentEach (a ∷ attempts) (s ∷ s' ∷ sents) = Fails a s × SentEach attempts (s' ∷ sents)

  abbrev Tried : Attempt floats → Bytes × Bool → Type 0
  Tried a sent = Starts a sent.0 × (sent.1 ≡ true → Fails a sent.0)

  -- A try of the client that goes on behind every failure.
  abbrev persistent : Attempt floats → Try
  persistent a = record {
    connected = true;
    head_sends = a.head_sends;
    text_sends = a.text_sends;
    not_connected = true;
  }

  made-Tried :
      (a : Attempt floats) (sb : StringBuilder) (sent : Bytes × Bool)
      → train_text size_text floats print fresh a.nn a.round_number ≡ some sb
      → send_once (persistent a) (train_head size_text sb.size) (contents sb) ≡ some sent
      → Tried a sent
  made-Tried a sb sent made e =
      let (start, proper) =
        send_once-SentOnce (persistent a) (train_head size_text sb.size) (contents sb) sent
          (omega arith) e in
      (inr (sb, made, start), λ again. inr (sb, made, start, proper again))

  train_once-Tried :
      (a : Attempt floats) (sent : Bytes × Bool)
      → train_once size_text floats print fresh a ≡ some sent
      → Tried a sent
  unfolding train_once send_once
  train_once-Tried a sent e = on_connection a.connected (λ off. off) e
    where
      content : Option StringBuilder
      content = train_text size_text floats print fresh a.nn a.round_number

      on_connection :
          (connected : Bool)
          → (connected ≡ false → a.connected ≡ false)
          → (if connected
              then (content >>= λ sb.
                  send_once (persistent a) (train_head size_text sb.size) (contents sb))
              else some ([], true))
            ≡ some sent
          → Tried a sent
      on_connection false same e' =
          subst (Tried a) (some-injective _ _ e')
            (inl (same refl, refl), λ again. inl (same refl, refl))
      on_connection true same e' =
          let (sb, made, sends) =
            >>=-eq-some content
              (λ sb. send_once (persistent a) (train_head size_text sb.size) (contents sb)) e' in
          made-Tried a sb sent made sends

  another :
      (a : Attempt floats) (attempts : List (Attempt floats)) (s : Bytes) (rest : List Bytes)
      → Starts a s
      → Fails a s
      → SentEach attempts rest
      → SentEach (a ∷ attempts) (s ∷ rest)
  another a attempts s [] start fails others = start
  another a attempts s (s' ∷ rest) start fails others = (fails, others)

  train_tries-SentEach :
      (retries : ℕ) (attempts : List (Attempt floats)) (sents : List Bytes)
      → train_tries size_text floats print fresh retries attempts ≡ some sents
      → SentEach attempts sents
  unfolding train_tries
  train_tries-SentEach zero attempts sents e = subst (SentEach attempts) (some-injective _ _ e) tt
  train_tries-SentEach (suc retries) [] sents e = cc
  train_tries-SentEach (suc retries) (a ∷ attempts) sents e =
      let (sent, step, last) = >>=-eq-some (train_once size_text floats print fresh a) next e in
      let (start, fails) = train_once-Tried a sent step in
      after_try sent.0 sent.1 start fails last
        (λ rest into. train_tries-SentEach retries attempts rest into)
    where
      others : Option (List Bytes)
      others = train_tries size_text floats print fresh retries attempts

      next : Bytes × Bool → Option (List Bytes)
      next sent = elim sent.1 [
        | true ↦ others >>= λ rest. some (sent.0 ∷ rest)
        | false ↦ some (sent.0 ∷ [])
      ]

      after_try :
          (s : Bytes) (again : Bool)
          → Starts a s
          → (again ≡ true → Fails a s)
          → next (s, again) ≡ some sents
          → ((rest : List Bytes) → others ≡ some rest → SentEach attempts rest)
          → SentEach (a ∷ attempts) sents
      after_try s false start fails e' ih =
          subst (SentEach (a ∷ attempts)) (some-injective _ _ e') start
      after_try s true start fails e' ih =
          let (rest, step, last) = >>=-eq-some others (λ rest. some (s ∷ rest)) e' in
          subst (SentEach (a ∷ attempts)) (some-injective _ _ last)
            (another a attempts s rest start (fails refl) (ih rest step))

  -- Whatever the sockets do, and however other threads change the model and the round between the tries:
  -- where the tries to send the model of a round to a client come to an end, each connection got a
  -- beginning of the message that its try made of the model and the round as they were then, and none
  -- but the last all of it, so that a client trains for a round once at most.
  pub send_train-Sent :
      (attempts : List (Attempt floats)) (sents : List Bytes)
      → send_train size_text floats print fresh attempts ≡ some sents
      → SentEach attempts sents
  unfolding send_train
  send_train-Sent attempts sents e = train_tries-SentEach 3 attempts sents e
