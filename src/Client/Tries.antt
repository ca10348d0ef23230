-- ===== src/Client/Tries.antt =====
-- zflclient/src/main.c: what the tries of `send_weights` come to.
use mathlib.Core.Option.{some-injective}
use zfl.Base.{
  ℕ, zero, suc, ◌≤◌, ◌<◌, ◌≡◌, refl, sym, ap, ap₂, ◌∙◌, subst, Bool, true, false, ◌⊎◌, inl, inr,
  Option, none, some, List, [], ◌∷◌, ◌++◌, ◌>>=◌, >>=-eq-some, append-nil, append_assoc,
  if◌then◌else◌, Bytes, length, length-append, take, drop, take-drop, All, arith,
}
use zfl.Sockets.{sendall, sendall-All, sendall-prefix, Takes}
use zfl.Client.{Try, send_once, send_tries}

-- The connections got beginnings of the request, and none but the last all of it.
abbrev pub Sent : Bytes → List Bytes → Type 0
Sent whole [] = Unit
Sent whole (s ∷ []) = (rest : Bytes) × (whole ≡ s ++ rest)
Sent whole (s ∷ s' ∷ sents) =
    ((rest : Bytes) × (whole ≡ s ++ rest)) × (length s < length whole) × Sent whole (s' ∷ sents)

false-ne-true : ¬ (false ≡ true)
false-ne-true e = cc

true-ne-false : ¬ (true ≡ false)
true-ne-false e = cc

-- A failing `sendall` leaves something out.
sendall-short :
    (outcomes : List (Option ℕ)) (buf sent : Bytes)
    → sendall outcomes buf ≡ some (sent, false)
    → length sent < length buf
unfolding sendall
sendall-short outcomes [] sent e = absurd (true-ne-false (ap (λ r. r.1) (some-injective _ _ e)))
sendall-short [] (b ∷ buf) sent e = cc
sendall-short (none ∷ outcomes) (b ∷ buf) sent e =
    let none_sent = ap (λ r. length r.0) (some-injective _ _ e) in omega arith
sendall-short (some n ∷ outcomes) (b ∷ buf) sent e =
    let ((out, ok), step, last) =
      >>=-eq-some (sendall outcomes (drop n (b ∷ buf))) (λ r. some (take n (b ∷ buf) ++ r.0, r.1))
        e in
    let pair = some-injective _ _ last in
    let short =
      sendall-short outcomes (drop n (b ∷ buf)) out
        (step ∙ ap (λ k. some (out, k)) (ap (λ r. r.1) pair)) in
    let parts = ap length (take-drop n (b ∷ buf)) in
    let lengths = length-append (take n (b ∷ buf)) (drop n (b ∷ buf)) in
    let lengths' = length-append (take n (b ∷ buf)) out in
    let all = ap (λ r. length r.0) pair in omega arith

-- What one try sends: a beginning, and a proper one where the loop goes on.
abbrev pub SentOnce : Bytes → Bytes × Bool → Type 0
SentOnce whole (s, again) =
    ((rest : Bytes) × (whole ≡ s ++ rest)) × (again ≡ true → length s < length whole)

prefix_of_whole :
    (req text head rest : Bytes)
    → req ≡ head ++ rest
    → (behind : Bytes) × (req ++ text ≡ head ++ behind)
prefix_of_whole req text head rest e =
    (rest ++ text, ap (λ l. l ++ text) e ∙ append_assoc head rest text)

whole_of_parts :
    (req text head out rest rest' : Bytes)
    → req ≡ head ++ rest
    → rest ≡ []
    → text ≡ out ++ rest'
    → req ++ text ≡ (head ++ out) ++ rest'
whole_of_parts req text head out rest rest' e none_left f =
    ap₂ (◌++◌) (e ∙ ap (λ l. head ++ l) none_left ∙ append-nil head) f
    ∙ sym (append_assoc head out rest')

send_text-SentOnce :
    (outcomes : List (Option ℕ)) (req text head rest : Bytes) (sent : Bytes × Bool)
    → req ≡ head ++ rest
    → rest ≡ []
    → (sendall outcomes text >>= λ r. some (head ++ r.0, if r.1 then false else true)) ≡ some sent
    → SentOnce (req ++ text) sent
send_text-SentOnce outcomes req text head rest sent e none_left all =
    let ((out, ok), step, last) =
      >>=-eq-some (sendall outcomes text) (λ r. some (head ++ r.0, if r.1 then false else true))
        all in
    let (rest', split, done) = sendall-prefix outcomes text out ok step in
    subst (SentOnce (req ++ text)) (some-injective _ _ last)
      ((rest', whole_of_parts req text head out rest rest' e none_left split), shorter out ok step)
  where
    shorter :
        (out : Bytes) (ok : Bool)
        → sendall outcomes text ≡ some (out, ok)
        → (if ok then false else true) ≡ true
        → length (head ++ out) < length (req ++ text)
    shorter out true step again = absurd (false-ne-true again)
    shorter out false step again =
        let short = sendall-short outcomes text out step in
        let got = length-append head out in
        let whole = length-append req text in
        let same = ap length (e ∙ ap (λ l. head ++ l) none_left ∙ append-nil head) in omega arith

send_head-SentOnce :
    (a : Try) (req text head : Bytes) (ok : Bool) (sent : Bytes × Bool)
    → sendall a.head_sends req ≡ some (head, ok)
    → (if ok
        then (sendall a.text_sends text >>= λ r. some (head ++ r.0, if r.1 then false else true))
        else some (head, a.not_connected))
      ≡ some sent
    → SentOnce (req ++ text) sent
send_head-SentOnce a req text head true sent step e =
    let (rest, split, done) = sendall-prefix a.head_sends req head true step in
    send_text-SentOnce a.text_sends req text head rest sent split (done refl) e
send_head-SentOnce a req text head false sent step e =
    let (rest, split, done) = sendall-prefix a.head_sends req head false step in
    subst (SentOnce (req ++ text)) (some-injective _ _ e)
      (prefix_of_whole req text head rest split, λ again. shorter)
  where
    shorter : length head < length (req ++ text)
    shorter =
        let short = sendall-short a.head_sends req head step in
        let whole = length-append req text in omega arith

pub send_once-SentOnce :
    (a : Try) (req text : Bytes) (sent : Bytes × Bool)
    → 0 < length req
    → send_once a req text ≡ some sent
    → SentOnce (req ++ text) sent
unfolding send_once
send_once-SentOnce a req text sent pos e = on_connection a.connected e
  where
    with_head : Bytes × Bool → Option (Bytes × Bool)
    with_head head =
        if head.1
        then (sendall a.text_sends text >>= λ r. some (head.0 ++ r.0, if r.1 then false else true))
        else some (head.0, a.not_connected)

    on_connection :
        (connected : Bool)
        → (if connected then sendall a.head_sends req >>= with_head else some ([], true))
          ≡ some sent
        → SentOnce (req ++ text) sent
    on_connection false e' =
        subst (SentOnce (req ++ text)) (some-injective _ _ e')
          ((req ++ text, refl), λ again. let whole = length-append req text in omega arith)
    on_connection true e' =
        let (head, step, last) = >>=-eq-some (sendall a.head_sends req) with_head e' in
        send_head-SentOnce a req text head.0 head.1 sent step last

-- Whatever the sockets do, for a request that is not empty: where the tries of `send_weights` come to
-- an end, each connection got a beginning of the request, and none but the last all of it, so that the
-- server takes the results once at most.
pub send_tries-Sent :
    (retries : ℕ) (tries : List Try) (req text : Bytes) (sents : List Bytes)
    → 0 < length req
    → send_tries retries tries req text ≡ some sents
    → Sent (req ++ text) sents
unfolding send_tries
send_tries-Sent zero tries req text sents pos e =
    subst (Sent (req ++ text)) (some-injective _ _ e) tt
send_tries-Sent (suc retries) [] req text sents pos e = cc
send_tries-Sent (suc retries) (a ∷ tries) req text sents pos e =
    let (sent, step, last) = >>=-eq-some (send_once a req text) next e in
    let (start, proper) = send_once-SentOnce a req text sent pos step in
    after_try sent.0 sent.1 start proper last
      (λ rest into. send_tries-Sent retries tries req text rest pos into)
  where
    next : Bytes × Bool → Option (List Bytes)
    next sent = elim sent.1 [
      | true ↦ send_tries retries tries req text >>= λ rest. some (sent.0 ∷ rest)
      | false ↦ some (sent.0 ∷ [])
    ]

    longer :
        (s : Bytes) (rest : List Bytes)
        → (behind : Bytes) × (req ++ text ≡ s ++ behind)
        → length s < length (req ++ text)
        → Sent (req ++ text) rest
        → Sent (req ++ text) (s ∷ rest)
    longer s [] start short others = start
    longer s (s' ∷ rest) start short others = (start, short, others)

    after_try :
        (s : Bytes) (again : Bool)
        → (behind : Bytes) × (req ++ text ≡ s ++ behind)
        → (again ≡ true → length s < length (req ++ text))
        → next (s, again) ≡ some sents
        → ((rest : List Bytes)
            → send_tries retries tries req text ≡ some rest
            → Sent (req ++ text) rest)
        → Sent (req ++ text) sents
    after_try s false start proper e' others =
        subst (Sent (req ++ text)) (some-injective _ _ e') start
    after_try s true start proper e' others =
        let (rest, step, last) =
          >>=-eq-some (send_tries retries tries req text) (λ rest. some (s ∷ rest)) e' in
        subst (Sent (req ++ text)) (some-injective _ _ last)
          (longer s rest start (proper refl) (others rest step))

-- A try behind which the loop goes on: no connection, a header that fails with ENOTCONN, or weights
-- that fail.
abbrev pub Misses : Bytes → Bytes → Try → Type 0
Misses req text a =
    (a.connected ≡ false)
    ⊎ ((a.connected ≡ true)
        × ((head : Bytes) × (sendall a.head_sends req ≡ some (head, false))
            × (a.not_connected ≡ true)))
    ⊎ ((a.connected ≡ true)
        × (sendall a.head_sends req ≡ some (req, true))
        × ((out : Bytes) × (sendall a.text_sends text ≡ some (out, false))))

-- A connection on which each call of `send` takes something.
abbrev pub Delivers : Bytes → Bytes → Try → Type 0
Delivers req text a =
    (a.connected ≡ true)
    × (All Takes a.head_sends × (length req ≤ length a.head_sends))
    × (All Takes a.text_sends × (length text ≤ length a.text_sends))

send_once-Misses :
    (a : Try) (req text : Bytes)
    → Misses req text a
    → (s : Bytes) × (send_once a req text ≡ some (s, true))
unfolding send_once
send_once-Misses a req text (inl down) = ([], rw (down))
send_once-Misses a req text (inr (inl (up, (head, fails, gone)))) = (head, rw (up, fails, gone))
send_once-Misses a req text (inr (inr (up, sent, (out, fails)))) =
    (req ++ out, rw (up, sent, fails))

send_once-Delivers :
    (a : Try) (req text : Bytes)
    → Delivers req text a
    → send_once a req text ≡ some (req ++ text, false)
unfolding send_once
send_once-Delivers a req text (up, (takes, enough), (takes', enough')) =
    rw (up, sendall-All a.head_sends req takes enough, sendall-All a.text_sends text takes' enough')

-- Where fewer tries than `retries` miss and the next one connects and sends at least a byte at each
-- call, the server gets the whole request on the connection of that try, and nothing follows.
pub send_tries-Delivers :
    (retries : ℕ) (missed : List Try) (a : Try) (later : List Try) (req text : Bytes)
    → length missed < retries
    → All (Misses req text) missed
    → Delivers req text a
    → (sents : List Bytes) × (send_tries retries (missed ++ (a ∷ later)) req text
        ≡ some (sents ++ ((req ++ text) ∷ [])))
unfolding send_tries
send_tries-Delivers zero missed a later req text few misses good = absurd (omega arith)
send_tries-Delivers (suc retries) [] a later req text few misses good =
    ([], rw (send_once-Delivers a req text good))
send_tries-Delivers (suc retries) (b ∷ missed) a later req text few misses good =
    let (s, again) = send_once-Misses b req text (misses.0) in
    let (sents, rest) =
      send_tries-Delivers retries missed a later req text (omega arith) (misses.1) good in
    (s ∷ sents, rw (again, rest))
