-- ===== src/Server/LogLaws.antt =====
-- zflserver/src/main.c: what a run of `log_append` leaves of the messages.
use zfl.Base.{
  ltb, ℕ, zero, suc, ◌+◌, ◌-◌, ◌≤◌, ◌≡◌, refl, sym, ◌∙◌, ap, List, [], ◌∷◌, ◌++◌, inl, inr, Bytes,
  Bool-cases, false, ◌==◌, ==_iff, length, take, drop, arith, length-append, length-drop,
  append_assoc, append-nil,
}
use zfl.Server.Log.{log_append, log_all, log_length_max, current_log_level, kept, last_items}

module _ {ℓ} {A : Type ℓ} where
  drop_count : {m n : ℕ} (l : List A) → m ≡ n → drop m l ≡ drop n l
  drop_count l h = cc

  drop_nil : (n : ℕ) → drop {A = A} n [] ≡ []
  drop_nil zero = refl
  drop_nil (suc n) = refl

  drop-drop : (m n : ℕ) (l : List A) → drop n (drop m l) ≡ drop (m + n) l
  drop-drop zero n l = drop_count l (omega arith)
  drop-drop (suc m) n [] = drop_nil n ∙ sym (drop_nil (suc m + n))
  drop-drop (suc m) n (a ∷ l) =
      drop-drop m n l ∙ drop_count {m = suc (m + n)} {n = suc m + n} (a ∷ l) (omega arith)

  drop-append_le : (n : ℕ) (k l : List A) → n ≤ length k → drop n (k ++ l) ≡ drop n k ++ l
  drop-append_le zero k l h = refl
  drop-append_le (suc n) [] l h = absurd (omega arith)
  drop-append_le (suc n) (a ∷ k) l h = drop-append_le n k l (omega arith)

  last_items-append :
      (n : ℕ) (k l : List A) → last_items n (last_items n k ++ l) ≡ last_items n (k ++ l)
  last_items-append n k l = proof
    where
      cut_first : last_items n k ++ l ≡ drop (length k - n) (k ++ l)
      cut_first = sym (drop-append_le (length k - n) k l (omega arith))

      proof : last_items n (last_items n k ++ l) ≡ last_items n (k ++ l)
      proof =
          rw (cut_first, drop-drop, length-drop, length-append) (drop_count (k ++ l) (omega arith))

  last_items_short : (n : ℕ) (l : List A) → length l ≤ n → last_items n l ≡ l
  last_items_short n l h = drop_count {m = length l - n} {n = 0} l (omega arith)

at_info : (level : ℕ) → ltb (suc level) current_log_level ≡ false
at_info level = ground arith

log_append_lem :
    (level : ℕ) (log : List Bytes) (msg : Bytes)
    → length log ≤ 100
    → log_append (suc level) msg log ≡ last_items 100 (log ++ (take 1023 msg ∷ []))
unfolding log_append
log_append_lem level log msg h = elim (Bool-cases (length log == log_length_max)) [
  | inl full ↦ rw (at_info level, full) (full_log ((==_iff (length log) 100).0 full))
  | inr room ↦
      rw (at_info level, room)
        (sym (last_items_short 100 (log ++ (take 1023 msg ∷ [])) (fits room)))
]
  where
    added : List Bytes
    added = log ++ (take 1023 msg ∷ [])

    full_log : length log ≡ 100 → drop 1 log ++ (take 1023 msg ∷ []) ≡ last_items 100 added
    full_log full =
        sym (drop-append_le 1 log (take 1023 msg ∷ []) (omega arith))
        ∙ drop_count {m = 1} {n = length added - 100} added
            (omega (arith, length-append log (take 1023 msg ∷ [])))

    fits : (length log == 100) ≡ false → length added ≤ 100
    fits room = ground (arith, length-append log (take 1023 msg ∷ []))

log_append-length :
    (level : ℕ) (log : List Bytes) (msg : Bytes)
    → length log ≤ 100
    → length (log_append (suc level) msg log) ≤ 100
log_append-length level log msg h = rw (log_append_lem level log msg h) bound
  where
    added : List Bytes
    added = log ++ (take 1023 msg ∷ [])

    bound : length (last_items 100 added) ≤ 100
    bound = omega (arith, length-drop (length added - 100) added)

-- Behind any run of messages, the log, of at most a hundred messages, holds the last hundred of what it
-- held before and of the new messages at level INFO or above behind it, each cut to 1023 bytes; those
-- at level DEBUG leave it as it is.
pub log_all-last_items :
    (log : List Bytes) (msgs : List (ℕ × Bytes))
    → length log ≤ 100
    → log_all log msgs ≡ last_items 100 (log ++ kept msgs)
unfolding log_all log_append
log_all-last_items log [] h = rw (append-nil log) (sym (last_items_short 100 log h))
log_all-last_items log ((zero, msg) ∷ msgs) h = log_all-last_items log msgs h
log_all-last_items log ((suc level, msg) ∷ msgs) h =
    log_all-last_items (log_append (suc level) msg log) msgs (log_append-length level log msg h)
    ∙ ap (λ l. last_items 100 (l ++ kept msgs)) (log_append_lem level log msg h)
    ∙ last_items-append 100 (log ++ (take 1023 msg ∷ [])) (kept msgs)
    ∙ ap (last_items 100) (append_assoc log (take 1023 msg ∷ []) (kept msgs))
