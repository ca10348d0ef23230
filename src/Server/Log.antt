-- ===== src/Server/Log.antt =====
-- zflserver/src/main.c: `log_append`, which keeps the last hundred messages.
use zfl.Base.{
  ℕ, zero, suc, ◌-◌, List, [], ◌∷◌, ◌++◌, ltb, ◌==◌, if◌then◌else◌, Bytes, length, take, drop,
}

abbrev pub log_length_max : ℕ
log_length_max = 100

abbrev pub current_log_level : ℕ
current_log_level = 1

-- `vsnprintf` leaves at most 1023 bytes of the message. The first message goes when all are used.
unfoldable pub log_append : ℕ → Bytes → List Bytes → List Bytes
log_append level msg log =
    if ltb level current_log_level
    then log
    else if length log == log_length_max
    then drop 1 log ++ (take 1023 msg ∷ [])
    else log ++ (take 1023 msg ∷ [])

-- Messages with their levels, one after the other.
unfoldable pub log_all : List Bytes → List (ℕ × Bytes) → List Bytes
log_all log [] = log
log_all log (msg ∷ msgs) = log_all (log_append msg.0 msg.1 log) msgs

-- The messages at INFO or above, each cut to the 1023 bytes of its place.
abbrev pub kept : List (ℕ × Bytes) → List Bytes
kept [] = []
kept ((zero, text) ∷ msgs) = kept msgs
kept ((suc level, text) ∷ msgs) = take 1023 text ∷ kept msgs

-- The last `n` items.
abbrev pub last_items {ℓ} : {A : Type ℓ} → ℕ → List A → List A
last_items n l = drop (length l - n) l
