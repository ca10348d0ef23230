-- ===== src/Common/Payload.antt =====
-- common.h: `deserialize_training_data`. The C library's atol, atoi and strtoll are parameters,
-- and their results bit patterns; a dereference of NULL is a fault, the outer `none`.
use zfl.Base.{
  ℕ, Bool, true, false, ◌&&◌, Option, none, some, [], ◌∷◌, ◌>>=◌, ◌==◌, if◌then◌else◌, Bytes, codes,
}
use zfl.Cson.{Token, null, node, parse_json}

pub record Stats : Type 0 where
  pub bytes_sent : ℕ
  pub bytes_recv : ℕ
  pub seg_rexmit : ℕ
  pub seg_dropped : ℕ
  pub training_time : ℕ

pub record Payload : Type 0 where
  pub json : Token
  pub round_number : ℕ
  pub weights : Token
  pub stats : Stats

-- `Payload p = {0}`
abbrev pub empty_payload : Payload
empty_payload = record {
  json = null;
  round_number = 0;
  weights = null;
  stats = record {
    bytes_sent = 0;
    bytes_recv = 0;
    seg_rexmit = 0;
    seg_dropped = 0;
    training_time = 0;
  };
}

-- `strncmp(text, key, strlen(key)) == 0`, for a text with no NUL.
unfoldable pub has_prefix : Bytes → Bytes → Bool
has_prefix text [] = true
has_prefix [] (c ∷ cs) = false
has_prefix (x ∷ text) (c ∷ cs) = x == c && has_prefix text cs

-- The C library's conversions.
pub record Conversions : Type 0 where
  pub atol : Bytes → ℕ
  pub atoi : Bytes → ℕ
  pub strtoll : Bytes → ℕ

-- `key->child->text`, as an argument that may not be NULL.
abbrev pub value_text : Token → Option Bytes
value_text null = none
value_text (node type text child next) = text

module _ (conversions : Conversions) where
  open conversions use {atol, atoi, strtoll}

  -- One entry of the statistics.
  unfoldable pub set_stat : Stats → Bytes → Token → Option Stats
  set_stat s key child =
      if has_prefix key (codes "bytes_sent")
      then (value_text child >>= λ t. some (record s { bytes_sent = atoi t }))
      else if has_prefix key (codes "bytes_recv")
      then (value_text child >>= λ t. some (record s { bytes_recv = atoi t }))
      else if has_prefix key (codes "seg_dropped")
      then (value_text child >>= λ t. some (record s { seg_dropped = atoi t }))
      else if has_prefix key (codes "seg_rexmit")
      then (value_text child >>= λ t. some (record s { seg_rexmit = atoi t }))
      else some s

  -- The loop over the entries of the statistics.
  unfoldable pub read_stats : Stats → Token → Option Stats
  read_stats s null = some s
  read_stats s (node type none child next) = none
  read_stats s (node type (some key) child next) = do s' ← set_stat s key child; read_stats s' next

  -- What one key does: the payload and whether the loop goes on, or the result is -1.
  unfoldable pub set_key : Payload → Bytes → Token → Option (Payload × Bool)
  set_key p key child =
      if has_prefix key (codes "round")
      then (value_text child >>= λ t.
          some (if atol t == 0 then (p, false) else (record p { round_number = atol t }, true)))
      else if has_prefix key (codes "weights")
      then elim child [
        | null ↦ none
        | node type text inner next ↦ some (record p { weights = inner }, true)
      ]
      else if has_prefix key (codes "training_time")
      then (value_text child >>= λ t.
          some (record p { stats = record (p.stats) { training_time = strtoll t } }, true))
      else if has_prefix key (codes "stats")
      then elim child [
        | null ↦ none
        | node type text inner next ↦
            read_stats p.stats next >>= λ s. some (record p { stats = s }, true)
      ]
      else some (p, true)

  -- The loop over the keys; the Boolean is false for the result -1.
  unfoldable pub read_keys : Payload → Token → Option (Payload × Bool)
  read_keys p null = some (p, true)
  read_keys p (node type none child next) = none
  read_keys p (node type (some key) child next) = do
    (p', goes_on) ← set_key p key child
    elim goes_on [ true ↦ read_keys p' next | false ↦ some (p', false) ]

  -- A text that is no JSON gives NULL, and `p->json->next` a fault.
  unfoldable pub read_json : Payload → Token → Option (Payload × Bool)
  read_json p null = none
  read_json p (node type text child next) =
      read_keys (record p { json = node type text child next }) next

  unfoldable pub deserialize_training_data : ℕ → Bytes → Payload → Option (Payload × Bool)
  deserialize_training_data past bytes p = read_json p (parse_json past bytes)
