-- ===== src/Server/Report.antt =====
-- zflserver/src/main.c: the text of `write_stats`. The conversions of printf are parameters; opening and
-- writing the file do not fail.
pub mod Text
use zfl.Base.{
  ℕ, suc, ◌+◌, ◌-◌, ◌≡◌, refl, ap, ap₂, ◌∙◌, Option, some, List, [], ◌∷◌, ◌++◌, ◌>>=◌, ◌==◌,
  if◌then◌else◌, Bytes, codes, length, get_elem?, for_loop,
}
use zfl.StringBuilder.{StringBuilder, contents, sb_init, sb_append, sb_appendf}
use zfl.Common.Payload.{Stats}

-- "%f", "%ld" and "%zu".
pub record Prints (Float : Type 0) : Type 0 where
  pub float_text : Float → Bytes
  pub long_text : ℕ → Bytes
  pub size_text : ℕ → Bytes

-- A comma, unless the item is the last of `n`.
abbrev pub comma_behind : (ℕ → Bytes) → ℕ → ℕ → StringBuilder → Option StringBuilder
comma_behind fresh n i sb = if i == n - 1 then some sb else sb_append fresh sb (codes ",")

module _ (Float : Type 0) (prints : Prints Float) (fresh : ℕ → Bytes) where
  open prints use {float_text, long_text, size_text}

  abbrev pub round_head : Float → Float → ℕ → Bytes
  round_head accuracy loss round_time =
      codes "{\"accuracy\": "
      ++ (float_text accuracy
          ++ (codes ", \"loss\": "
              ++ (float_text loss
                  ++ (codes ", \"round_time\": "
                      ++ (long_text round_time ++ codes ", \"stats\": [")))))

  abbrev pub entry_text : Stats → Bytes
  entry_text s =
      codes "\"training_time\": "
      ++ (size_text s.training_time
          ++ (codes ", \"sent\": "
              ++ (long_text s.bytes_sent
                  ++ (codes ", \"recv\": "
                      ++ (long_text s.bytes_recv
                          ++ (codes ", \"dropped\": "
                              ++ (long_text s.seg_dropped
                                  ++ (codes ", \"rexmit\": " ++ long_text s.seg_rexmit))))))))

  -- The inner loop's body, for entry `j` of the round's statistics `s`: what `s->` prints is the first.
  unfoldable pub write_entry : List Stats → ℕ → StringBuilder → Option StringBuilder
  write_entry s j sb = do
    sb1 ← sb_append fresh sb (codes "{")
    first ← get_elem? s 0
    (sb2, ok) ← sb_appendf fresh sb1 (some (entry_text first))
    sb3 ← sb_append fresh sb2 (codes "}")
    comma_behind fresh (length s) j sb3

  -- The outer loop's body, for round `i` of `n`.
  unfoldable pub write_round :
      List Float → List Float → List ℕ → ℕ → ℕ → List Stats → StringBuilder → Option StringBuilder
  write_round accuracies loss round_time n i s sb = do
    a ← get_elem? accuracies i
    l ← get_elem? loss i
    t ← get_elem? round_time i
    (sb1, ok) ← sb_appendf fresh sb (some (round_head a l t))
    sb2 ← for_loop (length s) (write_entry s) sb1
    sb3 ← sb_append fresh sb2 (codes "]}")
    comma_behind fresh n i sb3

  -- The outer loop, from round `i` on.
  unfoldable pub write_rounds :
      List Float
      → List Float
      → List ℕ
      → ℕ
      → ℕ
      → List (List Stats)
      → StringBuilder
      → Option StringBuilder
  write_rounds accuracies loss round_time n i [] sb = some sb
  write_rounds accuracies loss round_time n i (row ∷ rows) sb =
      write_round accuracies loss round_time n i row sb
      >>= write_rounds accuracies loss round_time n (i + 1) rows

  -- The content of the file.
  unfoldable pub write_stats : List Float → List Float → List ℕ → List (List Stats) → Option Bytes
  write_stats accuracies loss round_time stats = do
    sb1 ← sb_append fresh (sb_init fresh 1024) (codes "[")
    sb2 ← write_rounds accuracies loss round_time (length stats) 0 stats sb1
    sb3 ← sb_append fresh sb2 (codes "]")
    some (contents sb3)
