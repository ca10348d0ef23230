-- ===== src/Http/ReceiveLaws.antt =====
-- http.h: `recv_content` receives until the content is complete.
use mathlib.Core.List.{flatten}
use zfl.Base.{
  ℕ, ◌+◌, ◌-◌, ◌^◌, ◌≤◌, ◌<◌, ◌≡◌, refl, sym, ap, ◌∙◌, none, some, List, [], ◌∷◌, ◌++◌, ◌⊎◌, inl,
  inr, ltb, Bool-cases, Bytes, length, length-append, arith, All, append-nil, append_assoc,
}
use zfl.StringBuilder.{StringBuilder, contents}
use zfl.StringBuilder.Laws.{IsValid, length-contents, sb_append-contents}
use zfl.Http.{Http}
use zfl.Http.RoundTrip.{sub_size-lt, pos_test}
use zfl.Http.Receive.{Received, stop, more, content_round, recv_loop, recv_content}

abbrev pub total : List Bytes → ℕ
total [] = 0
total (c ∷ cs) = length c + total cs

-- Chunks as `recv` delivers them: not empty, and no longer than its buffer.
abbrev pub IsChunk : ℕ → Bytes → Type 0
IsChunk n c = (0 < length c) × (length c ≤ n)

-- What the loop has done when it returns: it took the first chunks, in order, and either has all
-- the content, or has used up every chunk and has too little.
pub record Content (sb : StringBuilder) (offset len : ℕ) (chunks : List Bytes) (out : Received)
    : Type 0 where
  pub taken : List Bytes
  pub order : chunks ≡ taken ++ out.pending
  pub text : contents out.text ≡ contents sb ++ flatten taken
  pub valid : IsValid out.text
  pub result :
      ((out.result ≡ some 0) × (offset + len ≤ out.text.size))
      ⊎ ((out.result ≡ none) × (out.pending ≡ []) × (out.text.size < offset + len))

module _ (fresh : ℕ → Bytes) (fresh_size : (n : ℕ) → length (fresh n) ≡ n) where
  round_test :
      (h : Http) (sb : StringBuilder) (offset len received : ℕ)
      → offset ≤ sb.size
      → sb.size < 2 ^ 64
      → ((content_round offset len h sb received ≡ some (stop h (some 0)))
          × (offset + len ≤ sb.size))
        ⊎ ((content_round offset len h sb received ≡ some (more h)) × (sb.size < offset + len))
  unfolding content_round
  round_test h sb offset len received le lt =
      rw (sub_size-lt sb.size offset le lt) (elim (Bool-cases (ltb (sb.size - offset) len)) [
        | inl short ↦ inr (rw short, ground arith)
        | inr enough ↦ inl (rw enough, ground arith)
      ])

  recv_loop-Content :
      (chunks : List Bytes) (h : Http) (sb : StringBuilder) (offset len received n : ℕ)
      → IsValid sb
      → n ≤ sb.cap
      → offset ≤ sb.size
      → All (IsChunk n) chunks
      → sb.size + total chunks < 2 ^ 64
      → (out : Received) × (recv_loop fresh (content_round offset len) h sb received chunks
          ≡ some out)
        × Content sb offset len chunks out
  unfolding recv_loop flatten
  recv_loop-Content [] h sb offset len received n v cap le a lt =
      elim (round_test h sb offset len received le (omega arith)) [
        | inl (e, enough) ↦ (
          record { http = h; text = sb; pending = []; result = some 0 },
          rw e,
          record {
            taken = [];
            order = refl;
            text = sym (append-nil _);
            valid = v;
            result = inl (refl, enough);
          },
        )
        | inr (e, short) ↦ (
          record { http = h; text = sb; pending = []; result = none },
          rw e,
          record {
            taken = [];
            order = refl;
            text = sym (append-nil _);
            valid = v;
            result = inr (refl, refl, short);
          },
        )
      ]
  recv_loop-Content (chunk ∷ chunks) h sb offset len received n v cap le a lt =
      elim (round_test h sb offset len received le (omega arith)) [
        | inl (e, enough) ↦ (
          record { http = h; text = sb; pending = chunk ∷ chunks; result = some 0 },
          rw e,
          record {
            taken = [];
            order = refl;
            text = sym (append-nil _);
            valid = v;
            result = inl (refl, enough);
          },
        )
        | inr (e, short) ↦
            let (sb', appended, text, v', cap') =
              sb_append-contents fresh fresh_size sb chunk v (omega arith) in
            let size : sb'.size ≡ sb.size + length chunk = omega (
              arith,
              length-contents sb v,
              length-contents sb' v',
              ap length text,
              length-append (contents sb) chunk,
            ) in
            let (out, ran, c) =
              recv_loop-Content chunks h sb' offset len (received + length chunk) n v' (omega arith)
                (omega arith) a.1 (omega arith) in
            (
              out,
              rw (e, pos_test (length chunk) (omega arith), appended) ran,
              record {
                taken = chunk ∷ c.taken;
                order = ap (◌∷◌ chunk) c.order;
                text =
                    c.text
                    ∙ ap (λ l. l ++ flatten c.taken) text
                    ∙ append_assoc (contents sb) chunk (flatten c.taken);
                valid = c.valid;
                result = c.result;
              },
            )
      ]

  -- From chunks as `recv` delivers them, each no longer than the builder's capacity, the content is
  -- received with no write outside the block: the text grows by the first chunks in order, the
  -- others stay pending, and the result is 0 with `len` bytes or more behind `offset`, or -1 with
  -- every chunk used up and fewer bytes.
  pub recv_content-Content :
      (chunks : List Bytes) (h : Http) (sb : StringBuilder) (offset len n : ℕ)
      → IsValid sb
      → n ≤ sb.cap
      → offset ≤ sb.size
      → All (IsChunk n) chunks
      → sb.size + total chunks < 2 ^ 64
      → (out : Received) × (recv_content fresh h sb offset len chunks ≡ some out)
        × Content sb offset len chunks out
  unfolding recv_content
  recv_content-Content chunks h sb offset len n v cap le a lt =
      recv_loop-Content chunks h sb offset len 0 n v cap le a lt
