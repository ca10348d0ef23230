-- ===== src/StringBuilder/Laws.antt =====
-- sb.h: when an append stays inside the block, and what it leaves there.
use zfl.Base.{
  ℕ, ◌+◌, ◌*◌, ◌≤◌, ◌<◌, ◌≡◌, refl, sym, ap, ◌∙◌, Option, none, some, List, [], ◌∷◌, ◌++◌, inl, inr,
  ltb, Bool-cases, arith, Bytes, length, take, All, append-nil, append_assoc, length-take, take_all,
  true, ◌>>=◌,
}
use native.Mathlib.Nat.{le_refl}
use mathlib.Core.List.{flatten}
use zfl.Memory.{length-realloc, take-realloc, write_lem, write_out}
use zfl.StringBuilder.{
  StringBuilder, contents, sb_init, append_room, sb_append, sb_appendf, append_all,
}

-- The text fits the recorded capacity, which is the size of the block.
pub record IsValid (sb : StringBuilder) : Type 0 where
  pub fits : sb.size ≤ sb.cap
  pub block : length sb.buf ≡ sb.cap

pub length-contents : (sb : StringBuilder) → IsValid sb → length (contents sb) ≡ sb.size
length-contents sb v = length-take sb.size sb.buf (omega arith)

module _ (fresh : ℕ → Bytes) (fresh_size : (n : ℕ) → length (fresh n) ≡ n) where
  -- An empty builder is valid and holds nothing.
  pub sb_init-IsValid : (n : ℕ) → IsValid (sb_init fresh n) × (contents (sb_init fresh n) ≡ [])
  unfolding sb_init
  sb_init-IsValid n = (record { fits = omega arith; block = fresh_size n }, refl)

  -- What making room does to a valid builder.
  record Roomy (sb room : StringBuilder) (len : ℕ) : Type 0 where
    same_size : room.size ≡ sb.size
    same_text : take room.size room.buf ≡ take sb.size sb.buf
    block : length room.buf ≡ room.cap
    grows : sb.cap ≤ room.cap
    enough : sb.size + len ≤ 2 * sb.cap → sb.size + len ≤ room.cap
    doubled : room.cap ≤ 2 * sb.cap

  append_room-Roomy :
      (sb : StringBuilder) (len : ℕ) → IsValid sb → Roomy sb (append_room fresh sb len) len
  append_room-Roomy sb len v = elim (Bool-cases (ltb sb.cap (sb.size + len))) [
    | inl full ↦ rw full (record {
      same_size = refl;
      same_text = take-realloc fresh sb.buf sb.size (sb.cap * 2) (omega arith) (omega arith);
      block = length-realloc fresh sb.buf (sb.cap * 2) (fresh_size _) (omega arith);
      grows = omega arith;
      enough = omega arith;
      doubled = omega arith;
    })
    | inr free ↦ rw free (record {
      same_size = refl;
      same_text = refl;
      block = v.block;
      grows = omega arith;
      enough = λ _. ground arith;
      doubled = omega arith;
    })
  ]

  -- Bytes that fit twice the capacity are appended, and the builder stays valid and no smaller.
  pub sb_append-contents :
      (sb : StringBuilder) (bytes : Bytes)
      → IsValid sb
      → sb.size + length bytes ≤ 2 * sb.cap
      → (sb' : StringBuilder) × (sb_append fresh sb bytes ≡ some sb')
        × (contents sb' ≡ contents sb ++ bytes)
        × IsValid sb'
        × (sb.cap ≤ sb'.cap)
  unfolding sb_append
  sb_append-contents sb bytes v h =
      let room = append_room fresh sb (length bytes) in
      let r = append_room-Roomy sb (length bytes) v in
      let fit : room.size + length bytes ≤ length room.buf = omega (arith, r.enough h) in
      let (b, wrote, size, text) = write_lem room.buf room.size bytes fit in
      (
        record room { buf = b; size = room.size + length bytes },
        rw wrote,
        text ∙ ap (λ l. l ++ bytes) r.same_text,
        record { fits = omega arith; block = omega arith },
        r.grows,
      )

  sb_appendf-contents :
      (sb : StringBuilder) (text : Bytes)
      → IsValid sb
      → length text ≤ 1023
      → length text ≤ sb.cap
      → (sb' : StringBuilder) × (sb_appendf fresh sb (some text) ≡ some (sb', true))
        × (contents sb' ≡ contents sb ++ text)
        × IsValid sb'
        × (sb.cap ≤ sb'.cap)
  unfolding sb_appendf
  sb_appendf-contents sb text v short room =
      let (sb', e, is, valid, larger) = sb_append-contents sb text v (omega (arith, v.fits)) in
      (
        sb',
        ap (λ t. sb_append fresh sb t >>= λ b. some (b, true)) (take_all text 1023 short)
            ∙ ap (λ o. o >>= λ b. some (b, true)) e,
        is,
        valid,
        larger,
      )

  -- An append writes outside the block exactly when the text would pass twice the capacity.
  pub sb_append-none :
      (sb : StringBuilder) (bytes : Bytes)
      → IsValid sb
      → 2 * sb.cap < sb.size + length bytes
      → sb_append fresh sb bytes ≡ none
  unfolding sb_append
  sb_append-none sb bytes v h =
      let r = append_room-Roomy sb (length bytes) v in
      rw (
        write_out (append_room fresh sb (length bytes)).buf
          (append_room fresh sb (length bytes)).size bytes (omega arith))

  -- Chunks that are each no longer than the capacity at the start are appended in order, one
  -- after the other, with no write outside the block.
  pub append_all-contents :
      (chunks : List Bytes) (sb : StringBuilder) (n : ℕ)
      → IsValid sb
      → n ≤ sb.cap
      → All (λ chunk. length chunk ≤ n) chunks
      → (sb' : StringBuilder) × (append_all fresh sb chunks ≡ some sb')
        × (contents sb' ≡ contents sb ++ flatten chunks)
        × IsValid sb'
        × (sb.cap ≤ sb'.cap)
  unfolding append_all flatten
  append_all-contents [] sb n v h a = (sb, refl, sym (append-nil _), v, le_refl _)
  append_all-contents (chunk ∷ chunks) sb n v h a =
      let (s1, e1, t1, v1, c1) = sb_append-contents sb chunk v (omega arith) in
      let (s2, e2, t2, v2, c2) = append_all-contents chunks s1 n v1 (omega arith) a.1 in
      (
        s2,
        rw e1 e2,
        t2 ∙ ap (λ l. l ++ flatten chunks) t1 ∙ append_assoc (contents sb) chunk (flatten chunks),
        v2,
        omega arith,
      )

  -- What a step makes of every valid builder of 1024 bytes or more: it appends the text.
  abbrev pub Appends : (StringBuilder → Option StringBuilder) → Bytes → Type 0
  Appends step text =
      (sb : StringBuilder)
      → IsValid sb
      → 1024 ≤ sb.cap
      → (sb' : StringBuilder) × (step sb ≡ some sb')
        × (contents sb' ≡ contents sb ++ text)
        × IsValid sb'
        × (1024 ≤ sb'.cap)

  -- One step after the other.
  pub Appends-append :
      (f g : StringBuilder → Option StringBuilder) (s t : Bytes)
      → Appends f s
      → Appends g t
      → Appends (λ sb. f sb >>= g) (s ++ t)
  Appends-append f g s t first second sb v room =
      let (sb1, e1, t1, v1, r1) = first sb v room in
      let (sb2, e2, t2, v2, r2) = second sb1 v1 r1 in
      (
        sb2,
        ap (λ o. o >>= g) e1 ∙ e2,
        t2 ∙ ap (λ l. l ++ t) t1 ∙ append_assoc (contents sb) s t,
        v2,
        r2,
      )

  pub sb_append-Appends :
      (text : Bytes) → length text ≤ 1024 → Appends (λ sb. sb_append fresh sb text) text
  sb_append-Appends text short sb v room =
      let (sb', e, is, v', larger) = sb_append-contents sb text v (omega (arith, v.fits)) in
      (sb', e, is, v', omega arith)

  -- Where the result of `sb_appendf` is not looked at.
  pub sb_appendf-Appends :
      (text : Bytes) (g : StringBuilder → Option StringBuilder) (t : Bytes)
      → length text ≤ 1023
      → Appends g t
      → Appends (λ sb. sb_appendf fresh sb (some text) >>= λ p. g (p.0)) (text ++ t)
  sb_appendf-Appends text g t short second sb v room =
      let (sb1, e1, t1, v1, larger) = sb_appendf-contents sb text v short (omega arith) in
      let (sb2, e2, t2, v2, r2) = second sb1 v1 (omega arith) in
      (
        sb2,
        ap (λ o. o >>= λ p. g (p.0)) e1 ∙ e2,
        t2 ∙ ap (λ l. l ++ t) t1 ∙ append_assoc (contents sb) text t,
        v2,
        r2,
      )
