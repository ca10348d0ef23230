-- ===== src/Cson/Gaps.antt =====
-- cson.h: the white space and commas between the parts of a text.
use zfl.Base.{
  ℕ, zero, suc, ◌+◌, ◌≤◌, ◌<◌, ◌≡◌, refl, sym, ap, ◌∙◌, inl, inr, true, false, some, [], ◌∷◌, ◌++◌,
  ◌==◌, Bytes, length, arith, length-append,
}
use zfl.Cson.{null, peek, skip_whitespace, skip_comma, elements, members, scan_at, scan_token}
use zfl.Cson.Numbers.{Numeral, whole, decimal, numeral_text, Stops}
use zfl.Cson.Syntax.{
  Json, num, str, arr, obj, Items, nil, cons, Members, end, member, item_comma, member_comma, quote,
  json_text, items_text, members_text, IsBlank, IsJson, IsItems, IsMembers, items_count,
  members_count,
}
use zfl.Cson.Steps.{skip-blank, skip-json, json_text-Headed, blank-Stops}

pub numeral_text-pos : (n : Numeral) (rest : Bytes) → length rest < length (numeral_text n ++ rest)
numeral_text-pos (whole true d ds) rest = omega (arith, length-append ds rest)
numeral_text-pos (whole false d ds) rest = omega (arith, length-append ds rest)
numeral_text-pos (decimal true d ds f fs) rest =
    omega (arith, length-append (ds ++ (b'.' ∷ f ∷ fs)) rest)
numeral_text-pos (decimal false d ds f fs) rest =
    omega (arith, length-append (ds ++ (b'.' ∷ f ∷ fs)) rest)

pub quote-pos : (k rest : Bytes) → length rest < length (quote k rest)
quote-pos k rest = omega (arith, length-append k (b'"' ∷ rest))

-- Every item and member has a byte of its own in the text.
mutual
  unfolding json_text

  pub json_text-pos : (j : Json) (rest : Bytes) → length rest < length (json_text j rest)
  json_text-pos (num n) rest = numeral_text-pos n rest
  json_text-pos (str s) rest = quote-pos s rest
  json_text-pos (arr w is) rest =
      omega
        (arith, length-append w (items_text is (b']' ∷ rest)), items_text-count is (b']' ∷ rest))
  json_text-pos (obj w ms) rest =
      omega (
        arith,
        length-append w (members_text ms (b'}' ∷ rest)),
        members_text-count ms (b'}' ∷ rest),
      )

  pub items_text-count :
      (is : Items) (rest : Bytes) → items_count is + length rest ≤ length (items_text is rest)
  items_text-count nil rest = omega arith
  items_text-count (cons j w v is) rest =
      let behind = item_comma v is ++ items_text is rest in
      omega (
        arith,
        json_text-pos j (w ++ behind),
        length-append w behind,
        length-append (item_comma v is) (items_text is rest),
        items_text-count is rest,
      )

  pub members_text-count :
      (ms : Members) (rest : Bytes) → members_count ms + length rest ≤ length (members_text ms rest)
  members_text-count end rest = omega arith
  members_text-count (member k a b j c d ms) rest =
      let behind = member_comma d ms ++ members_text ms rest in
      let value = b ++ json_text j (c ++ behind) in
      omega (
        arith,
        quote-pos k (a ++ (b':' ∷ value)),
        length-append a (b':' ∷ value),
        length-append b (json_text j (c ++ behind)),
        json_text-pos j (c ++ behind),
        length-append c behind,
        length-append (member_comma d ms) (members_text ms rest),
        members_text-count ms rest,
      )

-- Behind an item the cursor comes to the next item, or to the bracket.
pub item_gap :
    (is : Items) (w v rest : Bytes)
    → IsBlank w
    → IsBlank v
    → IsItems is
    → skip_comma (skip_whitespace (w ++ (item_comma v is ++ items_text is (b']' ∷ rest))))
      ≡ items_text is (b']' ∷ rest)
unfolding items_text IsItems
item_gap nil w v rest bw bv h = ap skip_comma (skip-blank w rest b']' bw refl)
item_gap (cons j u t is) w v rest bw bv h =
    let behind = u ++ (item_comma t is ++ items_text is (b']' ∷ rest)) in
    ap skip_comma (skip-blank w (v ++ json_text j behind) b',' bw refl)
    ∙ skip-json v j behind bv h.0

pub item-Stops :
    (past : ℕ) (is : Items) (w v rest : Bytes)
    → IsBlank w
    → Stops past (w ++ (item_comma v is ++ items_text is (b']' ∷ rest)))
unfolding items_text
item-Stops past nil w v rest bw = blank-Stops past b']' w rest bw (inr (inr (inl refl)))
item-Stops past (cons j u t is) w v rest bw = blank-Stops past b',' w _ bw (inr (inl refl))

pub member_gap :
    (ms : Members) (w v rest : Bytes)
    → IsBlank w
    → IsBlank v
    → IsMembers ms
    → skip_comma (skip_whitespace (w ++ (member_comma v ms ++ members_text ms (b'}' ∷ rest))))
      ≡ members_text ms (b'}' ∷ rest)
unfolding members_text IsMembers
member_gap end w v rest bw bv h = ap skip_comma (skip-blank w rest b'}' bw refl)
member_gap (member k a b j c d ms) w v rest bw bv h =
    ap skip_comma (skip-blank w (v ++ quote k _) b',' bw refl) ∙ skip-blank v _ b'"' bv refl

pub member-Stops :
    (past : ℕ) (ms : Members) (w v rest : Bytes)
    → IsBlank w
    → Stops past (w ++ (member_comma v ms ++ members_text ms (b'}' ∷ rest)))
unfolding members_text
member-Stops past end w v rest bw = blank-Stops past b'}' w rest bw (inr (inr (inr refl)))
member-Stops past (member k a b j c d ms) w v rest bw =
    blank-Stops past b',' w _ bw (inr (inl refl))

-- White space in front of the items is skipped.
pub items_blank :
    (is : Items) (w rest : Bytes)
    → IsBlank w
    → IsItems is
    → skip_whitespace (w ++ items_text is (b']' ∷ rest)) ≡ items_text is (b']' ∷ rest)
unfolding items_text IsItems
items_blank nil w rest bw h = skip-blank w rest b']' bw refl
items_blank (cons j u t is) w rest bw h = skip-json w j _ bw h.0

pub members_blank :
    (ms : Members) (w rest : Bytes)
    → IsBlank w
    → skip_whitespace (w ++ members_text ms (b'}' ∷ rest)) ≡ members_text ms (b'}' ∷ rest)
unfolding members_text
members_blank end w rest bw = skip-blank w rest b'}' bw refl
members_blank (member k a b j c d ms) w rest bw = skip-blank w _ b'"' bw refl

pub json_open : (j : Json) (rest : Bytes) → IsJson j → (peek (json_text j rest) == b']') ≡ false
json_open j rest h =
    let t = json_text-Headed j rest h in ap (λ l. peek l == b']') t.text ∙ t.begins.not_close

pub elements_end :
    (past fuel n : ℕ) (rest : Bytes)
    → elements (scan_token fuel past) (suc n) (b']' ∷ rest) ≡ some (null, b']' ∷ rest)
unfolding elements
elements_end past fuel n rest = refl

pub members_end :
    (past fuel n : ℕ) (rest : Bytes)
    → members (scan_token fuel past) past (suc n) (b'}' ∷ rest) ≡ some (null, b'}' ∷ rest)
unfolding members
members_end past fuel n rest = refl

same_cursor :
    (past fuel : ℕ) (r r' : Bytes)
    → skip_whitespace r ≡ skip_whitespace r'
    → scan_token fuel past r ≡ scan_token fuel past r'
unfolding scan_token
same_cursor past zero r r' e = refl
same_cursor past (suc fuel) r r' e = ap (scan_at (scan_token fuel past) past) e

pub blank_before :
    (past fuel : ℕ) (w : Bytes) (j : Json) (rest : Bytes)
    → IsBlank w
    → IsJson j
    → scan_token fuel past (w ++ json_text j rest) ≡ scan_token fuel past (json_text j rest)
blank_before past fuel w j rest bw h =
    same_cursor past fuel _ _ (skip-json w j rest bw h ∙ sym (skip-json [] j rest tt h))
