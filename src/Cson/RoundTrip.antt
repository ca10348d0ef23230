-- ===== src/Cson/RoundTrip.antt =====
-- cson.h: a JSON text is scanned into the tokens of its value.
use zfl.Base.{
  ℕ, zero, suc, ◌≤◌, ◌<◌, ◌≡◌, ◌∙◌, some, ◌∷◌, ◌++◌, Bytes, length, arith, length-append,
}
use zfl.Cson.{elements, members, scan_token, parse_json}
use zfl.Cson.Numbers.{Stops}
use zfl.Cson.Syntax.{
  Json, num, str, arr, obj, Items, nil, cons, Members, end, member, item_comma, member_comma,
  json_text, items_text, members_text, token_of, items_of, members_of, IsBlank, IsJson, IsItems,
  IsMembers, depth, items_depth, members_depth, items_count, members_count,
}
use zfl.Cson.Steps.{
  scan_numeral, scan_quote, scan_brackets, scan_braces, elements_step, members_step,
}
use zfl.Cson.Gaps.{
  numeral_text-pos, quote-pos, json_text-pos, items_text-count, members_text-count, item_gap,
  item-Stops, member_gap, member-Stops, items_blank, members_blank, json_open, elements_end,
  members_end, blank_before,
}

mutual
  unfolding json_text token_of IsJson depth

  scan-json :
      (j : Json) (past fuel : ℕ) (rest : Bytes)
      → IsJson j
      → depth j ≤ fuel
      → Stops past rest
      → scan_token fuel past (json_text j rest) ≡ some (token_of j, rest)
  scan-json (num n) past zero rest h d s = absurd (omega arith)
  scan-json (num n) past (suc fuel) rest h d s = scan_numeral past n fuel rest h s
  scan-json (str t) past zero rest h d s = absurd (omega arith)
  scan-json (str t) past (suc fuel) rest h d s = scan_quote past t fuel rest h
  scan-json (arr w is) past zero rest h d s = absurd (omega arith)
  scan-json (arr w is) past (suc fuel) rest h d s =
      scan_brackets past w (items_text is (b']' ∷ rest)) rest fuel (items_of is)
        (items_blank is w rest h.0 h.1)
        (scan-items is past fuel _ rest h.1 (omega arith) (
          omega (
            arith,
            length-append w (items_text is (b']' ∷ rest)),
            items_text-count is (b']' ∷ rest),
          )))
  scan-json (obj w ms) past zero rest h d s = absurd (omega arith)
  scan-json (obj w ms) past (suc fuel) rest h d s =
      scan_braces past w (members_text ms (b'}' ∷ rest)) rest fuel (members_of ms)
        (members_blank ms w rest h.0)
        (scan-members ms past fuel _ rest h.1 (omega arith) (
          omega (
            arith,
            length-append w (members_text ms (b'}' ∷ rest)),
            members_text-count ms (b'}' ∷ rest),
          )))

  scan-items :
      (is : Items) (past fuel n : ℕ) (rest : Bytes)
      → IsItems is
      → items_depth is ≤ fuel
      → items_count is < n
      → elements (scan_token fuel past) n (items_text is (b']' ∷ rest))
        ≡ some (items_of is, b']' ∷ rest)
  scan-items nil past fuel zero rest h d c = absurd (omega arith)
  scan-items nil past fuel (suc n) rest h d c = elements_end past fuel n rest
  scan-items (cons j w v is) past fuel zero rest h d c = absurd (omega arith)
  scan-items (cons j w v is) past fuel (suc n) rest h d c =
      let behind = w ++ (item_comma v is ++ items_text is (b']' ∷ rest)) in
      elements_step past (scan_token fuel past) n (json_text j behind) behind
        (items_text is (b']' ∷ rest)) (b']' ∷ rest) (token_of j) (items_of is)
        (json_open j behind h.0)
        (scan-json j past fuel behind h.0 (omega arith) (item-Stops past is w v rest h.1))
        (item_gap is w v rest h.1 h.2 h.3)
        (scan-items is past fuel n rest h.3 (omega arith) (omega arith))

  scan-members :
      (ms : Members) (past fuel n : ℕ) (rest : Bytes)
      → IsMembers ms
      → members_depth ms ≤ fuel
      → members_count ms < n
      → members (scan_token fuel past) past n (members_text ms (b'}' ∷ rest))
        ≡ some (members_of ms, b'}' ∷ rest)
  scan-members end past fuel zero rest h d c = absurd (omega arith)
  scan-members end past fuel (suc n) rest h d c = members_end past fuel n rest
  scan-members (member k a b j c' d' ms) past fuel zero rest h d c = absurd (omega arith)
  scan-members (member k a b j c' d' ms) past fuel (suc n) rest h d c =
      let behind = c' ++ (member_comma d' ms ++ members_text ms (b'}' ∷ rest)) in
      members_step past (scan_token fuel past) n k a (b ++ json_text j behind) behind
        (members_text ms (b'}' ∷ rest)) (b'}' ∷ rest) (token_of j) (members_of ms) h.0 h.1
        (blank_before past fuel b j behind h.2 h.3
          ∙ scan-json j past fuel behind h.3 (omega arith) (member-Stops past ms c' d' rest h.4))
        (member_gap ms c' d' rest h.4 h.5 h.6)
        (scan-members ms past fuel n rest h.6 (omega arith) (omega arith))

-- The text of a JSON value, with white space in front and with anything behind that cannot
-- continue a number, is scanned into the value's tokens, and the cursor stops behind the text.
pub scan_token-json_text :
    (j : Json) (past fuel : ℕ) (w rest : Bytes)
    → IsJson j
    → IsBlank w
    → depth j ≤ fuel
    → Stops past rest
    → scan_token fuel past (w ++ json_text j rest) ≡ some (token_of j, rest)
scan_token-json_text j past fuel w rest h b d s =
    blank_before past fuel w j rest b h ∙ scan-json j past fuel rest h d s

mutual
  unfolding json_text depth

  depth-le : (j : Json) (rest : Bytes) → depth j ≤ length (json_text j rest)
  depth-le (num n) rest = omega (arith, numeral_text-pos n rest)
  depth-le (str s) rest = omega (arith, quote-pos s rest)
  depth-le (arr w is) rest =
      omega (arith, length-append w (items_text is (b']' ∷ rest)), items_depth-le is (b']' ∷ rest))
  depth-le (obj w ms) rest =
      omega
        (arith, length-append w (members_text ms (b'}' ∷ rest)), members_depth-le ms (b'}' ∷ rest))

  items_depth-le : (is : Items) (rest : Bytes) → items_depth is ≤ length (items_text is rest)
  items_depth-le nil rest = omega arith
  items_depth-le (cons j w v is) rest =
      let behind = item_comma v is ++ items_text is rest in
      omega (
        arith,
        depth-le j (w ++ behind),
        json_text-pos j (w ++ behind),
        length-append w behind,
        length-append (item_comma v is) (items_text is rest),
        items_depth-le is rest,
      )

  members_depth-le :
      (ms : Members) (rest : Bytes) → members_depth ms ≤ length (members_text ms rest)
  members_depth-le end rest = omega arith
  members_depth-le (member k a b j c d ms) rest =
      let behind = member_comma d ms ++ members_text ms rest in
      let value = b ++ json_text j (c ++ behind) in
      omega (
        arith,
        quote-pos k (a ++ (b':' ∷ value)),
        length-append a (b':' ∷ value),
        length-append b (json_text j (c ++ behind)),
        depth-le j (c ++ behind),
        json_text-pos j (c ++ behind),
        length-append c behind,
        length-append (member_comma d ms) (members_text ms rest),
        members_depth-le ms rest,
      )

-- `parse_json` of the whole text of a value made of numerals with no exponent, strings with no escapes,
-- arrays and objects, with white space in front and behind, and with no digit, point or exponent in the
-- byte past the buffer, gives the tokens of the value. These are linked as in cson.h: an object inside an
-- array loses its keys, unless it is the last item.
pub parse_json-json_text :
    (j : Json) (past : ℕ) (w : Bytes) (rest : Bytes)
    → IsJson j
    → IsBlank w
    → Stops past rest
    → parse_json past (w ++ json_text j rest) ≡ token_of j
unfolding parse_json
parse_json-json_text j past w rest h b s = rw (
  scan_token-json_text j past (suc (length (w ++ json_text j rest))) w rest h b
      (omega (arith, length-append w (json_text j rest), depth-le j rest)) s,
  parse_json,
)
