-- ===== src/Tests/Json.antt =====
-- cson.h on concrete texts.
use zfl.Base.{◌≡◌, refl, true, false, [], ◌++◌, codes}
use zfl.Cson.{parse_json}
use zfl.Cson.Numbers.{whole, decimal}
use zfl.Cson.Syntax.{
  Json, num, arr, obj, nil, cons, end, member, json_text, items_text, members_text, token_of,
  IsJson, IsItems, IsMembers, IsPlain-of, depth, items_depth, members_depth,
}
use zfl.Cson.RoundTrip.{parse_json-json_text}

abbrev grid : Json
grid = arr (codes " ") (
    cons (num (decimal true b'1' [] b'5' [])) [] (codes " ")
      (cons (num (whole false b'2' [])) [] [] nil))

-- {"round": 3, "weights":[ -1.5, 2]}
abbrev payload : Json
payload = obj [] (
    member (codes "round") [] (codes " ") (num (whole false b'3' [])) [] (codes " ")
      (member (codes "weights") [] [] grid [] [] end))

payload_text : json_text payload [] ≡ codes "{\"round\": 3, \"weights\":[ -1.5, 2]}"
unfolding json_text items_text members_text
payload_text = refl

grid-IsJson : IsJson grid
unfolding IsJson IsItems
grid-IsJson = ((refl, tt), ((refl, tt, refl, tt), tt, (refl, tt), ((refl, tt), tt, tt, tt)))

payload-IsJson : IsJson payload
unfolding IsJson IsItems IsMembers
payload-IsJson = (
  tt,
  (
    IsPlain-of (codes "round") refl,
    tt,
    (refl, tt),
    (refl, tt),
    tt,
    (refl, tt),
    (IsPlain-of (codes "weights") refl, tt, tt, grid-IsJson, tt, tt, tt),
  ),
)

depth-payload : depth payload ≡ 3
unfolding depth items_depth members_depth
depth-payload = refl

parse_json-json_text_example : parse_json 0 (codes " " ++ json_text payload []) ≡ token_of payload
parse_json-json_text_example =
    parse_json-json_text payload 0 (codes " ") [] payload-IsJson (refl, tt) refl
