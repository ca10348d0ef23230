-- ===== src/Cson/Syntax.antt =====
-- JSON values as the programs write them: numerals, strings with no escapes, arrays and objects, with
-- white space wherever it may stand, and the tokens that cson.h makes of them.
use Prim.Native.Nat.{max}
use zfl.Base.{
  ℕ, suc, ◌≡◌, ◌≢◌, Bool, true, false, ◌||◌, ◌==◌, if◌then◌else◌, none, some, [], ◌∷◌, ◌++◌, Bytes,
  All, arith,
}
use zfl.Cson.{Token, null, node, number, string, array, object, link, is_space}
use zfl.Cson.Numbers.{Numeral, numeral_text, IsNumeral}

mutual
  pub data Json : Type 0 where
    num : Numeral → Json
    str : Bytes → Json
    -- The white space behind the opening bracket stands in front of the items.
    arr : Bytes → Items → Json
    obj : Bytes → Members → Json

  pub data Items : Type 0 where
    nil : Items
    -- The white space behind the value, and behind the comma.
    cons : Json → Bytes → Bytes → Items → Items

  pub data Members : Type 0 where
    end : Members
    -- A key, white space round the colon, a value, white space behind it and behind the comma.
    member : Bytes → Bytes → Bytes → Json → Bytes → Bytes → Members → Members

-- A comma between two items.
abbrev pub item_comma : Bytes → Items → Bytes
item_comma v nil = []
item_comma v (cons j w u is) = b',' ∷ v

abbrev pub member_comma : Bytes → Members → Bytes
member_comma v end = []
member_comma v (member k a b j c d ms) = b',' ∷ v

-- The text of a string with its quotes, in front of what follows.
abbrev pub quote : Bytes → Bytes → Bytes
quote s rest = b'"' ∷ (s ++ (b'"' ∷ rest))

-- The text of a value in front of what follows.
unfoldable mutual
  pub json_text : Json → Bytes → Bytes
  json_text (num n) rest = numeral_text n ++ rest
  json_text (str s) rest = quote s rest
  json_text (arr w is) rest = b'[' ∷ (w ++ items_text is (b']' ∷ rest))
  json_text (obj w ms) rest = b'{' ∷ (w ++ members_text ms (b'}' ∷ rest))

  pub items_text : Items → Bytes → Bytes
  items_text nil rest = rest
  items_text (cons j w v is) rest = json_text j (w ++ (item_comma v is ++ items_text is rest))

  pub members_text : Members → Bytes → Bytes
  members_text end rest = rest
  members_text (member k a b j c d ms) rest =
      quote k (a ++ (b':' ∷ (b ++ json_text j (c ++ (member_comma d ms ++ members_text ms rest)))))

-- The token of a value. An object inside an array loses its keys, unless it is the last item:
-- the link to the next item takes their place.
unfoldable mutual
  pub token_of : Json → Token
  token_of (num n) = node number (some (numeral_text n)) null null
  token_of (str s) = node string (some s) null null
  token_of (arr w is) = node array none (items_of is) null
  token_of (obj w ms) = node object none null (members_of ms)

  pub items_of : Items → Token
  items_of nil = null
  items_of (cons j w v is) = link (token_of j) (items_of is)

  pub members_of : Members → Token
  members_of end = null
  members_of (member k a b j c d ms) = node string (some k) (token_of j) (members_of ms)

abbrev pub IsBlank : Bytes → Type 0
IsBlank = All (λ x. is_space x ≡ true)

-- No NUL, quote or backslash.
abbrev pub IsPlain : Bytes → Type 0
IsPlain = All (λ x. (x ≢ 0) × (x ≢ b'"') × (x ≢ b'\\'))

abbrev pub is_plain : Bytes → Bool
is_plain [] = true
is_plain (x ∷ l) = if (x == 0) || ((x == b'"') || (x == b'\\')) then false else is_plain l

pub IsPlain-of : (l : Bytes) → is_plain l ≡ true → IsPlain l
IsPlain-of [] h = tt
IsPlain-of (x ∷ l) h = ground (arith, IsPlain-of l)

unfoldable mutual
  pub IsJson : Json → Type 0
  IsJson (num n) = IsNumeral n
  IsJson (str s) = IsPlain s
  IsJson (arr w is) = IsBlank w × IsItems is
  IsJson (obj w ms) = IsBlank w × IsMembers ms

  pub IsItems : Items → Type 0
  IsItems nil = Unit
  IsItems (cons j w v is) = IsJson j × IsBlank w × IsBlank v × IsItems is

  pub IsMembers : Members → Type 0
  IsMembers end = Unit
  IsMembers (member k a b j c d ms) =
      IsPlain k × IsBlank a × IsBlank b × IsJson j × IsBlank c × IsBlank d × IsMembers ms

unfoldable mutual
  pub depth : Json → ℕ
  depth (num n) = 1
  depth (str s) = 1
  depth (arr w is) = suc (items_depth is)
  depth (obj w ms) = suc (members_depth ms)

  pub items_depth : Items → ℕ
  items_depth nil = 0
  items_depth (cons j w v is) = max (depth j) (items_depth is)

  pub members_depth : Members → ℕ
  members_depth end = 0
  members_depth (member k a b j c d ms) = max (depth j) (members_depth ms)

abbrev pub items_count : Items → ℕ
items_count nil = 0
items_count (cons j w v is) = suc (items_count is)

abbrev pub members_count : Members → ℕ
members_count end = 0
members_count (member k a b j c d ms) = suc (members_count ms)
