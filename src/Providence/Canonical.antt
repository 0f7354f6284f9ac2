-- ===== src/Providence/Canonical.antt =====
-- `jcs` of packages/providence-log/src/encoding.ts: canonical JSON. A text of the model is a sequence of
-- Unicode characters, so it is well formed, and its UTF-16 code units are computed from them.
use Prim.Native.Char.{Char, code}
use openclaw_nie_guard.Common.{
  ℕ, ◌+◌, ◌-◌, ◌/◌, ◌%◌, ◌^◌, String, Option, none, some, Bool, true, false, List, [], ◌∷◌, map,
  ltb, ◌==◌, nat_eq, if◌then◌else◌, get_elem?, ◌or_else◌,
}
use openclaw_nie_guard.Types.{
  Json, null, bool, num, str, arr, obj, Items, nil, cons, Members, end, member, concat, decimal,
}

-- The UTF-16 code units of a text.
abbrev pub units : String → List ℕ
units String.[] = []
units (String.◌∷◌ c s) =
    let n = code c in
    let rest = units s in
    if ltb n 65536
    then n ∷ rest
    else (55296 + (n - 65536) / 1024) ∷ (56320 + (n - 65536) % 1024) ∷ rest

-- The order of `sort()` on texts.
abbrev pub before : List ℕ → List ℕ → Bool
before [] ys = true
before (x ∷ xs) [] = false
before (x ∷ xs) (y ∷ ys) = if x == y then before xs ys else ltb x y

abbrev hex_digits : List String
hex_digits =
    "0" ∷ "1" ∷ "2" ∷ "3" ∷ "4" ∷ "5" ∷ "6" ∷ "7" ∷ "8" ∷ "9" ∷ "a" ∷ "b" ∷ "c" ∷ "d" ∷ "e" ∷ "f"
    ∷ []

abbrev hex_digit : ℕ → String
hex_digit n = get_elem? hex_digits n or_else "0"

-- `JSON.stringify` of one character of a text.
abbrev escaped : Char → String
escaped c =
    let n = code c in
    if n == 34
    then "\\\""
    else if n == 92
    then "\\\\"
    else if n == 8
    then "\\b"
    else if n == 12
    then "\\f"
    else if n == 10
    then "\\n"
    else if n == 13
    then "\\r"
    else if n == 9
    then "\\t"
    else if ltb n 32
    then concat ("\\u00" ∷ hex_digit (n / 16) ∷ hex_digit (n % 16) ∷ [])
    else String.◌∷◌ c ""

abbrev escaped_text : String → String
escaped_text String.[] = ""
escaped_text (String.◌∷◌ c s) = concat (escaped c ∷ escaped_text s ∷ [])

abbrev pub jcs_string : String → String
jcs_string s = concat ("\"" ∷ escaped_text s ∷ "\"" ∷ [])

abbrev join_texts : List String → String
join_texts [] = ""
join_texts (s ∷ []) = s
join_texts (s ∷ ss) = concat (s ∷ "," ∷ join_texts ss ∷ [])

-- `keys.sort()`, on the members with their encoded values.
unfoldable pub place : String × String → List (String × String) → List (String × String)
place (k, v) [] = (k, v) ∷ []
place (k, v) ((j, w) ∷ rest) =
    if before (units k) (units j) then (k, v) ∷ (j, w) ∷ rest else (j, w) ∷ place (k, v) rest

unfoldable pub sort_members : List (String × String) → List (String × String)
unfolding place
sort_members [] = []
sort_members (m ∷ rest) = place m (sort_members rest)

abbrev member_text : String × String → String
member_text (k, v) = concat (jcs_string k ∷ ":" ∷ v ∷ [])

-- `jcs`: `none` where it throws, on a number that is no safe integer.
unfoldable mutual
  pub jcs : Json → Option String
  jcs null = some "null"
  jcs (bool true) = some "true"
  jcs (bool false) = some "false"
  jcs (num n) = if ltb n (2 ^ 53) then some (decimal n) else none
  jcs (str s) = some (jcs_string s)
  jcs (arr xs) = elim (jcs_items xs) [
    | none ↦ none
    | some texts ↦ some (concat ("[" ∷ join_texts texts ∷ "]" ∷ []))
  ]
  jcs (obj ms) = elim (jcs_members ms) [
    | none ↦ none
    | some pairs ↦
        some (concat ("{" ∷ join_texts (map member_text (sort_members pairs)) ∷ "}" ∷ []))
  ]

  pub jcs_items : Items → Option (List String)
  jcs_items nil = some []
  jcs_items (cons x xs) = elim (jcs x) [
    | none ↦ none
    | some text ↦ elim (jcs_items xs) [ none ↦ none | some texts ↦ some (text ∷ texts) ]
  ]

  pub jcs_members : Members → Option (List (String × String))
  jcs_members end = some []
  jcs_members (member k x ms) = elim (jcs x) [
    | none ↦ none
    | some text ↦ elim (jcs_members ms) [ none ↦ none | some pairs ↦ some ((k, text) ∷ pairs) ]
  ]
