-- ===== src/Routing/Json.antt =====
-- The values of `JSON.parse`, and `JSON.stringify`. A number is the text that `String(n)` prints,
-- since the source only prints and compares numbers. An object keeps JavaScript's order of keys.
use Prim.Native.Char.{Char, code}
use clawndom.Common.Tests.{◌⧺◌}
use clawndom.Common.{ℕ, ◌/◌, ◌%◌, String, Bool, true, false, List, [], ◌∷◌, ltb, eqb, if◌then◌else◌}
use clawndom.Common.Dict.{Dict}

mutual
  pub data Json : Type 0 where
    null : Json
    bool : Bool → Json
    num : String → Json
    str : String → Json
    arr : Items → Json
    obj : Fields → Json

  pub data Items : Type 0 where
    nil : Items
    cons : Json → Items → Items

  pub data Fields : Type 0 where
    end : Fields
    field : String → Json → Fields → Fields

abbrev pub items : Items → List Json
items nil = []
items (cons v vs) = v ∷ items vs

abbrev pub fields : Fields → Dict Json
fields end = []
fields (field k v fs) = (k, v) ∷ fields fs

unfoldable pub hex_digit : ℕ → String
hex_digit n =
    if ltb n 8
    then (if ltb n 4
        then (if ltb n 2 then (if eqb n 0 then "0" else "1") else (if eqb n 2 then "2" else "3"))
        else (if ltb n 6 then (if eqb n 4 then "4" else "5") else (if eqb n 6 then "6" else "7")))
    else (if ltb n 12
        then (if ltb n 10 then (if eqb n 8 then "8" else "9") else (if eqb n 10 then "a" else "b"))
        else (if ltb n 14
            then (if eqb n 12 then "c" else "d")
            else (if eqb n 14 then "e" else "f")))

-- One character of a quoted string.
unfoldable pub escape_char : Char → String
unfolding hex_digit
escape_char c =
    let n = code c in
    if eqb n 34
    then "\\\""
    else if eqb n 92
    then "\\\\"
    else if eqb n 8
    then "\\b"
    else if eqb n 9
    then "\\t"
    else if eqb n 10
    then "\\n"
    else if eqb n 12
    then "\\f"
    else if eqb n 13
    then "\\r"
    else if ltb n 32
    then "\\u00" ⧺ hex_digit (n / 16) ⧺ hex_digit (n % 16)
    else String.◌∷◌ c String.[]

unfoldable pub escape : String → String
unfolding escape_char
escape String.[] = ""
escape (String.◌∷◌ c s) = escape_char c ⧺ escape s

unfoldable pub quote : String → String
unfolding escape
quote s = "\"" ⧺ escape s ⧺ "\""

unfoldable mutual
  unfolding quote

  pub stringify : Json → String
  stringify null = "null"
  stringify (bool true) = "true"
  stringify (bool false) = "false"
  stringify (num n) = n
  stringify (str s) = quote s
  stringify (arr vs) = "[" ⧺ stringify_items vs ⧺ "]"
  stringify (obj fs) = "{" ⧺ stringify_fields fs ⧺ "}"

  pub stringify_items : Items → String
  stringify_items nil = ""
  stringify_items (cons v nil) = stringify v
  stringify_items (cons v (cons w vs)) = stringify v ⧺ "," ⧺ stringify_items (cons w vs)

  pub stringify_fields : Fields → String
  stringify_fields end = ""
  stringify_fields (field k v end) = quote k ⧺ ":" ⧺ stringify v
  stringify_fields (field k v (field l w fs)) =
      quote k ⧺ ":" ⧺ stringify v ⧺ "," ⧺ stringify_fields (field l w fs)
