-- ===== src/Json.antt =====
-- The values that `JSON.parse` returns. Parsing and printing of JSON texts is the platform's: where
-- the sources parse a message, the models take the parsed value, or a parser as a parameter.
use shuvtunnel.Common.{ℕ, List, [], ◌∷◌, Option, none, some, Bool, if◌then◌else◌, Text, same}

-- A number that is no natural number is known by its spelling.
pub data Number : Type 0 where
  nat : ℕ → Number
  other : Text → Number

mutual
  pub data Json : Type 0 where
    null : Json
    boolean : Bool → Json
    number : Number → Json
    string : Text → Json
    array : Items → Json
    object : Fields → Json

  pub data Items : Type 0 where
    nil : Items
    cons : Json → Items → Items

  pub data Fields : Type 0 where
    end : Fields
    field : Text → Json → Fields → Fields

unfoldable pub find_field : Text → Fields → Option Json
find_field key end = none
find_field key (field k v rest) = if same k key then some v else find_field key rest

-- `value.key` on a parsed value; `none` is `undefined`.
unfoldable pub get : Text → Json → Option Json
unfolding find_field
get key (object fields) = find_field key fields
get key null = none
get key (boolean b) = none
get key (number n) = none
get key (string s) = none
get key (array items) = none

-- `typeof value === "string"`, with the string.
abbrev pub as_string : Option Json → Option Text
as_string (some (string s)) = some s
as_string _ = none

abbrev pub as_number : Option Json → Option Number
as_number (some (number n)) = some n
as_number _ = none

-- The strings of an array: `routes.filter((route) => typeof route === "string")`.
unfoldable pub strings : Items → List Text
strings nil = []
strings (cons (string s) rest) = s ∷ strings rest
strings (cons _ rest) = strings rest

-- An array of strings as a JSON array.
unfoldable pub from_strings : List Text → Items
from_strings [] = nil
from_strings (s ∷ ss) = cons (string s) (from_strings ss)
