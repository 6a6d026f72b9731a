-- ===== src/Names.antt =====
-- packages/protocol/src/names.ts: route names, the route of an SNI, and route targets.
-- The regular expressions are functions over the code units; `Names/Label` relates the label's to
-- the expression itself.
pub mod Label
pub mod Routing
pub mod Targets
mod Tests
use Prim.Native.String.{String}
use shuvtunnel.Common.{
  ℕ, zero, suc, ◌+◌, ◌-◌, ◌*◌, ◌≤◌, ◌<◌, ◌≡◌, List, [], ◌∷◌, ◌++◌, Option, none, some, Bool, true,
  false, arith, ltb, leb, ◌==◌, ◌&&◌, ◌||◌, not, if◌then◌else◌, length, take, drop, all, Text,
  codes, same, has_unit, ends_with, drop_end, lower, split_last,
}

-- `ROOT_ROUTE`
abbrev pub root_route : Text
root_route = b'@' ∷ []

-- `[a-z0-9]`, `[a-z0-9-]`
abbrev pub is_alnum : ℕ → Bool
is_alnum c = (leb b'a' c && leb c b'z') || (leb b'0' c && leb c b'9')

abbrev pub is_label_unit : ℕ → Bool
is_label_unit c = is_alnum c || (c == b'-')

-- `[a-z0-9-]*[a-z0-9]$`
pub label_tail : Text → Bool
label_tail [] = false
label_tail (c ∷ []) = is_alnum c
label_tail (c ∷ d ∷ rest) = is_label_unit c && label_tail (d ∷ rest)

-- `label = /^[a-z0-9](?:[a-z0-9-]{0,61}[a-z0-9])?$/`
unfoldable pub is_label : Text → Bool
unfolding label_tail
is_label [] = false
is_label (c ∷ []) = is_alnum c
is_label (c ∷ d ∷ rest) = is_alnum c && (leb (length (d ∷ rest)) 62 && label_tail (d ∷ rest))

unfoldable pub is_valid_route : Text → Bool
unfolding is_label
is_valid_route value = same value root_route || is_label value

pub is_valid_profile : Text → Bool
is_valid_profile value = is_label value

unfoldable pub route_for_sni : Text → Text → Option Text
unfolding is_label
route_for_sni sni hostname =
    let name = lower sni in
    let host = lower hostname in
    let suffix = b'.' ∷ host in
    let route = drop_end name (length suffix) in
    if same name host
    then some root_route
    else if not (ends_with name suffix)
    then none
    else if is_label route
    then some route
    else none

-- `/^\d{1,5}$/`
abbrev pub is_digit : ℕ → Bool
is_digit c = leb b'0' c && leb c b'9'

abbrev pub is_port_text : Text → Bool
is_port_text s = leb 1 (length s) && (leb (length s) 5 && all is_digit s)

-- `Number(portText)`
pub number_from : ℕ → Text → ℕ
number_from acc [] = acc
number_from acc (c ∷ cs) = number_from (acc * 10 + (c - 48)) cs

-- `/^[A-Za-z0-9.\-:_]+$/`
abbrev pub is_host_unit : ℕ → Bool
is_host_unit c =
    (leb b'A' c && leb c b'Z') || (is_label_unit c || ((c == b'.') || ((c == b':') || (c == b'_'))))

abbrev pub is_host : Text → Bool
is_host s = leb 1 (length s) && all is_host_unit s

pub record Target : Type 0 where
  pub host : Text
  pub port : ℕ

-- The brackets of an IPv6 address: `none` where the source returns undefined.
pub strip_brackets : Text → Option Text
strip_brackets [] = some []
strip_brackets (c ∷ cs) =
    if c == b'['
    then (if ends_with (c ∷ cs) (b']' ∷ []) then some (drop_end cs 1) else none)
    else some (c ∷ cs)

abbrev checked_host : ℕ → Option Text → Option Target
checked_host port none = none
checked_host port (some host) =
    if is_host host then some (record { host = host; port = port }) else none

pub target_of : Text → Text → Option Target
target_of before port_text =
    if not (is_port_text port_text)
    then none
    else let port = number_from 0 port_text in
      if ltb port 1 || ltb 65535 port then none else checked_host port (strip_brackets before)

abbrev target_of_parts : Option (Text × Text) → Option Target
target_of_parts none = none
target_of_parts (some (before, port_text)) = target_of before port_text

unfoldable pub parse_target : Text → Option Target
unfolding target_of number_from strip_brackets
parse_target value = target_of_parts (split_last b':' value)
