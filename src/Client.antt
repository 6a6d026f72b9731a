-- ===== src/Client.antt =====
-- packages/client/src/effect: what the client keeps and runs. Here is what tunnel.ts needs and the
-- functions of that file that keep no state. `Running` is its class `Tunnel` and `Session` its classes
-- `Session` and `Channel`; `Storage` is storage.ts and `Provision` client.ts.
pub mod Order
pub mod Routes
pub mod Backoff
pub mod Maps
pub mod Running
pub mod Session
pub mod Storage
pub mod Provision
mod Tests
use shuvtunnel.Common.{
  ℕ, ◌+◌, ◌*◌, ◌/◌, ◌^◌, min, List, [], ◌∷◌, ◌++◌, Option, none, some, Bool, true, false, ◌&&◌,
  ◌||◌, not, if◌then◌else◌, Text, codes, same, length, leb, ltb, ◌==◌,
}
use shuvtunnel.Names.{is_valid_route, Target, parse_target}
use shuvtunnel.Protocol.{
  error_code, bad_token, cert_not_ready, reconnect_backoff_min_ms, reconnect_backoff_max_ms,
}

-- `ShuvTunnelRoutes`: `Object.entries` of the record, whose keys differ.
abbrev pub Routes : Type 0
Routes = List (Text × Text)

-- `Object.keys`
abbrev pub names_of : Routes → List Text
names_of [] = []
names_of ((name, target) ∷ rest) = name ∷ names_of rest

-- `routes[name]`
unfoldable pub target_for : Text → Routes → Option Text
target_for name [] = none
target_for name ((n, target) ∷ rest) = if same n name then some target else target_for name rest

-- `ShuvTunnelIdentity`; the expiry is an instant in milliseconds.
pub record Identity : Type 0 where
  pub id : Text
  pub hostname : Text
  pub token : Text
  pub private_key : Text
  pub certificate : Text
  pub chain : Text
  pub certificate_expiry : ℕ

-- `SessionEnd`. A fatal end carries the code of its `ShuvTunnelAttachError`.
pub data SessionEnd : Type 0 where
  shutdown routes_changed : SessionEnd
  fatal : Text → SessionEnd
  retry : Text → Bool → SessionEnd

-- `ShuvTunnelClientEvent`
pub data ClientEvent : Type 0 where
  connecting : ℕ → ClientEvent
  connected : Text → List Text → ClientEvent
  disconnected : Text → ClientEvent
  reconnecting : ℕ → ℕ → ClientEvent
  connection_opened : ℕ → Text → Text → ClientEvent
  connection_closed : ℕ → Text → Option Text → ClientEvent
  certificate_renewed : ℕ → ClientEvent
  stopped : Option Text → ClientEvent

-- The message of a `ShuvTunnelAttachError`.
abbrev pub attach_failed : Text → Text
attach_failed code = codes "Bridge attach failed: " ++ code

-- `fatalAttachCodes.has(code)`
abbrev pub is_fatal_code : Text → Bool
is_fatal_code code = same code (error_code bad_token) || same code (error_code cert_not_ready)

-- What `validateRoutes` throws.
pub data RouteError : Type 0 where
  invalid_name : Text → RouteError
  invalid_target : Text → Text → RouteError

abbrev is_target : Option Target → Bool
is_target none = false
is_target (some t) = true

-- `validateRoutes`: the first error, in the order of the entries.
unfoldable pub validate_routes : Routes → Option RouteError
validate_routes [] = none
validate_routes ((name, target) ∷ rest) =
    if not (is_valid_route name)
    then some (invalid_name name)
    else if not (is_target (parse_target target))
    then some (invalid_target target name)
    else validate_routes rest

-- The order of `Array.prototype.sort` on strings: by code units, a prefix first.
unfoldable pub text_leb : Text → Text → Bool
text_leb [] t = true
text_leb (x ∷ xs) [] = false
text_leb (x ∷ xs) (y ∷ ys) = ltb x y || ((x == y) && text_leb xs ys)

pub insert_name : Text → List Text → List Text
insert_name s [] = s ∷ []
insert_name s (t ∷ ts) = if text_leb s t then s ∷ t ∷ ts else t ∷ insert_name s ts

unfoldable pub sort_names : List Text → List Text
unfolding insert_name
sort_names [] = []
sort_names (t ∷ ts) = insert_name t (sort_names ts)

-- `a.length === b.length && a.every((name, index) => name === b[index])`
pub all_same : List Text → List Text → Bool
all_same [] [] = true
all_same [] (t ∷ ts) = false
all_same (s ∷ ss) [] = false
all_same (s ∷ ss) (t ∷ ts) = same s t && all_same ss ts

-- `sameNames`
unfoldable pub same_names : Routes → Routes → Bool
unfolding all_same
same_names left right = all_same (sort_names (names_of left)) (sort_names (names_of right))

-- The base of `backoff`, in milliseconds.
unfoldable pub backoff_base : ℕ → ℕ
backoff_base attempt = min (reconnect_backoff_min_ms * 2 ^ min attempt 16) reconnect_backoff_max_ms

-- `backoff`, where `Math.random()` is `random / 2 ^ 53` and the arithmetic is exact:
-- `Math.round (base / 2 + random / 2 ^ 53 * (base / 2))`.
unfoldable pub backoff : ℕ → ℕ → ℕ
unfolding backoff_base
backoff random attempt = (backoff_base attempt * (2 ^ 53 + random) + 2 ^ 53) / 2 ^ 54
