-- ===== src/Client/Storage/Examples.antt =====
-- A platform that keeps the promises of `Lawful`, and instances of the theorems of the storage.
use shuvtunnel.Common.{
  ℕ, zero, suc, get_or, ◌≡◌, ◌≢◌, refl, ap, ◌∙◌, List, [], ◌∷◌, ◌++◌, some, false, Text, same,
  codes, arith, length, take, drop, append_assoc,
}
use shuvtunnel.Json.{Json, null, boolean, number, string, array, object, Fields, field, end}
use shuvtunnel.Client.{Identity}
use shuvtunnel.Client.Maps.{lookup, insert, delete}
use shuvtunnel.Client.Storage.{
  Pending, ok, no_memory, memory, memory_save, memory_save_pending, Call, loads, saves,
  loads_pending, saves_pending, removes, answers,
}
use shuvtunnel.Client.Storage.Disk.{Platform, Disk, load, save, save_pending, xdg}
use shuvtunnel.Client.Storage.Reading.{Lawful}
use shuvtunnel.Client.Storage.Refinement.{Suitable, xdg-memory, empty-Simulates}
use shuvtunnel.Client.Storage.Overwriting.{with_key_of, storages_differ}

-- A text with its length before it.
abbrev framed : Text → Text
framed t = length t ∷ t

abbrev unframe : Text → Text × Text
unframe [] = ([], [])
unframe (n ∷ rest) = (take n rest, drop n rest)

take-append : (t r : Text) → take (length t) (t ++ r) ≡ t
take-append [] [] = refl
take-append [] (x ∷ xs) = refl
take-append (x ∷ xs) r = ap (λ (s : Text). x ∷ s) (take-append xs r)

drop-append : (t r : Text) → drop (length t) (t ++ r) ≡ r
drop-append [] r = refl
drop-append (x ∷ xs) r = drop-append xs r

abbrev string_of : Json → Text
string_of null = []
string_of (boolean b) = []
string_of (number n) = []
string_of (string s) = s
string_of (array items) = []
string_of (object fields) = []

abbrev write_fields : Fields → Text
write_fields end = []
write_fields (field key value rest) = (framed key ++ framed (string_of value)) ++ write_fields rest

abbrev write_json : Json → Text
write_json null = 0 ∷ []
write_json (boolean b) = 0 ∷ []
write_json (number n) = 0 ∷ []
write_json (string s) = 0 ∷ []
write_json (array items) = 0 ∷ []
write_json (object fields) = 1 ∷ write_fields fields

abbrev read_fields : ℕ → Text → Fields
read_fields zero t = end
read_fields (suc n) t =
    let (key, after_key) = unframe t in
    let (value, rest) = unframe after_key in field key (string value) (read_fields n rest)

-- It reads the three fields that the storage writes.
abbrev simple_platform : Platform
simple_platform = record {
  stringify = write_json;
  parse = λ t. some (object (read_fields 3 (drop 1 t)));
  to_iso = λ n. n ∷ [];
  date = λ t. get_or t 0 0;
}

read-write_field :
    (n : ℕ) (key value rest : Text)
    → read_fields (suc n) ((framed key ++ framed value) ++ rest)
      ≡ field key (string value) (read_fields n rest)
read-write_field n key value rest = simp (append_assoc, take-append, drop-append) refl

read-write_fields :
    (k a l b m c : Text)
    → read_fields 3
        (write_fields (field k (string a) (field l (string b) (field m (string c) end))))
      ≡ field k (string a) (field l (string b) (field m (string c) end))
read-write_fields k a l b m c =
    let others = (framed l ++ framed b) ++ ((framed m ++ framed c) ++ []) in
    read-write_field 2 k a others
    ∙ ap (field k (string a)) (
        read-write_field 1 l b ((framed m ++ framed c) ++ [])
        ∙ ap (field l (string b)) (read-write_field 0 m c []))

written_nonempty : (j : Json) → write_json j ≢ []
written_nonempty null h = ground (arith, h)
written_nonempty (boolean b) h = ground (arith, h)
written_nonempty (number n) h = ground (arith, h)
written_nonempty (string s) h = ground (arith, h)
written_nonempty (array items) h = ground (arith, h)
written_nonempty (object fields) h = ground (arith, h)

simple_platform-Lawful : Lawful simple_platform
simple_platform-Lawful = record {
  parse-stringify =
      λ k a l b m c. ap (λ (fs : Fields). some (object fs)) (read-write_fields k a l b m c);
  stringify_nonempty = written_nonempty;
  date-to_iso = λ instant. refl;
}

abbrev bob : Identity
bob = record {
  id = codes "t2";
  hostname = codes "xyz.example.com";
  token = codes "secret";
  private_key = codes "key";
  certificate = codes "cert";
  chain = [];
  certificate_expiry = 1000;
}

abbrev bob_pending : Pending
bob_pending = record {
  id = codes "t2";
  hostname = codes "xyz.example.com";
  token = codes "secret";
  private_key = codes "key";
  csr = codes "csr";
}

abbrev empty_disk : Disk
empty_disk = record { directories = []; unreadable = λ p n. false }

abbrev home : Text
home = codes "home"

-- A tunnel is created, completed, read and removed.
abbrev session_calls : List Call
session_calls =
    loads home
    ∷ saves_pending home bob_pending
    ∷ loads_pending home
    ∷ saves home bob
    ∷ loads home
    ∷ loads_pending home
    ∷ removes home
    ∷ loads home
    ∷ []

session_calls-Suitable : Suitable session_calls no_memory
unfolding lookup insert delete same
session_calls-Suitable = ground arith

xdg-memory_example :
    answers (xdg simple_platform) session_calls empty_disk ≡ answers memory session_calls no_memory
xdg-memory_example =
    xdg-memory simple_platform session_calls empty_disk no_memory simple_platform-Lawful
      (empty-Simulates simple_platform empty_disk refl (λ p n. refl)) session_calls-Suitable

abbrev other_pending : Pending
other_pending = record bob_pending { private_key = codes "new key" }

storages_differ_example :
    (load simple_platform home
        (save_pending simple_platform home other_pending (save simple_platform home bob empty_disk))
      ≡ ok (some (with_key_of other_pending bob)))
    × (memory.load home (memory_save_pending home other_pending (memory_save home bob no_memory))
        ≡ ok (some bob))
storages_differ_example =
    storages_differ simple_platform home bob other_pending empty_disk no_memory
      simple_platform-Lawful (λ p n. refl) (ground arith) (ground arith)
