-- ===== src/Client/Storage/Disk.antt =====
-- `xdg` of packages/client/src/effect/storage.ts: a directory of files for each profile. A profile's
-- name is one segment of a path; writing succeeds, reading may fail. JSON texts and dates are the
-- platform's.
use shuvtunnel.Common.{
  ℕ, List, [], ◌∷◌, ◌++◌, Option, none, some, Bool, true, false, ◌||◌, if◌then◌else◌, Text, codes,
  trim,
}
use shuvtunnel.Json.{Json, string, object, field, end, get, as_string}
use shuvtunnel.Client.{Identity}
use shuvtunnel.Client.Maps.{lookup, insert, delete}
use shuvtunnel.Client.Storage.{
  Pending, read_failed, incomplete_identity, incomplete_pending, Outcome, ok, fails, dies, ◌>>=◌,
  Storage,
}

-- `JSON.stringify(value, null, 2)`, `JSON.parse`, `date.toISOString()` and `new Date(text)`.
pub record Platform : Type 0 where
  pub stringify : Json → Text
  pub parse : Text → Option Json
  pub to_iso : ℕ → Text
  pub date : Text → ℕ

-- The files of each profile's directory, and the files that cannot be read for another reason than
-- their absence.
pub record Disk : Type 0 where
  pub directories : List (Text × List (Text × Text))
  pub unreadable : Text → Text → Bool

abbrev found : Option (List (Text × Text)) → List (Text × Text)
found none = []
found (some files) = files

abbrev pub files_of : Text → Disk → List (Text × Text)
files_of profile d = found (lookup profile d.directories)

-- `Fs.readFile`, where the file can be read; `none` is `ENOENT`.
unfoldable pub read_file : Text → Text → Disk → Option Text
read_file profile name d = lookup name (files_of profile d)

-- `Fs.writeFile`, in the directory that `Fs.mkdir` has made.
unfoldable pub write_file : Text → Text → Text → Disk → Disk
write_file profile name text d = record d {
  directories = insert profile (insert name text (files_of profile d)) d.directories;
}

-- `Fs.rm(path, { force: true })` of a file in such a directory
unfoldable pub remove_file : Text → Text → Disk → Disk
remove_file profile name d = record d {
  directories = insert profile (delete name (files_of profile d)) d.directories;
}

-- `Fs.rm(path, { recursive: true, force: true })`
unfoldable pub remove_directory : Text → Disk → Disk
remove_directory profile d = record d { directories = delete profile d.directories }

abbrev pub tunnel_file : Text
tunnel_file = codes "tunnel.json"

abbrev pub pending_file : Text
pending_file = codes "pending.json"

abbrev pub token_file : Text
token_file = codes "token"

abbrev pub key_file : Text
key_file = codes "private-key.pem"

abbrev pub certificate_file : Text
certificate_file = codes "certificate.pem"

abbrev pub chain_file : Text
chain_file = codes "chain.pem"

-- `readOptional`
unfoldable pub read_optional : Text → Text → Disk → Outcome (Option Text)
read_optional profile name d =
    if d.unreadable profile name
    then fails (read_failed profile name)
    else ok (read_file profile name d)

-- `!text`: no file or an empty one.
abbrev pub is_missing : Option Text → Bool
is_missing none = true
is_missing (some []) = true
is_missing (some (c ∷ cs)) = false

abbrev is_absent : Option Text → Bool
is_absent none = true
is_absent (some t) = false

abbrev text_of : Option Text → Text
text_of none = []
text_of (some t) = t

-- `JSON.parse(metadata)` with three fields that are strings. The metadata are files of `save` and
-- `savePending`: what other values give is not modelled, as is a text that does not parse.
abbrev pub three_fields : Option Text → Option Text → Option Text → Outcome (Text × Text × Text)
three_fields (some a) (some b) (some c) = ok (a, b, c)
three_fields _ _ _ = dies

abbrev pub pending_json : Pending → Json
pending_json p = object (
    field (codes "id") (string p.id)
      (field (codes "hostname") (string p.hostname) (field (codes "csr") (string p.csr) end)))

module _ (platform : Platform) where
  abbrev pub parse_metadata : Text → Text → Outcome (Text × Text × Text)
  parse_metadata third metadata = elim (platform.parse metadata) [
    | none ↦ dies
    | some value ↦
        three_fields (as_string (get (codes "id") value)) (as_string (get (codes "hostname") value))
          (as_string (get third value))
  ]

  abbrev pub tunnel_json : Identity → Json
  tunnel_json i = object (
      field (codes "id") (string i.id) (
        field (codes "hostname") (string i.hostname)
          (field (codes "certificateExpiry") (string (platform.to_iso i.certificate_expiry)) end)))

  -- The value of `load` from the texts of the files.
  unfoldable pub build_identity :
      Text
      → Text
      → Option Text
      → Option Text
      → Option Text
      → Option Text
      → Outcome (Option Identity)
  build_identity profile metadata token private_key certificate chain =
      if is_missing token || is_missing private_key || is_missing certificate || is_absent chain
      then fails (incomplete_identity profile)
      else do
        (id, hostname, expiry) ← parse_metadata (codes "certificateExpiry") metadata
        ok (
            some (record {
              id = id;
              hostname = hostname;
              token = trim (text_of token);
              private_key = text_of private_key;
              certificate = text_of certificate;
              chain = text_of chain;
              certificate_expiry = platform.date expiry;
            }))

  unfoldable pub build_pending : Text → Text → Option Text → Option Text → Outcome (Option Pending)
  build_pending profile metadata token private_key =
      if is_missing token || is_missing private_key then fails (incomplete_pending profile) else do
        (id, hostname, csr) ← parse_metadata (codes "csr") metadata
        ok (
            some (record {
              id = id;
              hostname = hostname;
              token = trim (text_of token);
              private_key = text_of private_key;
              csr = csr;
            }))

  unfoldable pub load : Text → Disk → Outcome (Option Identity)
  load profile d = do
    metadata ← read_optional profile tunnel_file d
    elim metadata [
      | none ↦ ok none
      | some [] ↦ ok none
      | some (c ∷ cs) ↦ do
        token ← read_optional profile token_file d
        private_key ← read_optional profile key_file d
        certificate ← read_optional profile certificate_file d
        chain ← read_optional profile chain_file d
        build_identity profile (c ∷ cs) token private_key certificate chain
    ]

  unfoldable pub load_pending : Text → Disk → Outcome (Option Pending)
  load_pending profile d = do
    metadata ← read_optional profile pending_file d
    elim metadata [
      | none ↦ ok none
      | some [] ↦ ok none
      | some (c ∷ cs) ↦ do
        token ← read_optional profile token_file d
        private_key ← read_optional profile key_file d
        build_pending profile (c ∷ cs) token private_key
    ]

  -- The files of `savePending`, in the order of the source.
  unfoldable pub save_pending : Text → Pending → Disk → Disk
  save_pending profile p d = write_file profile key_file p.private_key (
      write_file profile token_file (p.token ++ 10 ∷ [])
        (write_file profile pending_file (platform.stringify (pending_json p)) d))

  unfoldable pub save : Text → Identity → Disk → Disk
  save profile i d = remove_file profile pending_file (
      write_file profile chain_file i.chain (
        write_file profile certificate_file i.certificate (
          write_file profile key_file i.private_key (
            write_file profile token_file (i.token ++ 10 ∷ [])
              (write_file profile tunnel_file (platform.stringify (tunnel_json i)) d)))))

  abbrev pub xdg : Storage Disk
  xdg = record {
    load = load;
    save = save;
    load_pending = load_pending;
    save_pending = save_pending;
    remove = remove_directory;
  }
