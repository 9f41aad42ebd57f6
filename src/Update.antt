-- ===== src/Update.antt =====
-- src/corvus_node/node/update.py: versions, what GitHub's answer says, and whether to update. The
-- answers of GitHub and of git are parameters. A digit is an ASCII digit.
pub mod Order
use corvus_node.Prelude.{
  ℕ, ◌+◌, ◌-◌, ◌*◌, String, ◌<>◌, Char, code, Bool, true, false, not, ◌&&◌, ◌||◌, Option, none,
  some, List, [], ◌∷◌, map, take, all, ltb, leb, ◌==ℕ◌, ◌==◌, chars, of_chars, strip, split, select,
  join_with, if◌then◌else◌,
}
use corvus_node.Json.{
  Value, null, boolean, num, str, arr, obj, Items, nil, cons, Fields, get, truthy, item_list,
}
use corvus_node.Json.Text.{text}

-- `__version__`
abbrev pub local_version : String
local_version = "0.1.9"

abbrev github_repo : String
github_repo = "BlackRainLabs/Corvus-Node"

-- `(major, minor, patch)`
pub record Version : Type 0 where
  pub major : ℕ
  pub minor : ℕ
  pub patch : ℕ

-- A tuple is less than another at the first place where they differ.
abbrev pub version_lt : Version → Version → Bool
version_lt a b =
    ltb a.major b.major
    || (a.major ==ℕ b.major
        && (ltb a.minor b.minor || (a.minor ==ℕ b.minor && ltb a.patch b.patch)))

abbrev pub is_digit : Char → Bool
is_digit c = leb 48 (code c) && leb (code c) 57

-- `int(digits)` behind a number that is read already; no digits are 0.
unfoldable pub read_digits : ℕ → List Char → ℕ
read_digits n [] = n
read_digits n (c ∷ cs) = read_digits (n * 10 + (code c - 48)) cs

-- `lstrip("vV")`
unfoldable pub lstrip_v : List Char → List Char
lstrip_v [] = []
lstrip_v (c ∷ cs) =
    let rest = lstrip_v cs in if code c ==ℕ 118 || code c ==ℕ 86 then rest else c ∷ cs

abbrev pub chunk_number : List Char → ℕ
chunk_number chunk = read_digits 0 (select is_digit chunk)

-- The first three parts, with zeros for those that are missing.
abbrev pub version_of : List ℕ → Version
version_of (a ∷ b ∷ c ∷ _) = record { major = a; minor = b; patch = c }
version_of (a ∷ b ∷ []) = record { major = a; minor = b; patch = 0 }
version_of (a ∷ []) = record { major = a; minor = 0; patch = 0 }
version_of [] = record { major = 0; minor = 0; patch = 0 }

unfoldable pub parse_version : String → Version
unfolding lstrip_v read_digits split strip
parse_version raw = version_of (map chunk_number (take 3 (split 46 (lstrip_v (strip (chars raw))))))

-- What the working tree says: whether there is one, and the outputs of two git commands.
pub record Checkout : Type 0 where
  pub is_source : Bool
  pub status : String
  pub ahead : String

-- `local_unreleased`
unfoldable pub local_unreleased : Checkout → Option String → Bool
local_unreleased tree github =
    let newer : Bool = elim github [
      | none ↦ false
      | some g ↦ version_lt (parse_version g) (parse_version local_version)
    ] in
    let ahead = chars tree.ahead in
    newer
    || (tree.is_source
        && (not (tree.status == "")
            || (not (tree.ahead == "") && all is_digit ahead && ltb 0 (read_digits 0 ahead))))

abbrev entry_name : Value → List String → List String
entry_name (obj entry) rest = elim (get "name" entry) [
  | none ↦ rest
  | some name ↦ if truthy name then text name ∷ rest else rest
]
entry_name _ rest = rest

unfoldable entry_names : List Value → List String
entry_names [] = []
entry_names (entry ∷ entries) = entry_name entry (entry_names entries)

-- `_versions_from_payload`
unfoldable pub versions_from_payload : Value → List String
unfolding entry_names get
versions_from_payload (obj answer) = elim (get "tag_name" answer) [
  | none ↦ []
  | some tag ↦ if truthy tag then text tag ∷ [] else []
]
versions_from_payload (arr entries) = entry_names (item_list entries)
versions_from_payload _ = []

-- `max(names, key=parse_version)` of a name and more names: the first of the greatest.
unfoldable pub latest : String → List String → String
latest best [] = best
latest best (name ∷ names) =
    latest (if version_lt (parse_version best) (parse_version name) then name else best) names

-- What one request gives: a value, "404", or any other failure.
pub data Fetched : Type 0 where
  body : Value → Fetched
  not_found unreachable : Fetched

-- The version, or the reason for none.
pub data Lookup : Type 0 where
  found : String → Lookup
  missing : String → Lookup

abbrev pub no_release : String
no_release = "no GitHub release yet"

abbrev without_v : String → String
without_v name = of_chars (lstrip_v (chars name))

-- The loop over the addresses, with the last error.
unfoldable pub lookup_urls : (String → Fetched) → String → List String → Lookup
unfolding lstrip_v
lookup_urls fetch last_error [] = missing last_error
lookup_urls fetch last_error (url ∷ urls) =
    let rest = lookup_urls fetch no_release urls in
    elim (fetch url) [
      | unreachable ↦ missing "GitHub unreachable"
      | not_found ↦ rest
      | body answer ↦ elim (versions_from_payload answer) [
        | [] ↦ rest
        | n ∷ ns ↦ found (without_v (latest n ns))
      ]
    ]

abbrev pub default_urls : List String
default_urls =
    "https://api.github.com/repos/BlackRainLabs/Corvus-Node/releases/latest"
    ∷ "https://api.github.com/repos/BlackRainLabs/Corvus-Node/tags" ∷ []

-- `fetch_github_lookup`, with the two environment variables stripped.
unfoldable pub fetch_github_lookup : (String → Fetched) → String → String → Lookup
fetch_github_lookup fetch skip override =
    if skip == "1"
    then missing "version check skipped"
    else lookup_urls fetch "GitHub unreachable"
        (if override == "" then default_urls else override ∷ [])

pub record VersionStatus : Type 0 where
  pub github : Option String
  pub channel : String
  pub update_available : Bool
  pub reason : String

abbrev status : Option String → String → Bool → String → VersionStatus
status github channel update reason = record {
  github = github;
  channel = channel;
  update_available = update;
  reason = reason;
}

-- `check_version`, after the lookup.
unfoldable pub check_version : Checkout → Lookup → VersionStatus
check_version tree (missing why) =
    let unreleased = local_unreleased tree none in
    status none (if unreleased || tree.is_source then "unreleased" else "unknown") false
      (if unreleased then "this build is not on GitHub yet" else why)
check_version tree (found g) =
    if local_unreleased tree (some g)
    then status (some g) "unreleased" false
        "this build is not on GitHub yet (local unreleased; wait for merge)"
    else if version_lt (parse_version local_version) (parse_version g)
    then (if tree.is_source
        then status (some g) "source" false
            "GitHub is newer; pull/merge the repo — corvus update is for the installed app"
        else status (some g) "release" true
            ("GitHub release " <> (g <> " is newer; corvus update")))
    else status (some g) "release" false "up to date with GitHub"

abbrev or_none : Option String → String
or_none (some g) = if g == "" then "(none)" else g
or_none none = "(none)"

-- `format_version_status`
unfoldable pub format_version_status : VersionStatus → String
unfolding join_with
format_version_status s =
    let lines =
      ("Version: " <> (local_version <> (" (" <> (s.channel <> ")"))))
      ∷ ("GitHub: " <> or_none s.github)
      ∷ ("Update: " <> s.reason)
      ∷ [] in
    join_with "\n" lines <> "\n"

-- `github_install_ref`
unfoldable pub github_install_ref : String → String
unfolding lstrip_v
github_install_ref tag =
    let ver = without_v tag in
    "https://github.com/"
    <> (github_repo
        <> ("/releases/download/v" <> (ver <> ("/corvus_node-" <> (ver <> "-py3-none-any.whl")))))
