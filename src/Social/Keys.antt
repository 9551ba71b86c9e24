-- ===== src/Social/Keys.antt =====
-- The keys and paths of social-web3/contract/src/api.rs.
use Prim.Native.Char.{Char, code}
use Prim.Native.String.{String}
use contract_new_project_tem.Prelude.{
  ℕ, Option, none, some, Bool, true, false, ◌&&◌, ◌||◌, List, [], ◌∷◌, Action, require, leb, ◌==◌,
  if◌then◌else◌, length,
}
use contract_new_project_tem.Prelude.Dict.{codes, same}
use contract_new_project_tem.Social.State.{Contract, empty_key}

abbrev pub max_key_length : ℕ
max_key_length = 256

abbrev pub between : ℕ → ℕ → ℕ → Bool
between a b c = leb a c && leb c b

-- Letters, digits, `_`, `.` and `-`.
abbrev pub is_key_byte : ℕ → Bool
is_key_byte c =
    between 97 122 c || between 65 90 c || between 48 57 c || c == 95 || c == 46 || c == 45

abbrev pub all_key_bytes : List ℕ → Bool
all_key_bytes [] = true
all_key_bytes (c ∷ cs) = is_key_byte c && all_key_bytes cs

-- The length in bytes is the one in characters where the bytes pass.
unfoldable pub is_key_valid : String → Bool
is_key_valid key = leb (length (codes key)) max_key_length && all_key_bytes (codes key)

abbrev pub assert_key_valid : String → Action Contract (Unit {0})
assert_key_valid key =
    require (is_key_valid key) "Key contains invalid character or longer than 256"

-- `/`.
abbrev pub separator : ℕ
separator = 47

abbrev pub push : Char → List String → List String
push c [] = String.◌∷◌ c String.[] ∷ []
push c (w ∷ ws) = String.◌∷◌ c w ∷ ws

-- `key.split(SEPARATOR)`, which yields one part at least.
unfoldable pub split : String → List String
split String.[] = String.[] ∷ []
split (String.◌∷◌ c s) =
    let rest = split s in if code c == separator then String.[] ∷ rest else push c rest

abbrev pub star : String
star = "*"

abbrev pub recursive_star : String
recursive_star = "**"

abbrev pub is_last : List String → Bool
is_last [] = true
is_last (k ∷ ks) = false

abbrev pub last : List String → Option String
last [] = none
last (k ∷ []) = some k
last (k ∷ (j ∷ ks)) = last (j ∷ ks)

abbrev pub pop : List String → List String
pop [] = []
pop (k ∷ []) = []
pop (k ∷ (j ∷ ks)) = k ∷ pop (j ∷ ks)

abbrev pub ends_empty : List String → Bool
ends_empty path = elim (last path) [ none ↦ false | some k ↦ same k empty_key ]

-- The path of a pattern less one `/` at its end, and no path where there are two.
unfoldable pub path_of : String → List String
path_of key =
    let path = split key in
    if ends_empty path then (if ends_empty (pop path) then [] else pop path) else path
