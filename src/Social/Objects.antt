-- ===== src/Social/Objects.antt =====
-- The JSON maps of social-web3/contract/src/api.rs that `get` and `keys` fill: the entry functions
-- `json_map_...`, and what they make of the value of a node.
use Prim.Native.Char.{code}
use Prim.Native.String.{String}
use contract_new_project_tem.Prelude.{
  ℕ, ◌+◌, Bool, true, false, Option, none, some, ltb, ◌==◌, if◌then◌else◌,
}
use contract_new_project_tem.Prelude.Dict.{same}
use contract_new_project_tem.Social.State.{
  NodeValue, value, node, deleted_entry, empty_key, Json, null, boolean, number, string, array,
  object, Fields, end, field,
}

pub record GetOptions : Type 0 where
  pub with_block_height : Option Bool
  pub with_node_id : Option Bool
  pub return_deleted : Option Bool

abbrev pub key_block_height : String
key_block_height = ":block"

abbrev pub key_node_id : String
key_node_id = ":node"

-- `== Some(true)`.
abbrev pub is_true : Option Bool → Bool
is_true none = false
is_true (some b) = b

unfoldable pub find_field : String → Fields → Option Json
find_field k end = none
find_field k (field j v fs) = if same j k then some v else find_field k fs

unfoldable pub put_field : String → Json → Fields → Fields
put_field k v end = field k v end
put_field k v (field j w fs) = if same j k then field j v fs else field j w (put_field k v fs)

-- The map that `json_map_get_inner_object` lends; the caller puts it back under the key.
abbrev pub lent : Option Json → Fields
lent none = end
lent (some (object fs)) = fs
lent (some null) = field empty_key null end
lent (some (boolean b)) = field empty_key (boolean b) end
lent (some (number n)) = field empty_key (number n) end
lent (some (string t)) = field empty_key (string t) end
lent (some (array xs)) = field empty_key (array xs) end

unfoldable pub json_map_get_inner_object : String → Fields → Fields
json_map_get_inner_object key res = lent (find_field key res)

-- The entry under a key after `json_map_set_value`.
abbrev pub given : Json → Option Json → Json
given v none = v
given v (some (object fs)) = object (put_field empty_key v fs)
given v (some null) = null
given v (some (boolean b)) = boolean b
given v (some (number n)) = number n
given v (some (string t)) = string t
given v (some (array xs)) = array xs

unfoldable pub json_map_set_value : String → Json → Fields → Fields
json_map_set_value key v res = put_field key (given v (find_field key res)) res

-- The text of a value; a deleted one shows as null on request.
abbrev pub shown : GetOptions → NodeValue → Option Json
shown o (value v) = some (string v.content)
shown o (node id) = none
shown o (deleted_entry h) = if is_true o.return_deleted then some null else none

abbrev pub height_of : NodeValue → ℕ
height_of (value v) = v.block_height
height_of (node id) = 0
height_of (deleted_entry h) = h

abbrev pub with_height : GetOptions → ℕ → Json → Json
with_height o height v =
    if is_true o.with_block_height
    then object (field key_block_height (number height) (field empty_key v end))
    else v

abbrev pub vacant : GetOptions → String → NodeValue → Option Json → Fields
vacant o key v none = end
vacant o key v (some json) = field key (with_height o (height_of v) json) end

-- `json_map_set_key`.
unfoldable mutual
  pub json_map_set_key : GetOptions → NodeValue → String → Fields → Fields
  json_map_set_key o v key end = vacant o key v (shown o v)
  json_map_set_key o v key (field j w fs) =
      let inner = set_key_inside o v w in
      let rest = json_map_set_key o v key fs in
      if same j key then field j inner fs else field j w rest

  pub set_key_inside : GetOptions → NodeValue → Json → Json
  set_key_inside o v (object fs) = object (json_map_set_key o v empty_key fs)
  set_key_inside o v null = null
  set_key_inside o v (boolean b) = boolean b
  set_key_inside o v (number n) = number n
  set_key_inside o v (string t) = string t
  set_key_inside o v (array xs) = array xs

-- A key such as `:block`.
abbrev pub is_special : String → Bool
is_special String.[] = false
is_special (String.◌∷◌ c s) = code c == 58

abbrev pub number_of_fields : Fields → ℕ
number_of_fields end = 0
number_of_fields (field k v fs) = 1 + number_of_fields fs

abbrev pub number_of_special : Fields → ℕ
number_of_special end = 0
number_of_special (field k v fs) = (if is_special k then 1 else 0) + number_of_special fs

-- Whether a map that was cleaned up holds more than special keys.
abbrev pub has_values : Fields → Bool
has_values fs = ltb (number_of_special fs) (number_of_fields fs)

abbrev pub is_kept : Json → Bool
is_kept (object fs) = has_values fs
is_kept null = true
is_kept (boolean b) = true
is_kept (number n) = true
is_kept (string t) = true
is_kept (array xs) = true

-- `json_map_recursive_cleanup`.
unfoldable mutual
  pub json_map_recursive_cleanup : Fields → Fields
  json_map_recursive_cleanup end = end
  json_map_recursive_cleanup (field k v fs) =
      let rest = json_map_recursive_cleanup fs in
      let inner = cleanup_inside v in
      if is_special k then field k v rest else if is_kept inner then field k inner rest else rest

  pub cleanup_inside : Json → Json
  cleanup_inside (object fs) = object (json_map_recursive_cleanup fs)
  cleanup_inside null = null
  cleanup_inside (boolean b) = boolean b
  cleanup_inside (number n) = number n
  cleanup_inside (string t) = string t
  cleanup_inside (array xs) = array xs
