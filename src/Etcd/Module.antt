-- ===== src/Etcd/Module.antt =====
-- What the nodes tell of themselves in etcd, and what is made of the events about them, `etcd_module`
-- (component/modules/etcd_module.h, etcd_module.cpp). The JSON library and `str2int` are arguments.
pub mod Trip
pub mod Paths
pub mod Start
pub mod Watchers
mod Examples
use atsf4g_co.Base.{
  ℕ, Bool, true, false, not, ◌||◌, Option, none, some, List, [], ◌∷◌, ◌++◌, map, ◌==◌,
  if◌then◌else◌,
}
use atsf4g_co.Proxy.{Action, unknown, put, delete}
use atsf4g_co.Etcd.Keepalive.{Text}
use atsf4g_co.Etcd.Packer.{KeyValue, c_str}
use atsf4g_co.Etcd.Cluster.{is_empty}

-- `node_info_t`; the numbers are 64-bit.
pub record Node : Type 0 where
  pub id : ℕ
  pub name : Text
  pub hostname : Text
  pub listens : List Text
  pub hash_code : Text
  pub type_id : ℕ
  pub type_name : Text
  pub version : Text
  pub custom_data : Text
  pub protocol_version : ℕ
  pub protocol_min_version : ℕ
  pub action : Action

-- A value of a document, as far as its type tests tell: a number of 64 bits without a sign, a string,
-- an array with its strings, `none` for another element, or something else
pub data Json : Type 0 where
  unsigned : ℕ → Json
  text : Text → Json
  array : List (Option Text) → Json
  other : Json

-- The names of the members
pub data Name : Type 0 where
  n_id n_name n_hostname n_listen n_hash_code n_type_id n_type_name n_version n_custom_data : Name
  n_protocol_version n_protocol_min_version : Name

abbrev name_code : Name → ℕ
name_code n_id = 0
name_code n_name = 1
name_code n_hostname = 2
name_code n_listen = 3
name_code n_hash_code = 4
name_code n_type_id = 5
name_code n_type_name = 6
name_code n_version = 7
name_code n_custom_data = 8
name_code n_protocol_version = 9
name_code n_protocol_min_version = 10

abbrev pub Object : Type 0
Object = List (Name × Json)

-- `FindMember`
abbrev pub find_member : Name → Object → Option Json
find_member m [] = none
find_member m ((n, val) ∷ rest) =
    let more = find_member m rest in if name_code n == name_code m then some val else more

-- The writer of rapidjson, `parse_object`, which gives nothing for a text that is no object, and
-- `str2int`, which gives the number that it stores for an old one
pub record Library : Type 0 where
  pub stringify : Object → Text
  pub parse : Text → Option Object
  pub str2int : ℕ → Text → ℕ

-- The document of `pack`
unfoldable pub members_of : Node → Object
members_of src =
    let custom : Object =
      if is_empty src.custom_data then [] else (n_custom_data, text src.custom_data) ∷ [] in
    ((n_id, unsigned src.id)
      ∷ ((n_name, text src.name)
          ∷ ((n_hostname, text src.hostname)
              ∷ ((n_listen, array (map some src.listens))
                  ∷ ((n_hash_code, text src.hash_code)
                      ∷ ((n_type_id, unsigned src.type_id)
                          ∷ ((n_type_name, text src.type_name)
                              ∷ ((n_version, text src.version) ∷ []))))))))
    ++ (custom
        ++ ((n_protocol_version, unsigned src.protocol_version)
            ∷ ((n_protocol_min_version, unsigned src.protocol_min_version) ∷ [])))

-- What the members have after `reset_data`
abbrev pub cleared : Node
cleared = record {
  id = 0;
  name = [];
  hostname = [];
  listens = [];
  hash_code = [];
  type_id = 0;
  type_name = [];
  version = [];
  custom_data = [];
  protocol_version = 0;
  protocol_min_version = 0;
  action = unknown;
}

-- The id, without which nothing is read
unfoldable pub read_id : Node → Option Json → Node × Bool
read_id out none = (out, false)
read_id out (some (unsigned n)) = (record out { id = n }, true)
read_id out (some val) = (record out { id = 0 }, false)

-- A string: one of another type ends the reading, and so does one that is missing, if it is required.
unfoldable pub read_text : Node × Bool → Bool → (Node → Text → Node) → Option Json → Node × Bool
read_text (out, false) required store m = (out, false)
read_text (out, true) required store none = (out, not required)
read_text (out, true) required store (some (text t)) = (store out (c_str t), true)
read_text (out, true) required store (some val) = (out, false)

-- The members whose type does not end the reading: the strings of an array, a number, or 0, and the
-- custom data
unfoldable pub strings_of : List (Option Text) → List Text
strings_of [] = []
strings_of (none ∷ vs) = strings_of vs
strings_of (some t ∷ vs) = c_str t ∷ strings_of vs

unfoldable pub read_listens : List Text → Option Json → List Text
read_listens old (some (array vs)) = old ++ strings_of vs
read_listens old m = old

unfoldable pub read_number : ℕ → Option Json → ℕ
read_number old none = old
read_number old (some (unsigned n)) = n
read_number old (some val) = 0

unfoldable pub read_custom : Text → Option Json → Text
read_custom old (some (text t)) = c_str t
read_custom old m = old

-- The members behind the version
unfoldable pub read_rest : Node × Bool → Object → Node × Bool
read_rest (out, false) json = (out, false)
read_rest (out, true) json = (
  record out {
    custom_data = read_custom out.custom_data (find_member n_custom_data json);
    protocol_version = read_number 0 (find_member n_protocol_version json);
    protocol_min_version = read_number 0 (find_member n_protocol_min_version json);
  },
  true,
)

unfoldable pub with_listens : Object → Node × Bool → Node × Bool
with_listens json (out, ok) = (
  if ok then record out { listens = read_listens out.listens (find_member n_listen json) } else out,
  ok,
)

unfoldable pub with_type_id : Object → Node × Bool → Node × Bool
with_type_id json (out, ok) = (
  if ok then record out { type_id = read_number out.type_id (find_member n_type_id json) } else out,
  ok,
)

-- `unpack` for a document: the node, and the result
unfoldable pub read_node : Node → Object → Node × Bool
read_node out json =
    let r = read_id out (find_member n_id json) in
    let r = read_text r true (λ n t. record n { name = t }) (find_member n_name json) in
    let r = read_text r false (λ n t. record n { hostname = t }) (find_member n_hostname json) in
    let r = with_listens json r in
    let r = read_text r false (λ n t. record n { hash_code = t }) (find_member n_hash_code json) in
    let r = with_type_id json r in
    let r = read_text r false (λ n t. record n { type_name = t }) (find_member n_type_name json) in
    let r = read_text r true (λ n t. record n { version = t }) (find_member n_version json) in
    read_rest r json

-- What stands behind the last separator of a path
abbrev is_separator : ℕ → Bool
is_separator c =
    (c == b'/' || c == b'\\') || ((c == b' ' || c == b'\t') || (c == b'\r' || c == b'\n'))

unfoldable pub last_part : Text → Text → Text
last_part part [] = part
last_part part (c ∷ rest) = last_part (if is_separator c then rest else part) rest

-- `event_t` of `etcd_watcher`
pub record Event : Type 0 where
  pub is_delete : Bool
  pub kv : KeyValue
  pub prev_kv : KeyValue

-- The action of a node that is known
unfoldable pub mark : Event → Node → Option Node
mark e node =
    if node.id == 0
    then none
    else some (record node { action = if e.is_delete then delete else put })

module _ (l : Library) where
  -- `pack`
  abbrev pub pack : Node → Text
  pack src = l.stringify (members_of src)

  -- `unpack`
  unfoldable pub unpack : Node → Text → Text → Bool → Node × Bool
  unpack out path json reset_data =
      let out1 = if reset_data then cleared else out in
      let part = last_part path path in
      if is_empty json
      then (
        if is_empty part then out1 else record out1 { id = l.str2int out1.id (c_str part) },
        false,
      )
      else elim (l.parse (c_str json)) [ none ↦ (out1, true) | some doc ↦ read_node out1 doc ]

  -- The node of an event, `none` where its id is 0. What `unpack` returns is not looked at.
  unfoldable pub node_of : Event → Option Node
  node_of e =
      let value = if is_empty e.kv.value then e.prev_kv.value else e.kv.value in
      mark e (unpack cleared e.kv.key value true).0

  -- `watcher_callback_one_wrapper_t::operator()`: the nodes that the callback gets
  unfoldable pub notify_one : List Event → List Node
  notify_one [] = []
  notify_one (e ∷ es) = elim (node_of e) [ none ↦ notify_one es | some n ↦ n ∷ notify_one es ]

  -- `watcher_callback_list_wrapper_t::operator()`: the calls of the callbacks, less those that are
  -- empty
  unfoldable pub call_all : {C : Type 0} → List (Option C) → Node → List (C × Node)
  call_all [] n = []
  call_all (none ∷ cs) n = call_all cs n
  call_all (some c ∷ cs) n = (c, n) ∷ call_all cs n

  unfoldable pub notify_list : {C : Type 0} → List (Option C) → List Event → List (C × Node)
  notify_list callbacks [] = []
  notify_list callbacks (e ∷ es) = elim (node_of e) [
    | none ↦ notify_list callbacks es
    | some n ↦ call_all callbacks n ++ notify_list callbacks es
  ]
