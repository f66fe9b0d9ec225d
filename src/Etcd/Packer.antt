-- ===== src/Etcd/Packer.antt =====
-- How keys, values and headers stand in the documents of etcd, `etcd_packer`
-- (component/etcdcli/etcd_packer.cpp, etcd_def.h). Base64, the reading of numbers from strings
-- (`str2int`) and the printing of numbers are of other libraries, and arguments here.
pub mod Values
pub mod Range
pub mod Trip
mod Examples
use atsf4g_co.Base.{
  ℕ, ◌+◌, ◌^◌, ℤ, pos, negsuc, Bool, true, false, not, ◌&&◌, Option, none, some, List, [], ◌∷◌,
  ◌++◌, ltb, ◌==◌, if◌then◌else◌, is_zero,
}
use atsf4g_co.Base.Lists.{reverse}
use atsf4g_co.Etcd.Keepalive.{Text, same_text}

-- A value of a document, as far as its type tests tell: an integer that fits 64 bits, or another
-- number.
pub data Json : Type 0 where
  null : Json
  boolean : Bool → Json
  object : Json
  array : Json
  text : Text → Json
  integer : ℤ → Json
  real : Text → Json

-- The names of the members
pub data Name : Type 0 where
  n_create_revision : Name
  n_mod_revision : Name
  n_version : Name
  n_lease : Name
  n_key : Name
  n_value : Name
  n_range_end : Name
  n_cluster_id : Name
  n_member_id : Name
  n_revision : Name
  n_raft_term : Name

abbrev name_code : Name → ℕ
name_code n_create_revision = 0
name_code n_mod_revision = 1
name_code n_version = 2
name_code n_lease = 3
name_code n_key = 4
name_code n_value = 5
name_code n_range_end = 6
name_code n_cluster_id = 7
name_code n_member_id = 8
name_code n_revision = 9
name_code n_raft_term = 10

-- The members of an object
abbrev pub Object : Type 0
Object = List (Name × Json)

-- `FindMember`
abbrev pub find_member : Name → Object → Option Json
find_member name [] = none
find_member name ((other, val) ∷ rest) =
    if name_code other == name_code name then some val else find_member name rest

-- `AddMember`
abbrev pub add_member : Object → Name → Json → Object
add_member json name val = json ++ ((name, val) ∷ [])

-- The types that numbers are read as
pub data IntType : Type 0 where
  t_int64 : IntType
  t_uint64 : IntType
  t_int : IntType

-- `IsInt64`, `IsUint64` and `IsInt`
abbrev pub fits : IntType → ℤ → Bool
fits t_int64 (pos n) = ltb n (2 ^ 63)
fits t_int64 (negsuc n) = ltb n (2 ^ 63)
fits t_uint64 (pos n) = ltb n (2 ^ 64)
fits t_uint64 (negsuc n) = false
fits t_int (pos n) = ltb n (2 ^ 31)
fits t_int (negsuc n) = ltb n (2 ^ 31)

-- `etcd_key_value`
pub record KeyValue : Type 0 where
  pub create_revision : ℤ
  pub mod_revision : ℤ
  pub version : ℤ
  pub lease : ℤ
  pub key : Text
  pub value : Text

-- `etcd_response_header`; the unsigned members are not negative.
pub record ResponseHeader : Type 0 where
  pub cluster_id : ℤ
  pub member_id : ℤ
  pub revision : ℤ
  pub raft_term : ℤ

-- The functions of the other libraries. `base64_decode` gives the new contents of the string, and
-- whether it returned 0; `str2int` gives the number that it stores for an old one.
pub record Library : Type 0 where
  pub base64_encode : Text → Text
  pub base64_decode : Text → Text → Text × Bool
  pub str2int : IntType → ℤ → Text → ℤ
  pub print : ℤ → Text

abbrev pub empty : Text → Bool
empty [] = true
empty (c ∷ rest) = false

-- What `strlen` leaves of a string
unfoldable pub c_str : Text → Text
c_str [] = []
c_str (c ∷ rest) = if c == 0 then [] else c ∷ c_str rest

module _ (l : Library) where
  -- `pack_base64`
  abbrev pub pack_base64 : Object → Name → Text → Object
  pack_base64 json name val = add_member json name (text (l.base64_encode val))

  -- A number, left out where it is 0
  abbrev pub pack_number : Name → ℤ → Object → Object
  pack_number name val json = if is_zero val then json else add_member json name (integer val)

  -- A string, left out where it is empty
  abbrev pub pack_text : Name → Text → Object → Object
  pack_text name val json = if empty val then json else pack_base64 json name val

  -- `pack(const etcd_key_value &)`
  pub pack_key_value : KeyValue → Object → Object
  pack_key_value kv json = pack_text n_value kv.value (
      pack_text n_key kv.key (
        pack_number n_lease kv.lease (
          pack_number n_version kv.version (
            pack_number n_mod_revision kv.mod_revision
              (pack_number n_create_revision kv.create_revision json)))))

  -- `pack(const etcd_response_header &)`
  pub pack_response_header : ResponseHeader → Object → Object
  pack_response_header h json = pack_number n_raft_term h.raft_term (
      pack_number n_revision h.revision
        (pack_number n_member_id h.member_id (pack_number n_cluster_id h.cluster_id json)))

  -- A number read from a member: 0 where it is missing or neither a number that fits nor a string
  pub read_number : IntType → ℤ → Option Json → ℤ
  read_number ty old none = pos 0
  read_number ty old (some (integer n)) = if fits ty n then n else pos 0
  read_number ty old (some (text t)) = l.str2int ty old (c_str t)
  read_number ty old (some other) = pos 0

  -- `unpack_base64`: the new contents, and the result
  pub unpack_base64 : Object → Name → Text → Text × Bool
  unpack_base64 json name val = elim (find_member name json) [
    | none ↦ (val, false)
    | some v ↦ elim v [ text t ↦ l.base64_decode val (c_str t) | _ ↦ (val, false) ]
  ]

  -- `unpack(etcd_key_value &)`
  pub unpack_key_value : KeyValue → Object → KeyValue
  unpack_key_value kv json = record {
    create_revision = read_number t_int64 kv.create_revision (find_member n_create_revision json);
    mod_revision = read_number t_int64 kv.mod_revision (find_member n_mod_revision json);
    version = read_number t_int64 kv.version (find_member n_version json);
    lease = read_number t_int64 kv.lease (find_member n_lease json);
    key = (unpack_base64 json n_key kv.key).0;
    value = (unpack_base64 json n_value kv.value).0;
  }

  -- `unpack(etcd_response_header &)`
  pub unpack_response_header : ResponseHeader → Object → ResponseHeader
  unpack_response_header h json = record {
    cluster_id = read_number t_uint64 h.cluster_id (find_member n_cluster_id json);
    member_id = read_number t_uint64 h.member_id (find_member n_member_id json);
    revision = read_number t_int64 h.revision (find_member n_revision json);
    raft_term = read_number t_uint64 h.raft_term (find_member n_raft_term json);
  }

  -- The loop of `pack_key_range`, over the string from its end: bytes 0xff are dropped, and the last
  -- other byte is increased.
  pub plus_one : Text → Text
  plus_one [] = []
  plus_one (c ∷ rest) = elim (c == 0xff) [ true ↦ plus_one rest | false ↦ (c + 1) ∷ rest ]

  -- `range_end` in `pack_key_range`, as it is packed. The string literal that is assigned where
  -- nothing is left, "\0", is the empty string.
  pub end_of_range : Text → Text → Text
  end_of_range key range_end =
      if same_text (43 ∷ (49 ∷ [])) range_end then reverse (plus_one (reverse key)) else range_end

  -- `pack_key_range`
  pub pack_key_range : Object → Text → Text → Object
  pack_key_range json key range_end =
      pack_text n_range_end (end_of_range key range_end) (pack_text n_key key json)
