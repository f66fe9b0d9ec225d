-- ===== src/Etcd/Packer/Trip.antt =====
-- What `unpack` reads of what `pack` wrote.
use atsf4g_co.Base.{
  ℤ, true, ◌≡◌, refl, ap, ◌∙◌, Option, none, some, [], ◌∷◌, ◌++◌, ◌==◌, if◌then◌else◌, is_zero,
  arith,
}
use atsf4g_co.Etcd.Keepalive.{Text}
use atsf4g_co.Etcd.Packer.{
  Json, text, integer, Name, name_code, n_create_revision, n_mod_revision, n_version, n_lease,
  n_key, n_value, n_cluster_id, n_member_id, n_revision, n_raft_term, Object, find_member, IntType,
  t_int64, t_uint64, fits, KeyValue, ResponseHeader, Library, empty, c_str, pack_number, pack_text,
  pack_key_value, pack_response_header, read_number, unpack_base64, unpack_key_value,
  unpack_response_header,
}

-- The first of two values that is there
abbrev or_else : Option Json → Option Json → Option Json
or_else none b = b
or_else (some a) b = some a

or_else-none : (a : Option Json) → or_else a none ≡ a
or_else-none none = refl
or_else-none (some a) = refl

-- Decoding what was encoded, and ended by `strlen`, succeeds and gives it back.
abbrev pub Base64Inverse : Library → Type 0
Base64Inverse l = (old t : Text) → l.base64_decode old (c_str (l.base64_encode t)) ≡ (t, true)

find_member-add :
    (n m : Name) (v : Json) (json : Object)
    → find_member n (json ++ ((m, v) ∷ []))
      ≡ or_else (find_member n json) (if name_code m == name_code n then some v else none)
find_member-add n m v [] = ground arith
find_member-add n m v ((k, x) ∷ rest) = ground (arith, find_member-add n m v rest)

module _ (l : Library) where
  find_member-number :
      (n m : Name) (v : ℤ) (json : Object)
      → find_member n (pack_number l m v json)
        ≡ or_else (find_member n json) (
            if name_code m == name_code n
            then (if is_zero v then none else some (integer v))
            else none)
  find_member-number n m v json = ground (arith, find_member-add n m (integer v) json)

  find_member-text :
      (n m : Name) (v : Text) (json : Object)
      → find_member n (pack_text l m v json)
        ≡ or_else (find_member n json) (
            if name_code m == name_code n
            then (if empty v then none else some (text (l.base64_encode v)))
            else none)
  find_member-text n m v json = ground (arith, find_member-add n m (text (l.base64_encode v)) json)

  read_number-packed :
      (ty : IntType) (old v : ℤ)
      → fits ty v ≡ true
      → read_number l ty old (if is_zero v then none else some (integer v)) ≡ v
  unfolding read_number
  read_number-packed ty old v h = ground arith

  number :
      (ty : IntType) (old v : ℤ) (json : Object) (name : Name)
      → fits ty v ≡ true
      → find_member name json ≡ (if is_zero v then none else some (integer v))
      → read_number l ty old (find_member name json) ≡ v
  number ty old v json name h e = ap (read_number l ty old) e ∙ read_number-packed ty old v h

  key_value-members :
      (kv : KeyValue)
      → (find_member n_create_revision (pack_key_value l kv [])
          ≡ (if is_zero kv.create_revision then none else some (integer kv.create_revision)))
        × (find_member n_mod_revision (pack_key_value l kv [])
            ≡ (if is_zero kv.mod_revision then none else some (integer kv.mod_revision)))
        × (find_member n_version (pack_key_value l kv [])
            ≡ (if is_zero kv.version then none else some (integer kv.version)))
        × (find_member n_lease (pack_key_value l kv [])
            ≡ (if is_zero kv.lease then none else some (integer kv.lease)))
        × (find_member n_key (pack_key_value l kv [])
            ≡ (if empty kv.key then none else some (text (l.base64_encode kv.key))))
        × (find_member n_value (pack_key_value l kv [])
            ≡ (if empty kv.value then none else some (text (l.base64_encode kv.value))))
  unfolding pack_key_value
  key_value-members kv = (
    simp (find_member-number, find_member-text, or_else-none),
    simp (find_member-number, find_member-text, or_else-none),
    simp (find_member-number, find_member-text, or_else-none),
    simp (find_member-number, find_member-text, or_else-none),
    simp (find_member-number, find_member-text, or_else-none),
    simp (find_member-number, find_member-text),
  )

  response_header-members :
      (h : ResponseHeader)
      → (find_member n_cluster_id (pack_response_header l h [])
          ≡ (if is_zero h.cluster_id then none else some (integer h.cluster_id)))
        × (find_member n_member_id (pack_response_header l h [])
            ≡ (if is_zero h.member_id then none else some (integer h.member_id)))
        × (find_member n_revision (pack_response_header l h [])
            ≡ (if is_zero h.revision then none else some (integer h.revision)))
        × (find_member n_raft_term (pack_response_header l h [])
            ≡ (if is_zero h.raft_term then none else some (integer h.raft_term)))
  unfolding pack_response_header
  response_header-members h = (
    simp (find_member-number, or_else-none),
    simp (find_member-number, or_else-none),
    simp (find_member-number, or_else-none),
    simp find_member-number,
  )

  unpack_base64-packed :
      (json : Object) (name : Name) (old v : Text)
      → Base64Inverse l
      → find_member name json ≡ (if empty v then none else some (text (l.base64_encode v)))
      → (unpack_base64 l json name old).0 ≡ (if empty v then old else v)
  unfolding unpack_base64
  unpack_base64-packed json name old v inverse e =
      rw (unpack_base64, e) (ground (arith, inverse old v))

  -- What `unpack` reads from a document that `pack` made of a key value is that key value, whatever
  -- was in the target before, if its numbers are 64-bit integers and decoding inverts encoding; but
  -- where the packed key or value is empty, the target's own is left in its place.
  pub pack-unpack_key_value :
      (old kv : KeyValue)
      → Base64Inverse l
      → fits t_int64 kv.create_revision ≡ true
      → fits t_int64 kv.mod_revision ≡ true
      → fits t_int64 kv.version ≡ true
      → fits t_int64 kv.lease ≡ true
      → unpack_key_value l old (pack_key_value l kv []) ≡ record kv {
        key = if empty kv.key then old.key else kv.key;
        value = if empty kv.value then old.value else kv.value;
      }
  unfolding unpack_key_value
  pack-unpack_key_value old kv inverse c m v s =
      let (create_, mod_, version_, lease_, key_, value_) = key_value-members kv in
      let json = pack_key_value l kv [] in
      λ i. record {
        create_revision =
            number t_int64 old.create_revision kv.create_revision json n_create_revision c create_
              i;
        mod_revision = number t_int64 old.mod_revision kv.mod_revision json n_mod_revision m mod_ i;
        version = number t_int64 old.version kv.version json n_version v version_ i;
        lease = number t_int64 old.lease kv.lease json n_lease s lease_ i;
        key = unpack_base64-packed json n_key old.key kv.key inverse key_ i;
        value = unpack_base64-packed json n_value old.value kv.value inverse value_ i;
      }

  -- What `unpack` reads from a document that `pack` made of a response header is that header, if its
  -- members fit their types.
  pack-unpack_response_header :
      (old h : ResponseHeader)
      → fits t_uint64 h.cluster_id ≡ true
      → fits t_uint64 h.member_id ≡ true
      → fits t_int64 h.revision ≡ true
      → fits t_uint64 h.raft_term ≡ true
      → unpack_response_header l old (pack_response_header l h []) ≡ h
  unfolding unpack_response_header
  pack-unpack_response_header old h c m r t =
      let (cluster_, member_, revision_, raft_) = response_header-members h in
      let json = pack_response_header l h [] in
      λ i. record {
        cluster_id = number t_uint64 old.cluster_id h.cluster_id json n_cluster_id c cluster_ i;
        member_id = number t_uint64 old.member_id h.member_id json n_member_id m member_ i;
        revision = number t_int64 old.revision h.revision json n_revision r revision_ i;
        raft_term = number t_uint64 old.raft_term h.raft_term json n_raft_term t raft_ i;
      }
