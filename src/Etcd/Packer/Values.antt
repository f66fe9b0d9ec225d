-- ===== src/Etcd/Packer/Values.antt =====
-- `unpack_int`, `unpack_bool`, `unpack_string` and `unpack_to_string` of `etcd_packer`
-- (component/etcdcli/etcd_packer.cpp), for members of any type.
use atsf4g_co.Base.{ℤ, pos, Bool, true, false, not, none, some, [], ◌∷◌, if◌then◌else◌, is_zero}
use atsf4g_co.Etcd.Keepalive.{Text}
use atsf4g_co.Etcd.Packer.{
  Json, null, boolean, object, array, text, integer, real, Name, Object, find_member, IntType,
  t_int64, t_uint64, t_int, fits, Library, c_str,
}

module _ (l : Library) where
  -- `unpack_int`: as above, but a member of another type changes nothing
  pub unpack_int : IntType → Object → Name → ℤ → ℤ
  unpack_int ty json name out = elim (find_member name json) [
    | none ↦ pos 0
    | some val ↦ elim val [
      | integer n ↦ if fits ty n then n else out
      | text t ↦ l.str2int ty out (c_str t)
      | _ ↦ out
    ]
  ]

  -- `unpack_bool`
  pub unpack_bool : Object → Name → Bool → Bool
  unpack_bool json name out = elim (find_member name json) [
    | none ↦ false
    | some val ↦ elim val [
      | boolean b ↦ b
      | integer n ↦
          if fits t_uint64 n
          then not (is_zero n)
          else if fits t_int64 n
          then not (is_zero n)
          else out
      | text t ↦ not (is_zero (l.str2int t_int (pos 1) (c_str t)))
      | _ ↦ out
    ]
  ]

-- The strings that stand for values of other types
abbrev null_text : Text
null_text = b'n' ∷ (b'u' ∷ (b'l' ∷ (b'l' ∷ [])))

abbrev true_text : Text
true_text = b't' ∷ (b'r' ∷ (b'u' ∷ (b'e' ∷ [])))

abbrev false_text : Text
false_text = b'f' ∷ (b'a' ∷ (b'l' ∷ (b's' ∷ (b'e' ∷ []))))

-- "[object " and the rest
abbrev object_text : Text → Text
object_text rest = b'[' ∷ (b'o' ∷ (b'b' ∷ (b'j' ∷ (b'e' ∷ (b'c' ∷ (b't' ∷ (b' ' ∷ rest)))))))

-- `unpack_to_string`
pub unpack_to_string : Library → Json → Text
unpack_to_string l null = null_text
unpack_to_string l (boolean true) = true_text
unpack_to_string l (boolean false) = false_text
unpack_to_string l object =
    object_text (b'o' ∷ (b'b' ∷ (b'j' ∷ (b'e' ∷ (b'c' ∷ (b't' ∷ (b']' ∷ [])))))))
unpack_to_string l array = object_text (b'a' ∷ (b'r' ∷ (b'r' ∷ (b'a' ∷ (b'y' ∷ (b']' ∷ []))))))
unpack_to_string l (text t) = c_str t
unpack_to_string l (integer n) = l.print n
unpack_to_string l (real printed) = printed

-- `unpack_string`: the new contents, and the result
pub unpack_string : Library → Object → Name → Text → Text × Bool
unpack_string l json name val = elim (find_member name json) [
  | none ↦ (val, false)
  | some v ↦ (unpack_to_string l v, true)
]
