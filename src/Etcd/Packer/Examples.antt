-- ===== src/Etcd/Packer/Examples.antt =====
-- The packer at concrete values, with a coding that adds 1 to each character.
use atsf4g_co.Base.{◌-◌, ◌+◌, pos, negsuc, true, ◌≡◌, refl, ap, [], ◌∷◌, arith}
use atsf4g_co.Etcd.Keepalive.{Text}
use atsf4g_co.Etcd.Packer.{KeyValue, Library, c_str, end_of_range, pack_key_value, unpack_key_value}
use atsf4g_co.Etcd.Packer.Trip.{Base64Inverse, pack-unpack_key_value}
use atsf4g_co.Etcd.Packer.Range.{plus_1, IsBytes, all_ff, in_range, is_prefix, range-prefix}

abbrev encode : Text → Text
encode [] = []
encode (c ∷ rest) = (c + 1) ∷ encode rest

abbrev decode : Text → Text
decode [] = []
decode (c ∷ rest) = (c - 1) ∷ decode rest

abbrev library : Library
library = record {
  base64_encode = encode;
  base64_decode = λ old t. (decode t, true);
  str2int = λ ty old t. pos 0;
  print = λ n. [];
}

decode-encode : (t : Text) → decode (c_str (encode t)) ≡ t
unfolding c_str
decode-encode [] = refl
decode-encode (c ∷ rest) = ground (arith, decode-encode rest)

inverse : Base64Inverse library
inverse old t = ap (λ s. (s, true)) (decode-encode t)

abbrev old : KeyValue
old = record {
  create_revision = pos 3;
  mod_revision = pos 4;
  version = pos 1;
  lease = pos 9;
  key = 1 ∷ [];
  value = 2 ∷ [];
}

abbrev packed : KeyValue
packed = record {
  create_revision = pos 7;
  mod_revision = pos 8;
  version = pos 0;
  lease = negsuc 4;
  key = 97 ∷ (98 ∷ []);
  value = [];
}

pack-unpack_key_value_example :
    unpack_key_value library old (pack_key_value library packed [])
    ≡ record packed { value = 2 ∷ [] }
pack-unpack_key_value_example = pack-unpack_key_value library old packed inverse refl refl refl refl

range-prefix_example :
    in_range
      (97 ∷ (255 ∷ []))
      (end_of_range library (97 ∷ (255 ∷ [])) plus_1)
      (97 ∷ (255 ∷ (3 ∷ [])))
    ≡ is_prefix (97 ∷ (255 ∷ [])) (97 ∷ (255 ∷ (3 ∷ [])))
unfolding IsBytes all_ff
range-prefix_example =
    range-prefix library (97 ∷ (255 ∷ [])) (97 ∷ (255 ∷ (3 ∷ []))) (omega arith) refl
