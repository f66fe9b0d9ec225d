-- ===== src/Etcd/Module/Examples.antt =====
-- A node that tells of itself, and the start and stop of its `etcd_module`.
use atsf4g_co.Base.{
  ℕ, ◌≡◌, refl, ◌⊎◌, pos, negsuc, Option, true, false, none, some, List, [], ◌∷◌, ◌++◌, map, arith,
  if◌then◌else◌, ◌==◌,
}
use atsf4g_co.Proxy.{unknown}
use atsf4g_co.Etcd.Keepalive as K
use atsf4g_co.Etcd.Keepalive.{Text}
use atsf4g_co.Etcd.Packer.{KeyValue, c_str, end_of_range}
use atsf4g_co.Etcd.Packer as P
use atsf4g_co.Etcd.Packer.Range.{in_range, is_prefix, plus_1, IsBytes}
use atsf4g_co.Etcd.Watcher as W
use atsf4g_co.Etcd.Watcher.{Watcher}
use atsf4g_co.Etcd.Cluster as C
use atsf4g_co.Etcd.Cluster.{Env, Kept, Cluster, codes, is_empty}
use atsf4g_co.Etcd.Module.{
  Node, Library, members_of, Event, unpack, notify_one, cleared, n_id, unsigned,
}
use atsf4g_co.Etcd.Module.Trip.{
  IsPlain, IsPrinted, EachTells, EachIsWhole, heard, announced-heard, refused-heard,
}
use atsf4g_co.Etcd.Module.Paths.{
  Self, by_type_id_path, by_type_name_path, by_tag_path, by_type_id_watcher_path,
  by_type_name_watcher_path, by_tag_watcher_path, watched-prefix,
}
use atsf4g_co.Etcd.Module.Start.{Module, Conf, Answers, stop, http_callback_on_etcd_closed}
use atsf4g_co.Etcd.Module.Watchers.{Watching, given, add_each, add_each-once}
use atsf4g_co.Etcd.Module.Start.Ends.{IsGone, stop-ends}

abbrev gateway : Node
gateway = record {
  id = 17;
  name = codes "gw-17";
  hostname = codes "h1";
  listens = codes "ipv4://0.0.0.0:7000" ∷ (codes "unix:///tmp/s" ∷ []);
  hash_code = codes "ab";
  type_id = 3;
  type_name = codes "gw";
  version = codes "1.2";
  custom_data = codes "x";
  protocol_version = 2;
  protocol_min_version = 1;
  action = unknown;
}

-- One text stands for the document of the gateway, the other for one that has an id only.
abbrev library : Library
library = record {
  stringify = λ o. codes "g";
  parse = λ t. if is_empty t then none else elim t [
    | [] ↦ none
    | c ∷ rest ↦ if c == b'g' then some (members_of gateway) else some ((n_id, unsigned 9) ∷ [])
  ];
  str2int = λ old t. 5;
}

abbrev kv_of : Text → KeyValue
kv_of v = record {
  create_revision = pos 0;
  mod_revision = pos 0;
  version = pos 0;
  lease = pos 0;
  key = codes "/by_id/17";
  value = v;
}

abbrev put_event : Event
put_event = record { is_delete = false; kv = kv_of (codes "g"); prev_kv = kv_of [] }

abbrev delete_event : Event
delete_event = record { is_delete = true; kv = kv_of []; prev_kv = kv_of (codes "g") }

abbrev short_event : Event
short_event = record { is_delete = false; kv = kv_of (codes "s"); prev_kv = kv_of [] }

gateway-IsPlain : IsPlain gateway
unfolding c_str EachIsWhole
gateway-IsPlain = record {
  known = refl;
  name = refl;
  hostname = refl;
  listens = (refl, (refl, tt));
  hash_code = refl;
  type_name = refl;
  version = refl;
  custom_data = refl;
}

gateway-IsPrinted : IsPrinted library gateway
unfolding c_str
gateway-IsPrinted = record { not_empty = refl; read_back = refl }

announced-heard_example :
    notify_one library (put_event ∷ (delete_event ∷ []))
    ≡ map (heard library) ((gateway, false) ∷ ((gateway, true) ∷ []))
unfolding EachTells
announced-heard_example =
    announced-heard library ((gateway, false) ∷ ((gateway, true) ∷ []))
      (put_event ∷ (delete_event ∷ []))
      (
        record {
          plain = gateway-IsPlain;
          printed = gateway-IsPrinted;
          action = refl;
          value = refl;
          emptied = refl;
        },
        (
          record {
            plain = gateway-IsPlain;
            printed = gateway-IsPrinted;
            action = refl;
            value = refl;
            emptied = refl;
          },
          tt,
        ),
      )

refused-heard_example :
    ((unpack library cleared (codes "/by_id/17") (codes "s") true).1 ≡ false)
    × ((m : Node) × (notify_one library (short_event ∷ (put_event ∷ []))
          ≡ m ∷ notify_one library (put_event ∷ []))
        × (m.id ≡ 9))
unfolding c_str
refused-heard_example =
    refused-heard library short_event (put_event ∷ []) ((n_id, unsigned 9) ∷ []) 9 refl refl refl
      refl refl

abbrev self : Self
self = record {
  id = codes "17";
  type_id = codes "31";
  type_name = codes "game2";
  app_name = codes "gw-17";
}

abbrev packer : P.Library
packer = record {
  base64_encode = λ t. t;
  base64_decode = λ old t. (t, true);
  str2int = λ ty old t. old;
  print = λ n. [];
}

watched-prefix_example :
    let watches =
      λ (key : Text) (path : Text). in_range key (end_of_range packer key plus_1) path in
    let game = codes "game" in
    let asked = λ (t : Text). is_prefix game (t ++ codes "/17") in
    (watches (by_type_id_watcher_path (codes "/") game) (by_type_id_path (codes "/") self)
      ≡ asked (codes "31"))
    × (watches (by_type_name_watcher_path (codes "/") game) (by_type_name_path (codes "/") self)
        ≡ asked (codes "game2"))
    × (watches (by_tag_watcher_path (codes "/") game) (by_tag_path (codes "/") self (codes "t"))
        ≡ asked (codes "t"))
unfolding IsBytes
watched-prefix_example =
    watched-prefix packer (codes "/") (codes "game") (codes "t") self (ground arith) (ground arith)
      (ground arith)

abbrev good : Env
good = record {
  now = 100;
  created = λ n. true;
  start_result = λ n. pos 0;
  pick = λ n hs. codes "http://a";
}

abbrev answers : Answers ℕ
answers = record {
  env = good;
  curl_init = pos 0;
  creates_multi = true;
  rounds = record { env = good; calls = []; is_timeout = true } ∷ [];
  closing_calls = [];
}

abbrev keys : ℕ → Kept
keys i = record { path = []; keep = K.create }

abbrev watchers : ℕ → Watcher ℕ
watchers i = W.create

abbrev fresh : Module ℕ
fresh = record {
  cluster = record (C.create keys watchers) { conf_hosts = codes "http://a" ∷ [] };
  curl_multi = false;
  cleanup_request = false;
  next_key = 0;
}

abbrev leased : Module ℕ
leased = record fresh {
  cluster = record fresh.cluster {
    has_multi = true;
    running = true;
    lease = 7;
    path_node = codes "http://a";
    keepalive_actors = 1 ∷ [];
  };
  curl_multi = true;
  next_key = 2;
}

stop-ends_example :
    (((stop answers leased).1 ≡ 0) × IsGone (stop answers leased).0)
    ⊎ (((stop answers leased).1 ≡ 1)
        × ((stop answers (http_callback_on_etcd_closed answers (stop answers leased).0)).1 ≡ 0)
        × IsGone (stop answers (http_callback_on_etcd_closed answers (stop answers leased).0)).0)
stop-ends_example = stop-ends answers answers leased refl

abbrev conf : Conf
conf = record {
  path_prefix = codes "/";
  report_alive_by_id = true;
  report_alive_by_type = true;
  report_alive_by_name = false;
  report_alive_by_tag = codes "t" ∷ ([] ∷ []);
  app = self;
  packed = codes "g";
}

-- Functions stand as numbers; the second is empty.
abbrev watching : Watching ℕ ℕ
watching = record {
  cluster = fresh.cluster;
  paths = λ j. [];
  handlers = λ j. none;
  by_id_callbacks = [];
  by_name_callbacks = [];
  next_watcher = 4;
}

abbrev functions : List (Option ℕ)
functions = some 1 ∷ (none ∷ (some 2 ∷ []))

add_each-once_example :
    let after = add_each good (negsuc 0) (codes "/") 15 functions watching in
    (after.by_id_callbacks ≡ [] ++ given functions) × (after.cluster.watcher_actors ≡ 4 ∷ [])
unfolding C.create given
add_each-once_example = add_each-once good (negsuc 0) (codes "/") 15 functions watching refl refl
