-- ===== src/Etcd/Module/Paths.antt =====
-- Where the nodes stand in etcd and what the watchers watch, `etcd_module`
-- (component/modules/etcd_module.cpp). `Self` is what the application tells; it prints its numbers
-- itself.
use atsf4g_co.Base.{◌≡◌, refl, ◌∙◌, false, [], ◌∷◌, ◌++◌, ◌&&◌, arith}
use atsf4g_co.Etcd.Keepalive.{Text}
use atsf4g_co.Etcd.Packer.{end_of_range}
use atsf4g_co.Etcd.Packer as P
use atsf4g_co.Etcd.Packer.Range.{in_range, is_prefix, plus_1, IsBytes, all_ff, range-prefix}
use atsf4g_co.Etcd.Cluster.{codes}

-- `get_id`, `get_type_id`, `get_type_name` and `get_app_name`
pub record Self : Type 0 where
  pub id : Text
  pub type_id : Text
  pub type_name : Text
  pub app_name : Text

abbrev slash : Text
slash = codes "/"

module _ (prefix : Text) where
  -- `get_by_id_watcher_path` and the others that watchers use
  abbrev pub by_id_watcher_path : Text
  by_id_watcher_path = prefix ++ codes "by_id"

  abbrev pub by_type_id_watcher_path : Text → Text
  by_type_id_watcher_path type_id = prefix ++ (codes "by_type_id/" ++ type_id)

  abbrev pub by_type_name_watcher_path : Text → Text
  by_type_name_watcher_path type_name = prefix ++ (codes "by_type_name/" ++ type_name)

  abbrev pub by_name_watcher_path : Text
  by_name_watcher_path = prefix ++ codes "by_name"

  abbrev pub by_tag_watcher_path : Text → Text
  by_tag_watcher_path tag = prefix ++ (codes "by_tag/" ++ tag)

  -- `get_by_id_path` and the others that a node tells of itself at
  abbrev pub by_id_path : Self → Text
  by_id_path app = prefix ++ (codes "by_id/" ++ app.id)

  abbrev pub by_type_id_path : Self → Text
  by_type_id_path app = prefix ++ (codes "by_type_id/" ++ (app.type_id ++ (slash ++ app.id)))

  abbrev pub by_type_name_path : Self → Text
  by_type_name_path app = prefix ++ (codes "by_type_name/" ++ (app.type_name ++ (slash ++ app.id)))

  abbrev pub by_name_path : Self → Text
  by_name_path app = prefix ++ (codes "by_name/" ++ app.app_name)

  abbrev pub by_tag_path : Self → Text → Text
  by_tag_path app tag = prefix ++ (codes "by_tag/" ++ (tag ++ (slash ++ app.id)))

is_prefix-append : (p a b : Text) → is_prefix (p ++ a) (p ++ b) ≡ is_prefix a b
is_prefix-append [] a b = refl
is_prefix-append (c ∷ p) a b = ground (arith, is_prefix-append p a b)

all_ff-append : (p a : Text) → all_ff (p ++ a) ≡ (all_ff p && all_ff a)
unfolding all_ff
all_ff-append [] a = refl
all_ff-append (c ∷ p) a = ground (arith, all_ff-append p a)

-- A key below a directory that is watched
watched :
    (l : P.Library) (prefix : Text) (dir : Text) (name key : Text)
    → all_ff dir ≡ false
    → IsBytes (prefix ++ (dir ++ key))
    → in_range
        (prefix ++ (dir ++ name))
        (end_of_range l (prefix ++ (dir ++ name)) plus_1)
        (prefix ++ (dir ++ key))
      ≡ is_prefix name key
watched l prefix dir name key h bytes =
    let some_other : all_ff (prefix ++ (dir ++ name)) ≡ false =
      ground (arith, all_ff-append prefix (dir ++ name), all_ff-append dir name) in
    range-prefix l (prefix ++ (dir ++ name)) (prefix ++ (dir ++ key)) bytes some_other
    ∙ (is_prefix-append prefix (dir ++ name) (dir ++ key) ∙ is_prefix-append dir name key)

-- A watcher by type, by the name of a type, or by a tag, that is told "+1" as the end of its range,
-- gets the key of a node, whose path is made of bytes, exactly where what it watches is the
-- beginning of the type, the name or the tag of the node followed by a slash and its id: so it gets
-- the nodes that it asks for, and also those of every longer name that begins with that name.
pub watched-prefix :
    (l : P.Library) (prefix asked tag : Text) (app : Self)
    → IsBytes (by_type_id_path prefix app)
    → IsBytes (by_type_name_path prefix app)
    → IsBytes (by_tag_path prefix app tag)
    → let watches = λ (key : Text) (path : Text). in_range key (end_of_range l key plus_1) path in
      (watches (by_type_id_watcher_path prefix asked) (by_type_id_path prefix app)
        ≡ is_prefix asked (app.type_id ++ (slash ++ app.id)))
      × (watches (by_type_name_watcher_path prefix asked) (by_type_name_path prefix app)
          ≡ is_prefix asked (app.type_name ++ (slash ++ app.id)))
      × (watches (by_tag_watcher_path prefix asked) (by_tag_path prefix app tag)
          ≡ is_prefix asked (tag ++ (slash ++ app.id)))
unfolding all_ff
watched-prefix l prefix asked tag app b1 b2 b3 = (
  watched l prefix (codes "by_type_id/") asked (app.type_id ++ (slash ++ app.id)) refl b1,
  watched l prefix (codes "by_type_name/") asked (app.type_name ++ (slash ++ app.id)) refl b2,
  watched l prefix (codes "by_tag/") asked (tag ++ (slash ++ app.id)) refl b3,
)
