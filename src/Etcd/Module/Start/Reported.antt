-- ===== src/Etcd/Module/Start/Reported.antt =====
-- Which paths the configuration of `etcd_module` asks for.
use atsf4g_co.Base.{◌≡◌, refl, Bool, false, not, ◌&&◌, ◌||◌, List, [], ◌∷◌, ◌++◌, arith}
use atsf4g_co.Etcd.Keepalive.{Text, same_text}
use atsf4g_co.Etcd.Cluster.{codes, is_empty}
use atsf4g_co.Etcd.Module.Start.{Conf, tag_paths, reported}

-- Is the path in the list?
abbrev pub among : Text → List Text → Bool
among p [] = false
among p (q ∷ qs) = same_text p q || among p qs

-- Is it the path of the node under one of the tags that are not empty?
abbrev has_tag : Conf → Text → List Text → Bool
has_tag conf p [] = false
has_tag conf p (tag ∷ tags) =
    (not (is_empty tag)
      && same_text p (conf.path_prefix ++ (codes "by_tag/" ++ (tag ++ (codes "/" ++ conf.app.id)))))
    || has_tag conf p tags

-- Is the path asked for: by id, by type, as an id and as a name, by the name of the application, or
-- by a tag?
abbrev pub is_reported : Conf → Text → Bool
is_reported conf p =
    let under = λ (dir : Text) (name : Text). same_text p (conf.path_prefix ++ (dir ++ name)) in
    let id = codes "/" ++ conf.app.id in
    (conf.report_alive_by_id && under (codes "by_id/") conf.app.id)
    || ((conf.report_alive_by_type
          && (under (codes "by_type_id/") (conf.app.type_id ++ id)
              || under (codes "by_type_name/") (conf.app.type_name ++ id)))
        || ((conf.report_alive_by_name && under (codes "by_name/") conf.app.app_name)
            || has_tag conf p conf.report_alive_by_tag))

among-append : (p : Text) (xs ys : List Text) → among p (xs ++ ys) ≡ (among p xs || among p ys)
among-append p [] ys = refl
among-append p (x ∷ xs) ys = ground (arith, among-append p xs ys)

tag_paths_lem :
    (conf : Conf) (p : Text) (tags : List Text)
    → among p (tag_paths conf tags) ≡ has_tag conf p tags
tag_paths_lem conf p [] = refl
tag_paths_lem conf p (tag ∷ tags) = ground (arith, tag_paths_lem conf p tags)

pub reported_lem : (conf : Conf) (p : Text) → among p (reported conf) ≡ is_reported conf p
reported_lem conf p = ground (arith, tag_paths_lem conf p conf.report_alive_by_tag)
