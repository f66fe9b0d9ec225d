-- ===== src/Etcd/Module/Trip.antt =====
-- What the others hear of what a node tells.
use atsf4g_co.Base.{
  ℕ, ◌≡◌, refl, ap, ◌∙◌, Bool, true, false, Option, none, some, List, [], ◌∷◌, map, ◌==◌,
  if◌then◌else◌, arith,
}
use atsf4g_co.Proxy.{put, delete}
use atsf4g_co.Etcd.Keepalive.{Text}
use atsf4g_co.Etcd.Packer.{c_str}
use atsf4g_co.Etcd.Cluster.{is_empty}
use atsf4g_co.Etcd.Module.{
  Node, Json, unsigned, text, array, other, Object, find_member, n_id, n_version, Library,
  members_of, cleared, read_text, read_rest, with_listens, with_type_id, read_listens, read_number,
  read_custom, read_id, read_node, strings_of, Event, pack, unpack, mark, node_of, notify_one,
}

-- `strlen` keeps the whole string: no character of it is 0.
abbrev pub IsWhole : Text → Type 0
IsWhole t = c_str t ≡ t

unfoldable pub EachIsWhole : List Text → Type 0
EachIsWhole [] = Unit
EachIsWhole (t ∷ ts) = IsWhole t × EachIsWhole ts

-- A node with an id and strings without a character 0
pub record IsPlain (n : Node) : Type 0 where
  pub known : (n.id == 0) ≡ false
  pub name : IsWhole n.name
  pub hostname : IsWhole n.hostname
  pub listens : EachIsWhole n.listens
  pub hash_code : IsWhole n.hash_code
  pub type_name : IsWhole n.type_name
  pub version : IsWhole n.version
  pub custom_data : IsWhole n.custom_data

strings_of-some : (ts : List Text) → EachIsWhole ts → strings_of (map some ts) ≡ ts
unfolding strings_of EachIsWhole
strings_of-some [] h = refl
strings_of-some (t ∷ ts) (w, h) = ground (arith, w, strings_of-some ts h)

-- What is read of the document that `pack` makes
read_node-members :
    (n : Node)
    → IsPlain n
    → read_node cleared (members_of n) ≡ (record n { action = cleared.action }, true)
unfolding read_node members_of read_id read_text read_rest strings_of read_listens read_number
    read_custom with_listens with_type_id
read_node-members n h = ground (arith, strings_of-some n.listens)

-- A node with what happened to its key: was it deleted?
abbrev News : Type 0
News = Node × Bool

module _ (l : Library) where
  -- The text of the document is not empty, and is read back as the document.
  pub record IsPrinted (n : Node) : Type 0 where
    pub not_empty : is_empty (pack l n) ≡ false
    pub read_back : l.parse (c_str (pack l n)) ≡ some (members_of n)

  -- The event is about the key of the node: it brings the text of `pack`, as the value that was
  -- put, or as the value that was there before the key was deleted.
  pub record Tells (news : News) (e : Event) : Type 0 where
    pub plain : IsPlain news.0
    pub printed : IsPrinted news.0
    pub action : e.is_delete ≡ news.1
    pub value : (if news.1 then e.prev_kv.value else e.kv.value) ≡ pack l news.0
    pub emptied : is_empty e.kv.value ≡ news.1

  unfoldable pub EachTells : List News → List Event → Type 0
  EachTells [] [] = Unit
  EachTells [] (e ∷ es) = true ≡ false
  EachTells (n ∷ ns) [] = true ≡ false
  EachTells (n ∷ ns) (e ∷ es) = Tells n e × EachTells ns es

  abbrev pub heard : News → Node
  heard (n, gone) = record n { action = if gone then delete else put }

  unpack-pack :
      (n : Node) (out : Node) (key : Text)
      → IsPlain n
      → IsPrinted n
      → (unpack l out key (pack l n) true).0 ≡ record n { action = cleared.action }
  unfolding unpack
  unpack-pack n out key h printed =
      rw (printed.not_empty, printed.read_back, read_node-members n h) refl

  node_of-Tells : (news : News) (e : Event) → Tells news e → node_of l e ≡ some (heard news)
  unfolding node_of mark
  node_of-Tells (n, gone) e h =
      let value : (if is_empty e.kv.value then e.prev_kv.value else e.kv.value) ≡ pack l n =
        rw h.emptied h.value in
      rw (value, unpack-pack n cleared e.kv.key h.plain h.printed, h.plain.known, h.action) refl

  -- Nodes that have an id and strings without a character 0, and whose documents are read as they
  -- were written, are announced by events, one for each in order, that bring the packed node as the
  -- new value of its key or, where the key is deleted, as the value before: the callback of a
  -- watcher gets exactly these nodes, with every member as it was packed, in this order, each
  -- marked as put or as deleted.
  pub announced-heard :
      (ns : List News) (es : List Event) → EachTells ns es → notify_one l es ≡ map heard ns
  unfolding notify_one EachTells
  announced-heard [] [] h = refl
  announced-heard [] (e ∷ es) h = ground arith
  announced-heard (n ∷ ns) [] h = ground arith
  announced-heard (n ∷ ns) (e ∷ es) (t, h) =
      rw (notify_one, node_of-Tells n e t) (ap (λ ms. heard n ∷ ms) (announced-heard ns es h))

  read_text-id :
      (r : Node × Bool) (required : Bool) (store : Node → Text → Node) (m : Option Json)
      → ((n : Node) (t : Text) → (store n t).id ≡ n.id)
      → (read_text r required store m).0.id ≡ r.0.id
  unfolding read_text
  read_text-id (out, false) required store m same = refl
  read_text-id (out, true) required store none same = refl
  read_text-id (out, true) required store (some (text t)) same = same out (c_str t)
  read_text-id (out, true) required store (some (unsigned n)) same = refl
  read_text-id (out, true) required store (some (array vs)) same = refl
  read_text-id (out, true) required store (some other) same = refl

  with_listens-id : (doc : Object) (r : Node × Bool) → (with_listens doc r).0.id ≡ r.0.id
  unfolding with_listens
  with_listens-id doc (out, ok) = ground arith

  with_type_id-id : (doc : Object) (r : Node × Bool) → (with_type_id doc r).0.id ≡ r.0.id
  unfolding with_type_id
  with_type_id-id doc (out, ok) = ground arith

  read_rest-id : (doc : Object) (r : Node × Bool) → (read_rest r doc).0.id ≡ r.0.id
  unfolding read_rest
  read_rest-id doc (out, false) = refl
  read_rest-id doc (out, true) = refl

  -- Whatever stands behind the id, it is kept.
  read_node-id :
      (out : Node) (doc : Object) (n : ℕ)
      → find_member n_id doc ≡ some (unsigned n)
      → (read_node out doc).0.id ≡ n
  unfolding read_node read_id
  read_node-id out doc n e = simp (e, read_rest-id, with_type_id-id, with_listens-id, read_text-id)

  stops :
      (r : Node × Bool) (store : Node → Text → Node) (doc : Object)
      → (read_rest (read_text r true store none) doc).1 ≡ false
  unfolding read_text read_rest
  stops (out, false) store doc = refl
  stops (out, true) store doc = refl

  -- Without a version the reading ends.
  read_node-unversioned :
      (out : Node) (doc : Object) → find_member n_version doc ≡ none → (read_node out doc).1 ≡ false
  unfolding read_node
  read_node-unversioned out doc e = rw e (stops _ _ _)

  -- An event brings a document that has an id other than 0 but no version: `unpack` refuses the
  -- document, and the callback of a watcher gets a node with that id all the same.
  pub refused-heard :
      (e : Event) (es : List Event) (doc : Object) (n : ℕ)
      → is_empty e.kv.value ≡ false
      → l.parse (c_str e.kv.value) ≡ some doc
      → find_member n_id doc ≡ some (unsigned n)
      → (n == 0) ≡ false
      → find_member n_version doc ≡ none
      → ((unpack l cleared e.kv.key e.kv.value true).1 ≡ false)
        × ((m : Node) × (notify_one l (e ∷ es) ≡ m ∷ notify_one l es) × (m.id ≡ n))
  unfolding unpack mark node_of notify_one
  refused-heard e es doc n there parsed id known unversioned =
      let r = read_node cleared doc in
      let kept = read_node-id cleared doc n id in
      let node : Node = record r.0 { action = if e.is_delete then delete else put } in
      let read : unpack l cleared e.kv.key e.kv.value true ≡ r = rw (unpack, there, parsed) refl in
      let marked : mark e r.0 ≡ some node = rw (mark, kept, known) refl in
      let found : node_of l e ≡ some node = rw (node_of, there, read) marked in
      (
        ap (λ q. q.1) read ∙ read_node-unversioned cleared doc unversioned,
        (node, rw (notify_one, found) refl, kept),
      )
