-- ===== src/Etcd/Module/Watchers.antt =====
-- How `etcd_module` makes watchers (component/modules/etcd_module.cpp). A function that is empty is
-- `none`; making a watcher does not fail; the time limit of its requests is left to the HTTP
-- client.
use atsf4g_co.Base.{
  ℕ, ◌+◌, ◌≡◌, refl, sym, ap, ◌∙◌, ℤ, pos, Bool, false, not, ◌&&◌, Option, none, some, List, [],
  ◌∷◌, ◌++◌, ◌==◌, if◌then◌else◌, arith,
}
use atsf4g_co.Base.Lists.{append_assoc, append_nil}
use atsf4g_co.Etcd.Keepalive.{Text}
use atsf4g_co.Etcd.Packer.Range.{is_prefix}
use atsf4g_co.Etcd.Watcher as W
use atsf4g_co.Etcd.Cluster.{Env, Cluster, is_empty}
use atsf4g_co.Etcd.Cluster.Actors.{member, add_watcher}
use atsf4g_co.Etcd.Module.Paths.{
  by_id_watcher_path, by_type_id_watcher_path, by_type_name_watcher_path, by_name_watcher_path,
  by_tag_watcher_path,
}

-- `set_evt_handle`: the list of callbacks that a watcher calls, or its only one
pub data Handler (C : Type 0) : Type 0 where
  all_by_id all_by_name : Handler C
  only : C → Handler C

-- The cluster, and for each watcher in the store its path and its handler; the lists of callbacks;
-- the address that the next watcher will have
pub record Watching (E C : Type 0) : Type 0 where
  pub cluster : Cluster E
  pub paths : ℕ → Text
  pub handlers : ℕ → Option (Handler C)
  pub by_id_callbacks : List C
  pub by_name_callbacks : List C
  pub next_watcher : ℕ

-- The functions that are not empty
unfoldable pub given : {C : Type 0} → List (Option C) → List C
given [] = []
given (none ∷ fns) = given fns
given (some fn ∷ fns) = fn ∷ given fns

is_empty-append : {C : Type 0} (l : List C) (x : C) → is_empty (l ++ (x ∷ [])) ≡ false
is_empty-append [] x = refl
is_empty-append (y ∷ l) x = refl

module _ {E C : Type 0} (env : Env) (params_error : ℤ) (prefix : Text) (retry_interval : ℕ) where
  -- A watcher that is made and given to the cluster: did the cluster take it?
  unfoldable pub new_watcher : Text → ℕ → Option (Handler C) → Watching E C → Watching E C × Bool
  new_watcher path interval handler m =
      let i = m.next_watcher in
      let c = record m.cluster {
        watchers = λ j.
            if j == i then record W.create { retry_interval = interval } else m.cluster.watchers j;
      } in
      let r = add_watcher env c i in
      (
        record m {
          cluster = r.0;
          paths = λ j. if j == i then path else m.paths j;
          handlers = λ j. if j == i then handler else m.handlers j;
          next_watcher = i + 1;
        },
        r.1,
      )

  -- `add_watcher_by_id` and `add_watcher_by_name`: the first function makes the watcher.
  unfoldable pub add_watcher_by_id : Option C → Watching E C → Watching E C × ℤ
  add_watcher_by_id none m = (m, params_error)
  add_watcher_by_id (some fn) m =
      let made = (new_watcher (by_id_watcher_path prefix) retry_interval (some all_by_id) m).0 in
      let m1 = if is_empty m.by_id_callbacks then made else m in
      (record m1 { by_id_callbacks = m1.by_id_callbacks ++ (fn ∷ []) }, pos 0)

  unfoldable pub add_watcher_by_name : Option C → Watching E C → Watching E C × ℤ
  add_watcher_by_name none m = (m, params_error)
  add_watcher_by_name (some fn) m =
      let made =
        (new_watcher (by_name_watcher_path prefix) retry_interval (some all_by_name) m).0 in
      let m1 = if is_empty m.by_name_callbacks then made else m in
      (record m1 { by_name_callbacks = m1.by_name_callbacks ++ (fn ∷ []) }, pos 0)

  -- A watcher with a callback of its own
  unfoldable pub add_watcher_of : Text → ℕ → Option C → Watching E C → Watching E C × ℤ
  add_watcher_of path interval none m = (m, params_error)
  add_watcher_of path interval (some fn) m =
      ((new_watcher path interval (some (only fn)) m).0, pos 0)

  -- `add_watcher_by_type_id`, `add_watcher_by_type_name` and `add_watcher_by_tag`, which leaves the
  -- interval as it was made
  abbrev pub add_watcher_by_type_id : Text → Option C → Watching E C → Watching E C × ℤ
  add_watcher_by_type_id type_id =
      add_watcher_of (by_type_id_watcher_path prefix type_id) retry_interval

  abbrev pub add_watcher_by_type_name : Text → Option C → Watching E C → Watching E C × ℤ
  add_watcher_by_type_name type_name =
      add_watcher_of (by_type_name_watcher_path prefix type_name) retry_interval

  abbrev pub add_watcher_by_tag : Text → Option C → Watching E C → Watching E C × ℤ
  add_watcher_by_tag tag = add_watcher_of (by_tag_watcher_path prefix tag) 15

  -- `add_watcher_by_custom_path`: the address of the watcher. One that is not taken loses its handler.
  unfoldable pub add_watcher_by_custom_path :
      Text → Option C → Watching E C → Watching E C × Option ℕ
  add_watcher_by_custom_path path none m = (m, none)
  add_watcher_by_custom_path path (some fn) m =
      let r = new_watcher path 15 (some (only fn)) m in
      let lost = new_watcher path 15 none m in
      if not (is_prefix prefix path)
      then (m, none)
      else if r.1
      then (r.0, some m.next_watcher)
      else (lost.0, none)

  -- One call for each function
  unfoldable pub add_each : List (Option C) → Watching E C → Watching E C
  add_each [] m = m
  add_each (fn ∷ fns) m = add_each fns (add_watcher_by_id fn m).0

  -- The lists after one call
  by_id-lists :
      (fn : C) (m : Watching E C)
      → m.cluster.closing ≡ false
      → member m.next_watcher m.cluster.watcher_actors ≡ false
      → let m1 = (add_watcher_by_id (some fn) m).0 in
        (m1.by_id_callbacks ≡ m.by_id_callbacks ++ (fn ∷ []))
        × (m1.cluster.watcher_actors ≡ (
            if is_empty m.by_id_callbacks
            then m.cluster.watcher_actors ++ (m.next_watcher ∷ [])
            else m.cluster.watcher_actors))
  unfolding add_watcher_by_id new_watcher add_watcher
  by_id-lists fn m open_ new = ground arith

  by_id-later :
      (fn : C) (m : Watching E C)
      → is_empty m.by_id_callbacks ≡ false
      → let m1 = (add_watcher_by_id (some fn) m).0 in
        (m1.by_id_callbacks ≡ m.by_id_callbacks ++ (fn ∷ []))
        × (m1.cluster.watcher_actors ≡ m.cluster.watcher_actors)
  unfolding add_watcher_by_id
  by_id-later fn m some_there = ground arith

  -- Where there is a callback already, no watcher is made.
  add_each-later :
      (fns : List (Option C)) (m : Watching E C)
      → is_empty m.by_id_callbacks ≡ false
      → ((add_each fns m).cluster.watcher_actors ≡ m.cluster.watcher_actors)
        × ((add_each fns m).by_id_callbacks ≡ m.by_id_callbacks ++ given fns)
  unfolding add_each given add_watcher_by_id
  add_each-later [] m some_there = (refl, sym (append_nil m.by_id_callbacks))
  add_each-later (none ∷ fns) m some_there = add_each-later fns m some_there
  add_each-later (some fn ∷ fns) m some_there =
      let m1 = (add_watcher_by_id (some fn) m).0 in
      let (callbacks, actors) = by_id-later fn m some_there in
      let left : is_empty m1.by_id_callbacks ≡ false =
        ap is_empty callbacks ∙ is_empty-append m.by_id_callbacks fn in
      let (same, all) = add_each-later fns m1 left in
      (
        same ∙ actors,
        all
            ∙ (ap (λ l. l ++ given fns) callbacks
                ∙ append_assoc m.by_id_callbacks (fn ∷ []) (given fns)),
      )

  -- The cluster is not closing, and the address of the next watcher is not on its list. However
  -- many functions are given to `add_watcher_by_id`, one after the other: all that are not empty
  -- become callbacks, in this order, and there is exactly one new watcher if there was no callback
  -- before and one function is not empty, and no new watcher otherwise.
  pub add_each-once :
      (fns : List (Option C)) (m : Watching E C)
      → m.cluster.closing ≡ false
      → member m.next_watcher m.cluster.watcher_actors ≡ false
      → ((add_each fns m).by_id_callbacks ≡ m.by_id_callbacks ++ given fns)
        × ((add_each fns m).cluster.watcher_actors ≡ (
            if is_empty m.by_id_callbacks && not (is_empty (given fns))
            then m.cluster.watcher_actors ++ (m.next_watcher ∷ [])
            else m.cluster.watcher_actors))
  unfolding add_each given add_watcher_by_id
  add_each-once [] m open_ new = (sym (append_nil m.by_id_callbacks), ground arith)
  add_each-once (none ∷ fns) m open_ new = add_each-once fns m open_ new
  add_each-once (some fn ∷ fns) m open_ new =
      let m1 = (add_watcher_by_id (some fn) m).0 in
      let (callbacks, actors) = by_id-lists fn m open_ new in
      let left : is_empty m1.by_id_callbacks ≡ false =
        ap is_empty callbacks ∙ is_empty-append m.by_id_callbacks fn in
      let (same, all) = add_each-later fns m1 left in
      (
        all
            ∙ (ap (λ l. l ++ given fns) callbacks
                ∙ append_assoc m.by_id_callbacks (fn ∷ []) (given fns)),
        same ∙ (actors ∙ (ground arith)),
      )
