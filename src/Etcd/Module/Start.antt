-- ===== src/Etcd/Module/Start.antt =====
-- How `etcd_module` starts, ticks and stops (component/modules/etcd_module.cpp), over the cluster
-- that it owns. curl, libuv's loop and the application are outside.
pub mod Reported
pub mod Added
pub mod Ends
use atsf4g_co.Base.{
  ℕ, ◌+◌, ℤ, pos, negsuc, is_neg, is_zero, Bool, true, false, not, ◌&&◌, ◌||◌, Option, none, some,
  List, [], ◌∷◌, ◌++◌, ltb, leb, ◌==◌, if◌then◌else◌, is_some,
}
use atsf4g_co.Etcd.Keepalive as K
use atsf4g_co.Etcd.Keepalive.{Text, Keepalive, same_text}
use atsf4g_co.Etcd.Cluster.{Env, Cluster, is_empty}
use atsf4g_co.Etcd.Cluster as C
use atsf4g_co.Etcd.Cluster.Actors.{put, activate, add_keepalive}
use atsf4g_co.Etcd.Cluster.Members as M
use atsf4g_co.Etcd.Cluster.Replies as R
use atsf4g_co.Etcd.Cluster.Runs.{Call, run}
use atsf4g_co.Etcd.Module.Paths.{
  Self, by_id_path, by_type_id_path, by_type_name_path, by_name_path, by_tag_path,
}

-- The members of `etcd_module`, less the configuration and the callbacks: for `curl_multi_` and
-- `cleanup_request_` whether there is one. `next_key` is the address that the next key will have.
pub record Module (E : Type 0) : Type 0 where
  pub cluster : Cluster E
  pub curl_multi : Bool
  pub cleanup_request : Bool
  pub next_key : ℕ

-- `conf_t`, less the times, and what the node tells of itself, as `pack` writes it
pub record Conf : Type 0 where
  pub path_prefix : Text
  pub report_alive_by_id : Bool
  pub report_alive_by_type : Bool
  pub report_alive_by_name : Bool
  pub report_alive_by_tag : List Text
  pub app : Self
  pub packed : Text

-- One turn of the loop in `init`: what `tick` reads, the calls that the cluster gets while libuv
-- runs, and whether the timer has run out then
pub record Round (E : Type 0) : Type 0 where
  pub env : Env
  pub calls : List (Env × Call E)
  pub is_timeout : Bool

-- What the outside answers: the result of `curl_global_init`, whether there is a new `curl_multi_`,
-- the turns of the loop, and the calls that the cluster gets while the timers are closed
pub record Answers (E : Type 0) : Type 0 where
  pub env : Env
  pub curl_init : ℤ
  pub creates_multi : Bool
  pub rounds : List (Round E)
  pub closing_calls : List (Env × Call E)

abbrev tag_paths : Conf → List Text → List Text
tag_paths conf [] = []
tag_paths conf (tag ∷ tags) =
    let rest = tag_paths conf tags in
    if is_empty tag then rest else by_tag_path conf.path_prefix conf.app tag ∷ rest

-- The paths that `init` adds a key for, in this order
abbrev pub reported : Conf → List Text
reported conf =
    (if conf.report_alive_by_id then by_id_path conf.path_prefix conf.app ∷ [] else [])
    ++ ((if conf.report_alive_by_type
          then by_type_id_path conf.path_prefix conf.app
            ∷ (by_type_name_path conf.path_prefix conf.app ∷ [])
          else [])
        ++ ((if conf.report_alive_by_name then by_name_path conf.path_prefix conf.app ∷ [] else [])
            ++ tag_paths conf conf.report_alive_by_tag))

-- The tests of the loop: has a check of a key failed, were all checks run, was one tried 5 times,
-- or were there more than 5 errors in a row?
unfoldable pub any_refused : List Keepalive → Bool
any_refused [] = false
any_refused (k ∷ ks) = (k.is_check_run && not k.is_check_passed) || any_refused ks

unfoldable pub all_run : List Keepalive → Bool
all_run [] = true
all_run (k ∷ ks) = k.is_check_run && all_run ks

unfoldable pub too_often : ℕ → List Keepalive → Bool
too_often errors [] = false
too_often errors (k ∷ ks) = (leb 5 k.retry_times || ltb 5 errors) || too_often errors ks

pub data Verdict : Type 0 where
  ready failed waiting : Verdict

module _ {E : Type 0} where
  abbrev pub keys_at : Cluster E → List ℕ → List Keepalive
  keys_at c [] = []
  keys_at c (i ∷ is) = (c.keepalives i).keep ∷ keys_at c is

  -- The loop of `init`; it waits on where no turn is left.
  unfoldable pub wait : List ℕ → List (Round E) → Cluster E → Cluster E × Verdict
  wait actors [] c = (c, waiting)
  wait actors (r ∷ rs) c =
      let c1 = M.tick r.env c in
      let c2 = run c1 r.calls in
      let more = wait actors rs c2 in
      if any_refused (keys_at c1 actors)
      then (c1, failed)
      else if all_run (keys_at c1 actors)
      then (c1, ready)
      else if too_often c2.stats.continue_error_requests (keys_at c2 actors)
      then (c2, failed)
      else if r.is_timeout
      then (c2, failed)
      else more

  module _ (a : Answers E) where
    -- `reset`
    unfoldable pub reset : Module E → Module E
    reset m = record m {
      cleanup_request = false;
      cluster = R.reset a.env m.cluster;
      curl_multi = false;
    }

    -- `stop`: 1 while the lease is being revoked. The request that `close` returns is running.
    unfoldable pub stop : Module E → Module E × ℕ
    stop m =
        let r = R.close a.env m.cluster in
        let m1 = record m { cluster = r.0; cleanup_request = r.1 } in
        let m2 = if m.cleanup_request then m else m1 in
        if m2.cleanup_request then (m2, 1) else (reset m2, 0)

    -- `http_callback_on_etcd_closed`, before the application stops again
    unfoldable pub http_callback_on_etcd_closed : Module E → Module E
    http_callback_on_etcd_closed m = record m { cleanup_request = false }

    -- `etcd_keepalive::set_value`, with the calls that it makes of its owner
    unfoldable pub set_value : Cluster E → ℕ → Text → Cluster E
    set_value c i v =
        let k = (c.keepalives i).keep in
        let c1 = put c i (record k { value = v; is_value_changed = true }) in
        if same_text k.value v
        then c
        else if c.running && not (c.lease == 0)
        then activate a.env c1 i
        else c1

    -- `add_keepalive_actor`: the address of the key, `none` where the cluster does not take it
    unfoldable pub add_keepalive_actor : Text → Text → Module E → Module E × Option ℕ
    add_keepalive_actor val path m =
        let i = m.next_key in
        let k = K.set_checker_text K.create val in
        let c = record m.cluster {
          keepalives =
              λ j. if j == i then record { path = path; keep = k } else m.cluster.keepalives j;
        } in
        let r = add_keepalive a.env (set_value c i val) i in
        let m1 = record m { cluster = r.0; next_key = i + 1 } in
        let gone = record m1 { cluster = put r.0 i (K.close (r.0.keepalives i).keep true) } in
        if r.1 then (m1, some i) else (gone, none)

    -- The keys of `init`, `none` where one was not added
    unfoldable pub add_actors : Text → List Text → Module E → Module E × Option (List ℕ)
    add_actors val [] m = (m, some [])
    add_actors val (path ∷ paths) m =
        let r = add_keepalive_actor val path m in
        let more = add_actors val paths r.0 in
        elim r.1 [
          | none ↦ (r.0, none)
          | some i ↦ elim more.1 [ none ↦ (more.0, none) | some is ↦ (more.0, some (i ∷ is)) ]
        ]

    -- The end of `init`, once the keys are added; `none` where it still waits. Until libuv has
    -- closed the timers the cluster gets further calls.
    unfoldable pub startup : List ℕ → Module E → Option (Module E × ℤ)
    startup actors m =
        let r = wait actors a.rounds m.cluster in
        let m1 = record m { cluster = run r.0 a.closing_calls } in
        elim r.1 [
          | ready ↦ some (m1, pos 0)
          | failed ↦ some (reset (stop m1).0, negsuc 0)
          | waiting ↦ none
        ]

    -- `init`
    unfoldable pub init : Conf → Module E → Option (Module E × ℤ)
    init conf m =
        let m1 = record m { curl_multi = true; cluster = C.init m.cluster } in
        let added = add_actors conf.packed (reported conf) m1 in
        if not (is_zero a.curl_init)
        then some (m, negsuc 0)
        else if is_empty m.cluster.conf_hosts
        then some (m, pos 0)
        else if not a.creates_multi
        then some (record m { curl_multi = false }, negsuc 0)
        else elim added.1 [ none ↦ some (added.0, negsuc 0) | some actors ↦ startup actors added.0 ]

    -- `tick`, with what `init` needs where it is called: the module, and whether the application is
    -- stopped
    unfoldable pub tick : Conf → Module E → Option (Module E × Bool)
    tick conf m =
        let ticks = λ (n : Module E). record n { cluster = M.tick a.env n.cluster } in
        if is_empty m.cluster.conf_hosts
        then some (m, false)
        else if m.curl_multi
        then some (ticks m, false)
        else elim (init conf m) [
          | none ↦ none
          | some r ↦ if is_neg r.1 then some (r.0, true) else some (ticks r.0, false)
        ]
