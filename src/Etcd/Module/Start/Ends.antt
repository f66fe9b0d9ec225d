-- ===== src/Etcd/Module/Start/Ends.antt =====
-- How the start and the stop of `etcd_module` end.
use atsf4g_co.Base.{ℕ, ◌≡◌, refl, ◌⊎◌, Bool, true, false, ◌||◌, List, [], ◌∷◌, arith}
use atsf4g_co.Etcd.Keepalive.{Keepalive}
use atsf4g_co.Etcd.Cluster.{Cluster}
use atsf4g_co.Etcd.Cluster as C
use atsf4g_co.Etcd.Cluster.Members as M
use atsf4g_co.Etcd.Cluster.Replies as R
use atsf4g_co.Etcd.Cluster.Runs.{run}
use atsf4g_co.Etcd.Cluster.Closing.{close-empties, close-twice}
use atsf4g_co.Etcd.Module.Start.{
  Module, Round, Answers, keys_at, wait, reset, stop, http_callback_on_etcd_closed,
}

-- The check of each key was run, and has passed.
unfoldable pub AllPassed : List Keepalive → Type 0
AllPassed [] = Unit
AllPassed (k ∷ ks) = (k.is_check_run ≡ true) × (k.is_check_passed ≡ true) × AllPassed ks

-- The timer runs out in one of the turns.
abbrev pub times_out : {E : Type 0} → List (Round E) → Bool
times_out [] = false
times_out (r ∷ rs) = r.is_timeout || times_out rs

module _ {E : Type 0} where
  -- Nothing is left: no key, watcher or path, no lease, no client and no request.
  pub record IsGone (m : Module E) : Type 0 where
    pub offline : m.curl_multi ≡ false
    pub no_request : m.cleanup_request ≡ false
    pub no_client : m.cluster.has_multi ≡ false
    pub no_lease : m.cluster.lease ≡ 0
    pub no_actors : m.cluster.keepalive_actors ≡ []
    pub no_retries : m.cluster.retry_actors ≡ []
    pub no_watchers : m.cluster.watcher_actors ≡ []
    pub no_deletors : m.cluster.deletors ≡ []

  module _ (a : Answers E) where
    reset-IsGone : (m : Module E) → IsGone (reset a m)
    unfolding reset R.reset
    reset-IsGone m =
        let (actors, retries, watchers, deletors) = close-empties a.env m.cluster in
        record {
          offline = refl;
          no_request = refl;
          no_client = refl;
          no_lease = refl;
          no_actors = actors;
          no_retries = retries;
          no_watchers = watchers;
          no_deletors = deletors;
        }

  -- A module that has asked for nothing yet is stopped. Either the stop returns 0, or it returns 1
  -- and the next stop after the reply to its request, whatever the outside answers then, returns 0.
  -- In both cases nothing is left.
  pub stop-ends :
      (a b : Answers E) (m : Module E)
      → m.cleanup_request ≡ false
      → (((stop a m).1 ≡ 0) × IsGone (stop a m).0)
        ⊎ (((stop a m).1 ≡ 1)
            × ((stop b (http_callback_on_etcd_closed b (stop a m).0)).1 ≡ 0)
            × IsGone (stop b (http_callback_on_etcd_closed b (stop a m).0)).0)
  unfolding stop http_callback_on_etcd_closed
  stop-ends a b m idle =
      let first = R.close a.env m.cluster in
      let m1 = record m { cluster = first.0; cleanup_request = false } in
      let second = record m1 { cluster = (R.close b.env first.0).0 } in
      let gone = reset-IsGone a m1 in
      let after : IsGone (reset b second) = reset-IsGone b second in
      ground (arith, close-twice a.env b.env m.cluster)

  module _ (a : Answers E) where
    -- All checks had passed when the loop ended, and since then only the timers were closed.
    abbrev pub HasPassed : Cluster E → Module E → List ℕ → Type 0
    HasPassed c m' actors =
        AllPassed (keys_at (wait actors a.rounds c).0 actors)
        × (m'.cluster ≡ run (wait actors a.rounds c).0 a.closing_calls)
