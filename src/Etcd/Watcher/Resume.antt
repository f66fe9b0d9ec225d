-- ===== src/Etcd/Watcher/Resume.antt =====
-- A watch that ends is taken up again where it was (component/etcdcli/etcd_watcher.cpp).
use atsf4g_co.Base.{◌+◌, ◌≡◌, ◌≢◌, ◌≤◌, refl, is_zero, true, false, some, [], arith}
use atsf4g_co.Etcd.Watcher.{
  get_key, watch, RangeReply, Ending, succeeded, timed_out, failed, Watcher, Owner, start, make,
  process, active, on_range_completed, on_watch_completed,
}

-- The requests of the owner can be made and started.
pub record Serves (o : Owner) : Type 0 where
  pub gets : o.creates_get ≡ true
  pub watches : o.creates_watch ≡ true
  pub starts : is_zero o.start_result ≡ true

-- A watch that ended well or timed out is taken up again without a gap and without a second snapshot:
-- the watcher asks for the key itself, and when that is answered it watches from the revision after
-- the last that it has seen, in a stream that is empty; nothing is delivered in between. The
-- condition is that a revision was seen, that the time of the next request had come, and that the
-- owner makes and starts the requests.
pub watch-resumes :
    {E : Type 0} (o o' : Owner) (w : Watcher E) (e : Ending) (reply : RangeReply E)
    → Serves o
    → Serves o'
    → w.last_revision ≢ 0
    → w.next_request_time ≤ o.now
    → e ≢ failed
    → reply.succeeds ≡ true
    → let w1 = on_watch_completed o w e in
      let w2 = on_range_completed o' w1 reply in
      (w1.rpc_opr ≡ some get_key)
      × (w2.rpc_opr ≡ some (watch (w.last_revision + 1)))
      × (w2.last_revision ≡ w.last_revision)
      × (w2.stream ≡ [])
      × (w2.brackets ≡ 0)
      × (w2.delivered ≡ w.delivered)
      × (w2.is_retry_mode ≡ false)
unfolding on_watch_completed on_range_completed active process make start
watch-resumes o o' w succeeded reply s s' ne t f ok = ground arith
watch-resumes o o' w timed_out reply s s' ne t f ok = ground arith
watch-resumes o o' w failed reply s s' ne t f ok = absurd (f refl)
