-- ===== src/Etcd/Watcher/Examples.antt =====
-- A watcher whose watch times out and that reads a message in two buffers
-- (component/etcdcli/etcd_watcher.cpp).
use atsf4g_co.Base.Lists.{length}
use atsf4g_co.Base.{ℕ, suc, ◌≡◌, ◌≢◌, refl, pos, true, false, Option, some, [], ◌∷◌, ◌++◌, arith}
use atsf4g_co.Etcd.Keepalive.{Text}
use atsf4g_co.Etcd.Watcher.{
  get_key, watch, Trunk, RangeReply, timed_out, failed, Watcher, Owner, on_range_completed,
  on_watch_completed, on_watch_write,
}
use atsf4g_co.Etcd.Watcher.Resume.{Serves, watch-resumes}
use atsf4g_co.Etcd.Watcher.Stream.{watch_write-append}

abbrev owner_at : ℕ → Owner
owner_at now = record { now = now; creates_get = true; creates_watch = true; start_result = pos 0 }

owner-Serves : (now : ℕ) → Serves (owner_at now)
owner-Serves now = record { gets = refl; watches = refl; starts = refl }

abbrev watching : Watcher ℕ
watching = record {
  rpc_opr = some (watch 8);
  is_actived = false;
  is_retry_mode = false;
  last_revision = 9;
  next_request_time = 100;
  retry_interval = 15;
  brackets = 0;
  stream = [];
  delivered = (some 9, []) ∷ [];
  stops = 0;
}

abbrev answer : RangeReply ℕ
answer = record { succeeds = true; document = some (12, 5 ∷ []) }

not_failed : timed_out ≢ failed
not_failed = ground arith

watch-resumes_example :
    let w1 = on_watch_completed (owner_at 200) watching timed_out in
    let w2 = on_range_completed (owner_at 201) w1 answer in
    (w1.rpc_opr ≡ some get_key)
    × (w2.rpc_opr ≡ some (watch 10))
    × (w2.last_revision ≡ 9)
    × (w2.stream ≡ [])
    × (w2.brackets ≡ 0)
    × (w2.delivered ≡ watching.delivered)
    × (w2.is_retry_mode ≡ false)
watch-resumes_example =
    watch-resumes (owner_at 200) (owner_at 201) watching timed_out answer (owner-Serves 200)
      (owner-Serves 201) (ground arith) (ground arith) not_failed refl

-- Every text parses, as a message without events.
abbrev demo_parse : Text → Option (Trunk ℕ)
demo_parse t = some (record { revision = some (length t); canceled = false; events = t })

-- `{[` and `]}{`
abbrev first_part : Text
first_part = 32 ∷ 123 ∷ 91 ∷ []

abbrev second_part : Text
second_part = 93 ∷ 125 ∷ 123 ∷ []

watch_write-append_example :
    (w1 : Watcher ℕ) × (w2 : Watcher ℕ) × (on_watch_write demo_parse
        (suc (length first_part))
        watching
        first_part
      ≡ some w1)
    × (on_watch_write demo_parse (suc (length second_part)) w1 second_part ≡ some w2)
    × (on_watch_write demo_parse
          (suc (length (first_part ++ second_part)))
          watching
          (first_part ++ second_part)
        ≡ some w2)
watch_write-append_example = watch_write-append demo_parse watching first_part second_part
