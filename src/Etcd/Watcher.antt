-- ===== src/Etcd/Watcher.antt =====
-- The watch of a range of keys, `etcd_watcher` (component/etcdcli/etcd_watcher.h, etcd_watcher.cpp).
-- `etcd_cluster`, the HTTP client and the JSON library answer through `Owner`, the replies and
-- `parse`, which gives the parts of a message with its events unpacked; `E` is an event. The
-- handler of events is set.
pub mod Stream
pub mod Resume
mod Examples
use atsf4g_co.Base.{
  ℕ, zero, suc, ◌+◌, ◌-◌, ℤ, is_zero, Bool, true, false, not, ◌&&◌, ◌||◌, Option, none, some, List,
  [], ◌∷◌, ◌++◌, ltb, ◌==◌, if◌then◌else◌,
}
use atsf4g_co.Etcd.Keepalive.{Text}

-- The request under way: the key itself, the range, or the changes from a revision on.
pub data Request : Type 0 where
  get_key : Request
  get_range : Request
  watch : ℕ → Request

-- A message of the watch: the revision of its header, `none` where there is no header.
pub record Trunk (E : Type 0) : Type 0 where
  pub revision : Option ℕ
  pub canceled : Bool
  pub events : List E

-- A reply to a range request: is it a success, and the revision, 0 where there is no header, with the
-- keys; `none` if it does not parse.
pub record RangeReply (E : Type 0) : Type 0 where
  pub succeeds : Bool
  pub document : Option (ℕ × List E)

-- How a watch request ended.
pub data Ending : Type 0 where
  succeeded timed_out failed : Ending

-- The members of `etcd_watcher` that change. `delivered` lists what `evt_handle_` got and `stops`
-- counts the calls of `stop` on the request, the latest first.
pub record Watcher (E : Type 0) : Type 0 where
  pub rpc_opr : Option Request
  pub is_actived : Bool
  pub is_retry_mode : Bool
  pub last_revision : ℕ
  pub next_request_time : ℕ
  pub retry_interval : ℕ
  pub brackets : ℕ
  pub stream : Text
  pub delivered : List (Option ℕ × List E)
  pub stops : ℕ

pub record Owner : Type 0 where
  pub now : ℕ
  pub creates_get : Bool
  pub creates_watch : Bool
  pub start_result : ℤ

module _ {E : Type 0} where
  -- `etcd_watcher::etcd_watcher`
  unfoldable pub create : Watcher E
  create = record {
    rpc_opr = none;
    is_actived = false;
    is_retry_mode = false;
    last_revision = 0;
    next_request_time = 0;
    retry_interval = 15;
    brackets = 0;
    stream = [];
    delivered = [];
    stops = 0;
  }

  -- `close`
  unfoldable pub close : Watcher E → Watcher E
  close w = record w {
    rpc_opr = none;
    is_actived = false;
    is_retry_mode = false;
    last_revision = 0;
  }

  module _ (o : Owner) where
    -- The end of `process`, for both kinds of request
    unfoldable pub start : Watcher E → Watcher E
    start w = if is_zero o.start_result then w else record w { rpc_opr = none }

    abbrev pub later : Watcher E → Watcher E
    later w = record w { next_request_time = o.now + w.retry_interval }

    -- `process` where no request is under way
    pub make : Watcher E → Watcher E
    unfolding start
    make w =
        if ltb o.now w.next_request_time
        then w
        else if w.last_revision == 0 || w.is_retry_mode
        then (if o.creates_get
            then start
                (record w { rpc_opr = some (if w.is_retry_mode then get_key else get_range) })
            else later w)
        else if o.creates_watch
        then start
            (record w { rpc_opr = some (watch (w.last_revision + 1)); stream = []; brackets = 0 })
        else later w

    -- `process`
    unfoldable pub process : Watcher E → Watcher E
    unfolding make
    process w = elim w.rpc_opr [ some r ↦ w | none ↦ make (record w { is_actived = false }) ]

    -- `active`
    unfoldable pub active : Watcher E → Watcher E
    unfolding process
    active w = process (record w { is_actived = true })

    -- `libcurl_callback_on_range_completed` once the reply is parsed
    on_range : Watcher E → Option (ℕ × List E) → Watcher E
    unfolding active
    on_range w none = active (later w)
    on_range w (some (revision, events)) =
        if revision == 0
        then active (later w)
        else active (record w {
          last_revision = revision;
          delivered = (some revision, events) ∷ w.delivered;
          next_request_time = o.now;
        })

    -- `libcurl_callback_on_range_completed`
    pub on_range_completed : Watcher E → RangeReply E → Watcher E
    unfolding active on_range
    on_range_completed w reply =
        let w1 = record w { rpc_opr = none } in
        if not reply.succeeds
        then later w1
        else if w.is_retry_mode
        then active (record w1 { is_retry_mode = false; next_request_time = o.now })
        else on_range w1 reply.document

    -- `libcurl_callback_on_watch_completed`
    pub on_watch_completed : Watcher E → Ending → Watcher E
    unfolding active
    on_watch_completed w succeeded = active (record w { rpc_opr = none; is_retry_mode = true })
    on_watch_completed w timed_out =
        active (record w { rpc_opr = none; is_retry_mode = true; next_request_time = o.now })
    on_watch_completed w failed = active (later (record w { rpc_opr = none; is_retry_mode = true }))

-- `inbuf[i] == '{' || inbuf[i] == '['`, and the closing ones
abbrev pub opens : ℕ → Bool
opens c = c == 123 || c == 91

abbrev pub closes : ℕ → Bool
closes c = c == 125 || c == 93

-- The number of open brackets after a character. It is never below 0: with none open a message begins
-- with an opening bracket or is a single character 0.
abbrev pub bracket : ℕ → ℕ → ℕ
bracket b c = if opens c then b + 1 else if closes c then b - 1 else b

-- What the loop of the buffer begins with while no bracket is open
unfoldable pub skip : Text → Text
skip [] = []
skip (c ∷ cs) = let rest = skip cs in if opens c || c == 0 then c ∷ cs else rest

-- The loop over the characters: what of the buffer ends a message, with the rest of it, or the number
-- of brackets that are open at the end of the buffer
pub data Cut : Type 0 where
  message : Text → Text → Cut
  open_at_end : ℕ → Cut

abbrev pub longer : ℕ → Cut → Cut
longer c (message piece rest) = message (c ∷ piece) rest
longer c (open_at_end b) = open_at_end b

pub scan : ℕ → Text → Cut
scan b [] = open_at_end b
scan b (c ∷ cs) =
    let b' = bracket b c in
    let rest = scan b' cs in if b' == 0 then message (c ∷ []) cs else longer c rest

module _ {E : Type 0} (parse : Text → Option (Trunk E)) where
  abbrev pub seen : Option ℕ → ℕ → ℕ
  seen none old = old
  seen (some zero) old = old
  seen (some (suc r)) old = suc r

  -- What is done with a message; `none` is a text that does not parse
  pub on_message : Watcher E → Option (Trunk E) → Watcher E
  on_message w none = w
  on_message w (some t) = record w {
    last_revision = seen t.revision w.last_revision;
    delivered = (t.revision, t.events) ∷ w.delivered;
    stops = w.stops + (if t.canceled then 1 else 0);
  }

  abbrev pub finish : Watcher E → Text → Watcher E
  finish w piece = on_message (record w { stream = []; brackets = 0 }) (parse (w.stream ++ piece))

  abbrev pub leftover : Watcher E → Text → ℕ → Watcher E
  leftover w cs b = record w { stream = w.stream ++ cs; brackets = b }

  -- `libcurl_callback_on_watch_write`: the loop, once the characters between messages are skipped
  pub on_watch_write : ℕ → Watcher E → Text → Option (Watcher E)
  unfolding scan skip on_message
  on_watch_write zero w cs = none
  on_watch_write (suc fuel) w [] = some w
  on_watch_write (suc fuel) w (c ∷ cs) =
      let buf = if w.brackets == 0 then skip (c ∷ cs) else c ∷ cs in
      elim (scan w.brackets buf) [
        | open_at_end b ↦ some (leftover w buf b)
        | message piece rest ↦ on_watch_write fuel (finish w piece) rest
      ]
