-- ===== src/Etcd/Keepalive.antt =====
-- A key that is kept in etcd, `etcd_keepalive` (component/etcdcli/etcd_keepalive.h,
-- etcd_keepalive.cpp). `etcd_cluster`, the HTTP client and the JSON library answer through `Owner` and
-- the replies; a request that `close` has stopped calls nothing back.
pub mod Checks
pub mod Delivery
pub mod Life
mod Examples
use atsf4g_co.Base.{
  ℕ, suc, ◌+◌, ℤ, pos, is_zero, Bool, true, false, not, ◌&&◌, Option, none, some, List, [], ◌∷◌,
  ltb, ◌==◌, if◌then◌else◌, u64, is_some,
}

-- A string, as the list of its characters.
abbrev pub Text : Type 0
Text = List ℕ

unfoldable pub same_text : Text → Text → Bool
same_text [] [] = true
same_text [] (y ∷ ys) = false
same_text (x ∷ xs) [] = false
same_text (x ∷ xs) (y ∷ ys) = x == y && same_text xs ys

-- The request of `rpc_opr_`: `create_request_kv_get`, or `create_request_kv_set` with its value.
pub data Request : Type 0 where
  get_data : Request
  set_data : Text → Request

-- The members of `etcd_keepalive`, less the owner and the path. Two fields are of the outside:
-- `retries` counts the calls of `add_retry_keepalive`, and `stored` is the value of the last
-- request to set it that succeeded.
pub record Keepalive : Type 0 where
  pub value : Text
  pub rpc_opr : Option Request
  pub is_actived : Bool
  pub is_value_changed : Bool
  pub has_data : Bool
  pub fn : Option (Text → Bool)
  pub is_check_run : Bool
  pub is_check_passed : Bool
  pub retry_times : ℕ
  pub retries : ℕ
  pub stored : Option Text

-- What the owner and the HTTP client answer in one call.
pub record Owner : Type 0 where
  pub running : Bool
  pub lease : ℕ
  pub creates_get : Bool
  pub creates_set : Bool
  pub start_result : ℤ

-- The document of a reply: the member "count", and the values of "kvs" if it is there.
pub record Document : Type 0 where
  pub count : ℤ
  pub kvs : Option (List Text)

-- A reply: is it a success, and the document, `none` if it does not parse.
pub record Reply : Type 0 where
  pub succeeds : Bool
  pub document : Option Document

-- `etcd_keepalive::etcd_keepalive`
unfoldable pub create : Keepalive
create = record {
  value = [];
  rpc_opr = none;
  is_actived = false;
  is_value_changed = true;
  has_data = false;
  fn = none;
  is_check_run = false;
  is_check_passed = false;
  retry_times = 0;
  retries = 0;
  stored = none;
}

-- `default_checker_t::operator()`
pub default_checker : Text → Text → Bool
default_checker text [] = true
default_checker text (x ∷ xs) = same_text text (x ∷ xs)

-- `close`
unfoldable pub close : Keepalive → Bool → Keepalive
close k reset_has_data_flag = record k {
  rpc_opr = none;
  is_actived = false;
  is_value_changed = true;
  has_data = if reset_has_data_flag then false else k.has_data;
  fn = none;
  is_check_run = false;
  is_check_passed = false;
  retry_times = 0;
}

-- `set_checker`, of a text and of a function
pub set_checker_text : Keepalive → Text → Keepalive
set_checker_text k checked = record k { fn = some (default_checker checked) }

pub set_checker : Keepalive → Option (Text → Bool) → Keepalive
set_checker k fn = record k { fn = fn }

-- `reset_value_changed`
unfoldable pub reset_value_changed : Keepalive → Keepalive
reset_value_changed k = record k { is_value_changed = true }

-- `owner_->add_retry_keepalive` if `need_retry`
abbrev add_retry : Bool → Keepalive → Keepalive
add_retry need k = if need then record k { retries = k.retries + 1 } else k

module _ (o : Owner) where
  -- `process` up to its loop
  unfoldable pub prepare : Keepalive → Keepalive
  prepare k =
      let k1 = record k { is_actived = false } in
      if is_some k.fn then k1 else record k1 {
        is_check_run = true;
        is_check_passed = true;
        retry_times = u64 (k.retry_times + 1);
      }

  -- The loop of `process`: which request it makes. The Boolean is `need_retry`.
  unfoldable pub choose : Keepalive → Keepalive × Bool
  choose k =
      if not k.is_check_run
      then (if o.creates_get
          then (record k { rpc_opr = some get_data }, false)
          else (record k { retry_times = u64 (k.retry_times + 1) }, true))
      else if k.is_check_passed && k.is_value_changed
      then (if o.creates_set
          then (record k { rpc_opr = some (set_data k.value); is_value_changed = false }, false)
          else (k, true))
      else (k, false)

  -- `process` after its loop
  unfoldable pub start : Keepalive × Bool → Keepalive
  start (k, need_retry) = elim k.rpc_opr [
    | none ↦ add_retry need_retry k
    | some r ↦
        if is_zero o.start_result
        then add_retry need_retry k
        else add_retry true (record k { rpc_opr = none })
  ]

  -- `process`
  unfoldable pub process : Keepalive → Keepalive
  unfolding prepare choose start
  process k = elim k.rpc_opr [ some r ↦ k | none ↦ start (choose (prepare k)) ]

  -- `active`
  unfoldable pub active : Keepalive → Keepalive
  unfolding process
  active k = process (record k { is_actived = true })

  -- `set_value`
  pub set_value : Keepalive → Text → Keepalive
  unfolding active
  set_value k str =
      let k1 = record k { value = str; is_value_changed = true } in
      if same_text k.value str then k else if o.running && not (o.lease == 0) then active k1 else k1

  -- The value of the first key in a document; `none` where "kvs" is missing
  unfoldable pub value_of : Option Document → Option Text
  value_of none = some []
  value_of (some d) = elim d.count [
    | pos n ↦
        if n == 0
        then some []
        else elim d.kvs [ none ↦ none | some vs ↦ elim vs [ [] ↦ some [] | v ∷ rest ↦ some v ] ]
    | _ ↦ some []
  ]

  abbrev pub passes : Option (Text → Bool) → Text → Bool
  passes none v = true
  passes (some fn) v = fn v

  -- `libcurl_callback_on_get_data`
  pub on_get_data : Keepalive → Reply → Keepalive
  unfolding active value_of
  on_get_data k reply =
      let k1 = record k { rpc_opr = none; retry_times = u64 (k.retry_times + 1) } in
      let found = value_of reply.document in
      if not reply.succeeds then add_retry true k1 else elim found [
        | none ↦ add_retry true k1
        | some v ↦ active (record k1 { is_check_run = true; is_check_passed = passes k.fn v })
      ]

  -- `libcurl_callback_on_set_data`, for the request with the value `v`
  pub on_set_data : Keepalive → Text → Bool → Keepalive
  unfolding active
  on_set_data k v succeeds =
      let k1 = record k { rpc_opr = none } in
      if succeeds
      then active (record k1 { has_data = true; stored = some v })
      else add_retry true (record k1 { is_value_changed = true })

  -- The reply to the request that is under way
  pub on_reply : Keepalive → Reply → Keepalive
  unfolding on_get_data on_set_data
  on_reply k reply = elim k.rpc_opr [
    | none ↦ k
    | some r ↦ elim r [
      | get_data ↦ on_get_data k reply
      | set_data v ↦ on_set_data k v reply.succeeds
    ]
  ]
