-- ===== src/Gateway/State.antt =====
-- The state of a session (atgateway/session.h), the configuration of the manager that it reads
-- (session_manager.h), and what a call gets from outside.
use atsf4g_co.Base.{ℕ, ℤ, ◌≡◌, refl, ◌⊎◌, inl, inr, Bool, true, Option, none, some, List, []}
use atsf4g_co.Gateway.Flags.{Flag, Flags, no_flags, check_flag as check_bit, set_flag as set_bit}

-- `session::limit_t`
pub record Limit : Type 0 where
  pub total_recv_bytes : ℕ
  pub total_send_bytes : ℕ
  pub hour_recv_bytes : ℕ
  pub hour_send_bytes : ℕ
  pub minute_recv_bytes : ℕ
  pub minute_send_bytes : ℕ
  pub total_recv_times : ℕ
  pub total_send_times : ℕ
  pub hour_recv_times : ℕ
  pub hour_send_times : ℕ
  pub minute_recv_times : ℕ
  pub minute_send_times : ℕ
  pub hour_timepoint : ℕ
  pub minute_timepoint : ℕ
  pub update_handshake_timepoint : ℕ

-- `memset(&limit_, 0, sizeof(limit_))`
abbrev pub no_limit : Limit
no_limit = record {
  total_recv_bytes = 0;
  total_send_bytes = 0;
  hour_recv_bytes = 0;
  hour_send_bytes = 0;
  minute_recv_bytes = 0;
  minute_send_bytes = 0;
  total_recv_times = 0;
  total_send_times = 0;
  hour_recv_times = 0;
  hour_send_times = 0;
  minute_recv_times = 0;
  minute_send_times = 0;
  hour_timepoint = 0;
  minute_timepoint = 0;
  update_handshake_timepoint = 0;
}

-- `session_manager::client_limit_t`; 0 is no limit
pub record ClientLimit : Type 0 where
  pub total_recv_bytes : ℕ
  pub total_send_bytes : ℕ
  pub hour_recv_bytes : ℕ
  pub hour_send_bytes : ℕ
  pub minute_recv_bytes : ℕ
  pub minute_send_bytes : ℕ
  pub total_recv_times : ℕ
  pub total_send_times : ℕ
  pub hour_recv_times : ℕ
  pub hour_send_times : ℕ
  pub minute_recv_times : ℕ
  pub minute_send_times : ℕ
  pub max_client_number : ℕ

-- `session_manager::conf_t`, less the addresses to listen to; `update_interval` is `crypt`'s
pub record Conf : Type 0 where
  pub limits : ClientLimit
  pub reconnect_timeout : ℕ
  pub first_idle_timeout : ℕ
  pub send_buffer_size : ℕ
  pub default_router : ℕ
  pub update_interval : ℕ

-- The bodies of `ss_msg`, with the session id of the head, that the gateway sends to a server.
pub data SsMsg : Type 0 where
  add_session : ℕ → List ℕ → ℕ → SsMsg
  remove_session : ℕ → List ℕ → ℕ → SsMsg
  post : ℕ → List ℕ → SsMsg

-- A message handed to the bus node: the bus id that it goes to, and the answer of `send_data`.
pub record Sent : Type 0 where
  pub router : ℕ
  pub msg : SsMsg
  pub answer : ℤ

-- What a call reads: the clock, the manager's configuration and whether the manager has a bus node;
-- and the libraries: the size of a message that `SerializeToString` packs, `none` if that fails, and
-- the answer of `send_data`, which may depend on all that was sent before; and the clock's constants
-- `DAY_SECONDS` and `MINITE_SECONDS`.
pub record Env : Type 0 where
  pub now : ℕ
  pub day_seconds : ℕ
  pub minute_seconds : ℕ
  pub conf : Conf
  pub app_node : Bool
  pub packed_size : SsMsg → Option ℕ
  pub send_data : List Sent → ℕ → SsMsg → ℤ

-- The members of `session`. `owner` is `NULL != owner_`, and a null `proto_` is `none`. Two fields
-- stand for the handle's side: `shutdowns` counts the calls of `uv_shutdown`, and `holders` the shared
-- pointers to the session that `shutdown_req_.data` has been given and not yet freed.
pub record Session (P : Type 0) : Type 0 where
  pub id : ℕ
  pub router : ℕ
  pub owner : Bool
  pub limit : Limit
  pub flags : Flags
  pub peer_ip : List ℕ
  pub peer_port : ℕ
  pub proto : Option P
  pub private_data : ℕ
  pub shutdowns : ℕ
  pub holders : ℕ

-- `session::session`, then `session::create` with a manager and a protocol object
unfoldable pub create : {P : Type 0} → Option P → Option (Session P)
create none = none
create (some p) = some (record {
  id = 0;
  router = 0;
  owner = true;
  limit = no_limit;
  flags = no_flags;
  peer_ip = [];
  peer_port = 0;
  proto = some p;
  private_data = 0;
  shutdowns = 0;
  holders = 0;
})

-- `set_flag`, on a session
abbrev pub set_flag : {P : Type 0} → Session P → Flag → Bool → Session P
set_flag s t v = record s { flags = set_bit s.flags t v }

-- `check_flag`, on a session
abbrev pub check_flag : {P : Type 0} → Session P → Flag → Bool
check_flag s t = check_bit s.flags t

-- The outcome of a call: a result, a null pointer that is followed, or fuel that ran out.
pub data Outcome (A : Type 0) : Type 0 where
  done : A → Outcome A
  null_deref : Outcome A
  no_fuel : Outcome A

infixl 5 ◌>>=◌
abbrev pub ◌>>=◌ : {A B : Type 0} → Outcome A → (A → Outcome B) → Outcome B
done a >>= f = f a
null_deref >>= f = null_deref
no_fuel >>= f = no_fuel

-- A session together with what the gateway has sent, the latest first.
pub record Net (P : Type 0) : Type 0 where
  pub sess : Session P
  pub sent : List Sent

pub Outcome-cases :
    {A : Type 0} (o : Outcome A) → ((a : A) × (o ≡ done a)) ⊎ ((o ≡ null_deref) ⊎ (o ≡ no_fuel))
Outcome-cases (done a) = inl (a, refl)
Outcome-cases null_deref = inr (inl refl)
Outcome-cases no_fuel = inr (inr refl)
