-- ===== src/Gateway/Flags.antt =====
-- `session::flag_t`, `check_flag` and `set_flag` (atgateway/session.h, session.cpp): the flags as the
-- eight bits of `flags_`, and as a record of Booleans, which the rest of the gateway uses.
pub mod Bits
use atsf4g_co.Base.{ℕ, Bool, true, false}

pub data Flag : Type 0 where
  inited has_fd registered reconnected wait_reconnect closing closing_fd writing_fd : Flag

pub record Flags : Type 0 where
  pub inited : Bool
  pub has_fd : Bool
  pub registered : Bool
  pub reconnected : Bool
  pub wait_reconnect : Bool
  pub closing : Bool
  pub closing_fd : Bool
  pub writing_fd : Bool

-- `flags_(0)`
abbrev pub no_flags : Flags
no_flags = record {
  inited = false;
  has_fd = false;
  registered = false;
  reconnected = false;
  wait_reconnect = false;
  closing = false;
  closing_fd = false;
  writing_fd = false;
}

abbrev pub check_flag : Flags → Flag → Bool
check_flag f inited = f.inited
check_flag f has_fd = f.has_fd
check_flag f registered = f.registered
check_flag f reconnected = f.reconnected
check_flag f wait_reconnect = f.wait_reconnect
check_flag f closing = f.closing
check_flag f closing_fd = f.closing_fd
check_flag f writing_fd = f.writing_fd

abbrev pub set_flag : Flags → Flag → Bool → Flags
set_flag f inited v = record f { inited = v }
set_flag f has_fd v = record f { has_fd = v }
set_flag f registered v = record f { registered = v }
set_flag f reconnected v = record f { reconnected = v }
set_flag f wait_reconnect v = record f { wait_reconnect = v }
set_flag f closing v = record f { closing = v }
set_flag f closing_fd v = record f { closing_fd = v }
set_flag f writing_fd v = record f { writing_fd = v }

-- `EN_FT_INITED = 0x0001` to `EN_FT_WRITING_FD = 0x0080`
abbrev pub bit : Flag → ℕ
bit inited = 0x0001
bit has_fd = 0x0002
bit registered = 0x0004
bit reconnected = 0x0008
bit wait_reconnect = 0x0010
bit closing = 0x0020
bit closing_fd = 0x0040
bit writing_fd = 0x0080
