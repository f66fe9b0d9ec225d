-- ===== src/Gateway/Codes.antt =====
-- `error_code_t` and `close_reason_t` (atgateway/protocols/proto_base.h), the codes that the
-- gateway uses.
use atsf4g_co.Base.{ℕ, ℤ, pos, negsuc}

-- 0
abbrev pub ect_success : ℤ
ect_success = pos 0

-- -1002
abbrev pub ect_handshake : ℤ
ect_handshake = negsuc 1001

-- -1005
abbrev pub ect_refuse_reconnect : ℤ
ect_refuse_reconnect = negsuc 1004

-- -1007
abbrev pub ect_invalid_router : ℤ
ect_invalid_router = negsuc 1006

-- -1009
abbrev pub ect_network : ℤ
ect_network = negsuc 1008

-- -1010
abbrev pub ect_bad_protocol : ℤ
ect_bad_protocol = negsuc 1009

-- -1011
abbrev pub ect_closing : ℤ
ect_closing = negsuc 1010

-- -1012
abbrev pub ect_lost_manager : ℤ
ect_lost_manager = negsuc 1011

-- -1014
abbrev pub ect_handle_not_found : ℤ
ect_handle_not_found = negsuc 1013

-- -1015
abbrev pub ect_already_has_fd : ℤ
ect_already_has_fd = negsuc 1014

-- -1016
abbrev pub ect_session_not_found : ℤ
ect_session_not_found = negsuc 1015

-- -1021
abbrev pub ect_bad_data : ℤ
ect_bad_data = negsuc 1020

abbrev pub crt_trafic_extended : ℕ
crt_trafic_extended = 0x0002

abbrev pub crt_invalid_data : ℕ
crt_invalid_data = 0x0003

abbrev crt_reset : ℕ
crt_reset = 0x0004

abbrev crt_reconnect_bound : ℕ
crt_reconnect_bound = 0x10000

abbrev pub crt_first_idle : ℕ
crt_first_idle = 0x10001

abbrev pub crt_server_closed : ℕ
crt_server_closed = 0x10002

abbrev pub crt_server_busy : ℕ
crt_server_busy = 0x10003

abbrev pub crt_kickoff : ℕ
crt_kickoff = 0x10004

abbrev pub crt_logout : ℕ
crt_logout = 0x10006

-- -1022
abbrev pub ect_invalid_size : ℤ
ect_invalid_size = negsuc 1021

-- -1006
abbrev pub ect_miss_callbacks : ℤ
ect_miss_callbacks = negsuc 1005

-- -1023
abbrev pub ect_no_data : ℤ
ect_no_data = negsuc 1022

-- -1019
abbrev pub ect_crypt_not_supported : ℤ
ect_crypt_not_supported = negsuc 1018

-- -1020
abbrev pub ect_param : ℤ
ect_param = negsuc 1019

-- -1101
abbrev pub ect_crypt_already_inited : ℤ
ect_crypt_already_inited = negsuc 1100

-- -1102
abbrev pub ect_crypt_verify : ℤ
ect_crypt_verify = negsuc 1101

-- -1103
abbrev pub ect_crypt_operation : ℤ
ect_crypt_operation = negsuc 1102

abbrev pub crt_handshake : ℕ
crt_handshake = 0x10005
