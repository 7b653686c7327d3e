-- ===== src/Client.antt =====
-- client/: the shell, its commands and the messages that they exchange with the server. An int is the
-- 32-bit word that holds it.
pub mod Line
pub mod Message
pub mod Prompt
use Prim.Native.String.{String}
use emeralddb_src.Base.{ℕ, Option, none, some, ◌==◌, if◌then◌else◌}

-- The error codes of the client, from -101 on
abbrev pub query_invalid_argument : ℕ
query_invalid_argument = 4294967195

abbrev pub insert_invalid_argument : ℕ
insert_invalid_argument = 4294967194

abbrev pub delete_invalid_argument : ℕ
delete_invalid_argument = 4294967193

abbrev pub invalid_record : ℕ
invalid_record = 4294967192

abbrev pub recv_data_length_error : ℕ
recv_data_length_error = 4294967189

abbrev pub sock_init_failed : ℕ
sock_init_failed = 4294967183

abbrev pub sock_connect_failed : ℕ
sock_connect_failed = 4294967182

abbrev pub sock_not_connect : ℕ
sock_not_connect = 4294967181

abbrev pub sock_remote_closed : ℕ
sock_remote_closed = 4294967180

abbrev pub sock_send_failed : ℕ
sock_send_failed = 4294967179

abbrev pub msg_build_failed : ℕ
msg_build_failed = 4294967177

-- What `getError` prints; it returns the code.
unfoldable pub error_text : ℕ → Option String
error_text code =
    if code == 4294967295
    then some "io error is occurred"
    else if code == 4294967294
    then some "invalid argument"
    else if code == 4294967293
    then some "edb_perm"
    else if code == 4294967292
    then some "edb_oom"
    else if code == 4294967291
    then some "edb_sys"
    else if code == 4294967287
    then some "edu_quiesced"
    else if code == 4294967290
    then some "edb_network_close"
    else if code == 4294967289
    then some "edb_pmd_force_system_edu"
    else if code == 4294967288
    then some "edb_timeout"
    else if code == 4294967286
    then some "edb_edu_inval_status"
    else if code == 4294967285
    then some "edb_network"
    else if code == 4294967284
    then some "edb_network_close"
    else if code == 4294967283
    then some "edb_app_forced"
    else if code == 4294967282
    then some "edb_ixm_id_exist"
    else if code == 4294967281
    then some "edb_header_invalid"
    else if code == 4294967280
    then some "edb_ixm_id_not_exist"
    else if code == query_invalid_argument
    then some "edb_query_invalid_argument"
    else if code == insert_invalid_argument
    then some "edb_insert_invalid_argument"
    else if code == delete_invalid_argument
    then some "edb_delete_invalid_argument"
    else if code == invalid_record
    then some "edb_invalid_record"
    else if code == recv_data_length_error
    then some "edb_recv_data_length_error"
    else if code == sock_init_failed
    then some "edb_sock__init_failed"
    else if code == sock_connect_failed
    then some "edb_sock_connect_failed"
    else if code == sock_not_connect
    then some "edb_sock_not_connect"
    else if code == sock_remote_closed
    then some "edb_sock_remote_closed"
    else if code == sock_send_failed
    then some "edb_sock_send_failed"
    else if code == msg_build_failed
    then some "edb_msg_build_failed"
    else none
