-- ===== src/Errors.antt =====
-- The `error` operation of each kind of client: `*_error_op` of src/ctl/server/ctl_server_ops.c,
-- src/ichat/server/ichat_server_ops.c, src/ichat/s2s_server/ichat_s2s_server_ops.c,
-- src/ctl/client/ctl_client_ops.c, src/ichat/client/ichat_client_ops.c and
-- src/ichat/s2s_client/ichat_s2s_client_ops.c.
use ichatd.Client.{
  Client, Impl, ctl_server, ichat_server, s2s_server, ctl_client, ichat_client, s2s_client,
}
use ichatd.Server.{corrupted}

abbrev ctl_server_error_op : Client → Client
ctl_server_error_op c = corrupted c

abbrev ichat_server_error_op : Client → Client
ichat_server_error_op c = corrupted c

abbrev ichat_s2s_server_error_op : Client → Client
ichat_s2s_server_error_op c = corrupted c

abbrev ctl_client_error_op : Client → Client
ctl_client_error_op c = corrupted c

abbrev ichat_client_error_op : Client → Client
ichat_client_error_op c = corrupted c

abbrev ichat_s2s_client_error_op : Client → Client
ichat_s2s_client_error_op c = corrupted c

-- `op.error`.
abbrev pub op_error : Impl → Client → Client
op_error ctl_server = ctl_server_error_op
op_error ichat_server = ichat_server_error_op
op_error s2s_server = ichat_s2s_server_error_op
op_error (ctl_client i) = ctl_client_error_op
op_error (ichat_client i) = ichat_client_error_op
op_error (s2s_client i) = ichat_s2s_client_error_op
