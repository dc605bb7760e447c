-- ===== src/Node/Names.antt =====
-- node_msg_type_str of src/node.c: the names of the message types, for logs.
use Prim.Native.String.{String}
use fyp_dht.Prelude.{ℕ, ◌==◌, if◌then◌else◌}
use fyp_dht.Node.Send.{msg_t_succ_req, msg_t_pred_req, msg_t_notif, msg_t_alive_req, msg_t_node_msg}

abbrev pub msg_t_succ_rep : ℕ
msg_t_succ_rep = b's'

abbrev pub msg_t_pred_rep : ℕ
msg_t_pred_rep = b'p'

abbrev pub msg_t_alive_rep : ℕ
msg_t_alive_rep = b'a'

abbrev pub msg_t_unknown : ℕ
msg_t_unknown = b'0'

unfoldable pub node_msg_type_str : ℕ → String
node_msg_type_str msg_type =
    if msg_type == msg_t_alive_req
    then "REQ_ALIVE"
    else if msg_type == msg_t_notif
    then "REQ_NOTIFY"
    else if msg_type == msg_t_pred_req
    then "REQ_PRED"
    else if msg_type == msg_t_succ_req
    then "REQ_SUCC"
    else if msg_type == msg_t_alive_rep
    then "RESP_ALIVE"
    else if msg_type == msg_t_pred_rep
    then "RESP_PRED"
    else if msg_type == msg_t_succ_rep
    then "RESP_SUCC"
    else if msg_type == msg_t_node_msg
    then "NODE_MSG"
    else if msg_type == msg_t_unknown
    then "UNKNOWN"
    else "NONE"
