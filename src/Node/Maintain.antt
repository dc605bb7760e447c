-- ===== src/Node/Maintain.antt =====
-- The upkeep of a node of src/node.c: stabilisation, its predecessor, and the checks of other nodes.
use Prim.Native.Nat.{bit_and}
use fyp_dht.Prelude.{
  ℕ, zero, suc, ◌+◌, Bool, true, false, not, List, [], ◌∷◌, Option, some, ◌==◌, ◌||◌, if◌then◌else◌,
  ℤ, pos,
}
use fyp_dht.Prelude.Outcome.{
  null_pointer, wrong_argument, freed_memory, ◌>>=◌, ◌>>◌, pure, fail, need, when,
}
use fyp_dht.Ident.{node_id_in_range}
use fyp_dht.Platform.{Platform}
use fyp_dht.Callback.{
  NodeInfo, null_node, node_stabilize_sp_found, NodeCheckCb, node_check_pred_result,
  node_check_succ_result, CbArg, self_arg, check_arg, freed_arg,
}
use fyp_dht.Netio.Conn.{ask, net_connection_get_read_buffer, net_connection_close}
use fyp_dht.Netio.Server.{on_net, bev_event_eof, bev_event_error, bev_event_timeout}
use fyp_dht.Node.State.{
  NodeSelf, Machine, NodeM, the_node, change, lock_succs, unlock_succs, read_succ, write_succ,
  leave_freed, node_first_alive_succ, num_of_succs,
}
use fyp_dht.Node.Send.{new_block, node_get_predecessor_remote, node_check_node}
use fyp_dht.Node.Found.{App, same_id, node_update_succ}

-- A node that claims to be the predecessor is taken if there is none, if it lies between the
-- predecessor and this node, or if this node is its own predecessor.
unfoldable pub node_notified : NodeSelf → NodeInfo → NodeSelf
node_notified s node =
    if not s.has_pred
      || node_id_in_range node.id s.predecessor.id s.self.id
      || same_id s.predecessor.id s.self.id
    then record s { predecessor = node; has_pred = true }
    else s

abbrev pub no_predecessor : NodeSelf → NodeSelf
no_predecessor s = record s { has_pred = false; predecessor = null_node }

abbrev pub has_bits : ℕ → ℕ → Bool
has_bits what mask = not (bit_and what mask == 0)

module _ {Ev : Type 0} where
  unfoldable pub check_pred_result : Bool → NodeM Ev (Unit {0})
  check_pred_result success = when (not success) (change no_predecessor)

  unfoldable pub check_succ_result : Bool → ℕ → NodeM Ev (Unit {0})
  check_succ_result success sn = when (not success) (write_succ sn null_node)

  unfoldable pub check_result : NodeCheckCb → Bool → NodeM Ev (Unit {0})
  check_result node_check_pred_result success = check_pred_result success
  check_result (node_check_succ_result sn) success = check_succ_result success sn

-- `token[0] == 'Y'`; the string behind an empty line starts with its terminator.
abbrev pub says_yes : List ℕ → Bool
says_yes [] = false
says_yes (c ∷ cs) = c == b'Y'

-- A pointer to a node_check_arg that has been freed.
abbrev pub forget_check : Option CbArg → Option CbArg
forget_check (some (check_arg cb)) = some freed_arg
forget_check arg = arg

module _ {Ev : Type 0} (p : Platform Ev) (app : App Ev) (mc : Machine) where
  -- With a whole node_check_arg as the argument; node_check_node makes none that is.
  unfoldable pub check_reply : ℤ → NodeCheckCb → NodeM Ev (Unit {0})
  check_reply connection cb = do
    read_buf ← on_net (net_connection_get_read_buffer p connection)
    buffer ← need read_buf null_pointer
    line ← on_net (ask (λ ev. p.evbuffer_readln ev buffer))
    token ← need line null_pointer
    check_result cb (says_yes token)
    on_net (net_connection_close p connection)
    leave_freed connection forget_check

  -- It is declared beside the others, and nothing calls it.
  unfoldable pub node_check_predecessor_reply : ℤ → NodeM Ev (Unit {0})
  node_check_predecessor_reply connection = do
    read_buf ← on_net (net_connection_get_read_buffer p connection)
    buffer ← need read_buf null_pointer
    line ← on_net (ask (λ ev. p.evbuffer_readln ev buffer))
    token ← need line null_pointer
    if says_yes token then pure tt else change no_predecessor
    on_net (net_connection_close p connection)

  unfoldable pub check_node_reply : ℤ → Option CbArg → NodeM Ev (Unit {0})
  check_node_reply connection (some (check_arg cb)) = check_reply connection cb
  check_node_reply connection (some freed_arg) = fail freed_memory
  check_node_reply connection _ = fail wrong_argument

  unfoldable pub check_event : ℤ → ℕ → NodeCheckCb → NodeM Ev (Unit {0})
  check_event connection what cb =
      when (has_bits what (bev_event_eof + bev_event_error + bev_event_timeout)) (
        when (has_bits what (bev_event_error + bev_event_timeout)) (check_result cb false)
        >> on_net (net_connection_close p connection)
        >> leave_freed connection forget_check)

  unfoldable pub check_node_event : ℤ → ℕ → Option CbArg → NodeM Ev (Unit {0})
  check_node_event connection what (some (check_arg cb)) = check_event connection what cb
  check_node_event connection what (some freed_arg) = fail freed_memory
  check_node_event connection what _ = fail wrong_argument

  unfoldable pub notify_rep_event : ℤ → ℕ → Option CbArg → NodeM Ev (Unit {0})
  notify_rep_event connection what (some self_arg) =
      when (has_bits what (bev_event_eof + bev_event_error + bev_event_timeout))
        (on_net (net_connection_close p connection))
  notify_rep_event connection what _ = fail wrong_argument

  unfoldable pub node_network_stabalize : NodeM Ev (Unit {0})
  node_network_stabalize = do
    s ← the_node
    succ ← read_succ (node_first_alive_succ s)
    node_get_predecessor_remote p mc succ node_stabilize_sp_found

  unfoldable pub node_update_succs : NodeM Ev (Unit {0})
  node_update_succs = do
    lock_succs
    s ← the_node
    node_update_succ p app mc (node_first_alive_succ s)
    unlock_succs

  -- `for (i = ...; i < NUM_OF_SUCCS; ++i)`, with the rounds that are left.
  unfoldable pub check_from : ℕ → ℕ → NodeM Ev (Unit {0})
  check_from zero i = pure tt
  check_from (suc left) i = do
    succ ← read_succ (pos i)
    when (not (succ.ip == 0)) (new_block p >> node_check_node p mc succ (node_check_succ_result i))
    check_from left (suc i)

  unfoldable pub node_check_successors : NodeM Ev (Unit {0})
  node_check_successors = check_from num_of_succs 0

  unfoldable pub node_check_predecessor : NodeM Ev (Unit {0})
  node_check_predecessor = do
    s ← the_node
    when s.has_pred (node_check_node p mc s.predecessor node_check_pred_result)
