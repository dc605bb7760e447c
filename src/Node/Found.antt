-- ===== src/Node/Found.antt =====
-- What a node of src/node.c does with a node that was found: the node_found callbacks, the lists of
-- successors and fingers that they fill, and the replies of other nodes.
use fyp_dht.Prelude.{
  ℕ, ◌+◌, ◌%◌, ◌^◌, Bool, false, not, [], ◌∷◌, Option, none, some, ◌==◌, ltb, ◌&&◌, ◌||◌,
  if◌then◌else◌, ℤ, pos, negsuc,
}
use fyp_dht.Prelude.Outcome.{
  null_pointer, wrong_argument, freed_memory, ◌>>=◌, ◌>>◌, pure, fail, need, when, if_some,
}
use mathlib.Core.Option
use fyp_dht.Ident.{node_id_in_range, node_id_compare, hash_mod}
use fyp_dht.Platform.{Platform, Evbuffer}
use fyp_dht.Callback.{
  NodeInfo, null_node, NodeMessage, NodeFoundCbData, FoundCb, node_network_join_succ_found,
  node_stabilize_sp_found, node_update_succs_found, finger_update, node_successor_found_for_remote,
  app_found, CbArg, found_arg, freed_arg, node_network_joined,
}
use fyp_dht.Wire.Memory.{memory_bytes, overwrite}
use fyp_dht.Netio.Conn.{
  ask, call, net_connection_get_read_buffer, net_connection_get_write_buffer, net_connection_close,
}
use fyp_dht.Netio.Server.{on_net}
use fyp_dht.Node.State.{
  Machine, NodeM, the_node, id_bytes, lock_succs, unlock_succs, read_succ, write_succ, write_finger,
  leave_freed, node_first_alive_succ,
}
use fyp_dht.Node.Send.{
  add_bytes, node_find_successor_remote, node_notify_node, new_block, new_found, is_zero,
}

-- The application's functions that the code calls: they run on the whole process.
pub record App (Ev : Type 0) : Type 0 where
  pub joined_cb : ℕ → NodeM Ev (Unit {0})
  pub found_cb : ℕ → NodeInfo → ℕ → NodeM Ev (Unit {0})
  pub message_cb : ℕ → NodeMessage → ℤ → ℕ → NodeM Ev (Unit {0})
  pub data_cb : ℕ → ℤ → Option CbArg → NodeM Ev (Unit {0})
  pub event_cb : ℕ → ℤ → ℕ → Option CbArg → NodeM Ev (Unit {0})

abbrev pub same_id : ℕ → ℕ → Bool
same_id a b = is_zero (node_id_compare a b)

-- `succ_num + 1`, for a number that has been used as an index.
abbrev pub next_num : ℤ → ℕ
next_num (pos n) = n + 1
next_num (negsuc n) = 0

-- `short` arithmetic, as a bit pattern of 16 bits.
abbrev pub next_hops : ℕ → ℕ
next_hops hops = (hops + 1) % 2 ^ 16

-- A pointer to a block of node_found_cb_data that has been freed.
abbrev pub forget_found : Option CbArg → Option CbArg
forget_found (some (found_arg d)) = some freed_arg
forget_found arg = arg

module _ {Ev : Type 0} (p : Platform Ev) (app : App Ev) (mc : Machine) where
  unfoldable pub join_succ_found : NodeInfo → ℕ → NodeM Ev (Unit {0})
  join_succ_found succ joined = do
    write_succ 0 succ
    crtevt ← on_net (ask (λ ev. p.event_new ev false (node_network_joined joined)))
    if_some crtevt (λ e. on_net (call (λ ev. p.event_active ev e))) (pure tt)

  -- The new successor is taken if this node is its own successor, or if it lies behind this node and
  -- not behind the successor.
  unfoldable pub take_successor : NodeInfo → NodeM Ev (Unit {0})
  take_successor new_succ = do
    lock_succs
    s ← the_node
    succ ← read_succ (node_first_alive_succ s)
    when
        (same_id s.self.id succ.id
          || node_id_in_range new_succ.id ((s.self.id + 1) % hash_mod) succ.id)
        (write_succ 0 new_succ)
    unlock_succs

  unfoldable pub notify_successor : NodeM Ev (Unit {0})
  notify_successor = do
    lock_succs
    s ← the_node
    succ ← read_succ (node_first_alive_succ s)
    node_notify_node p mc succ
    unlock_succs

  unfoldable pub stabilize_sp_found : NodeInfo → NodeM Ev (Unit {0})
  stabilize_sp_found new_succ =
      when (not (new_succ.port == 0 && new_succ.ip == 0)) (take_successor new_succ)
      >> notify_successor

  -- The number of the next successor is the argument of the callback.
  unfoldable pub node_update_succ : ℤ → NodeM Ev (Unit {0})
  node_update_succ succ_num = do
    new_block p
    new_block p
    succ ← read_succ succ_num
    if succ.ip == 0 then pure tt else (do
      rc ←
          node_find_successor_remote p mc succ ((succ.id + 1) % hash_mod)
            (new_found mc (node_update_succs_found (next_num succ_num)))
      pure tt)

  unfoldable pub update_succs_found : NodeInfo → ℕ → NodeM Ev (Unit {0})
  update_succs_found found succ_num = do
    lock_succs
    write_succ succ_num found
    when (ltb succ_num 7) (node_update_succ (pos succ_num))
    unlock_succs

  -- A node is no finger of its own.
  unfoldable pub update_finger : NodeInfo → ℕ → NodeM Ev (Unit {0})
  update_finger node finger_num = do
    s ← the_node
    write_finger finger_num (if same_id s.self.id node.id then null_node else node)

  unfoldable pub successor_found_for_remote : NodeInfo → ℤ → ℕ → NodeM Ev (Unit {0})
  successor_found_for_remote succ connection hops = do
    write_buf ← on_net (net_connection_get_write_buffer p connection)
    add_bytes p write_buf (b'Y' ∷ [])
    add_bytes p write_buf (memory_bytes mc.big id_bytes succ.id)
    add_bytes p write_buf (memory_bytes mc.big 4 succ.ip)
    add_bytes p write_buf (memory_bytes mc.big 2 succ.port)
    add_bytes p write_buf (memory_bytes mc.big 2 (next_hops hops))

  unfoldable pub run_found : FoundCb → NodeInfo → ℕ → NodeM Ev (Unit {0})
  run_found (node_network_join_succ_found joined) node hops = join_succ_found node joined
  run_found node_stabilize_sp_found node hops = stabilize_sp_found node
  run_found (node_update_succs_found succ_num) node hops = update_succs_found node succ_num
  run_found (finger_update finger_num) node hops = update_finger node finger_num
  run_found (node_successor_found_for_remote connection) node hops =
      successor_found_for_remote node connection hops
  run_found (app_found f) node hops = app.found_cb f node hops

  -- `cb_data->cb(cb_data->node, cb_data->found_cb_arg, cb_data->hops)`.
  unfoldable pub node_found : NodeFoundCbData → NodeM Ev (Unit {0})
  node_found d = run_found d.cb d.node d.hops

  -- `evbuffer_remove(buf, (char*)&x, w)`: what the variable then holds, none for a negative result.
  unfoldable pub read_var : Evbuffer → ℕ → ℕ → NodeM Ev (Option ℕ)
  read_var buffer w old = do
    got ← on_net (ask (λ ev. p.evbuffer_remove ev buffer w))
    pure (Option.map (overwrite mc.big w old) got)

  -- The four reads of a found node, each made only if those before it succeeded; `hops` keeps what was
  -- read of it on any path.
  unfoldable pub read_found : Evbuffer → NodeFoundCbData → NodeM Ev (Option NodeFoundCbData)
  read_found buffer d = do
    id ← read_var buffer id_bytes d.node.id
    if_some id
        (λ id. do
          ip ← read_var buffer 4 d.node.ip
          if_some ip
              (λ ip. do
                port ← read_var buffer 2 d.node.port
                if_some port
                    (λ port. do
                      hops ← read_var buffer 2 d.hops
                      if_some hops
                          (λ hops. pure (
                            some (record d {
                              node = record { id = id; ip = ip; port = port };
                              hops = hops;
                            })))
                          (pure none))
                    (pure none))
              (pure none))
        (pure none)

  abbrev pub not_found : NodeFoundCbData → NodeFoundCbData
  not_found d = record d { node = null_node }

  unfoldable pub read_reply : ℤ → Evbuffer → NodeFoundCbData → NodeM Ev NodeFoundCbData
  read_reply connection buffer d = do
    result ← read_var buffer 1 mc.result_char
    if not (Option.get_or result mc.result_char == b'Y') then pure (not_found d) else (do
      found ← read_found buffer d
      if_some found pure (on_net (net_connection_close p connection) >> pure (not_found d)))

  -- node_found frees the block behind its callback; the entry that it was taken from keeps the
  -- address, until a request that the callback makes writes another there.
  unfoldable pub found_reply : ℤ → NodeFoundCbData → NodeM Ev (Unit {0})
  found_reply connection d = do
    read_buf ← on_net (net_connection_get_read_buffer p connection)
    buffer ← need read_buf null_pointer
    d ← read_reply connection buffer d
    on_net (net_connection_close p connection)
    leave_freed connection forget_found
    node_found d

  unfoldable pub node_found_remote : ℤ → Option CbArg → NodeM Ev (Unit {0})
  node_found_remote connection (some (found_arg d)) = found_reply connection d
  node_found_remote connection (some freed_arg) = fail freed_memory
  node_found_remote connection _ = fail wrong_argument
