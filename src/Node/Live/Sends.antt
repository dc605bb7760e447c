-- ===== src/Node/Live/Sends.antt =====
-- The requests of src/node.c: each returns, with a connection that is open or a negative number.
-- `Q` is what holds of the node, which the requests leave as it is.
use fyp_dht.Prelude.{
  is_negative, ℕ, ◌≡◌, inl, inr, refl, Bool, true, false, List, Option, some, none, is_some,
  if◌then◌else◌, ℤ, pos, negsuc,
}
use fyp_dht.Prelude.Outcome.{if_some, pure}
use fyp_dht.Prelude.Returns.{Returns, Stays, Returns-bind, Stays-bind, Returns-pure, returns_rules}
use fyp_dht.Platform.{Platform, Evbuffer}
use fyp_dht.Callback.{NodeInfo, NodeMessage, NodeFoundCbData, FoundCb, CbArg, DataCb, EventCb}
use fyp_dht.Netio.Conn.{ask}
use fyp_dht.Node.Send.{message_text}
use fyp_dht.Netio.State.{net_valid_connection_num}
use fyp_dht.Netio.Valid.{IsValid}
use fyp_dht.Netio.Server.{Host, on_net}
use fyp_dht.Netio.Hosts.{HostInv, on_net-Returns}
use fyp_dht.Netio.Live.{
  IsOpen, Connected, Activated, ask-IsOpen, net_connection_set_read_cb-IsOpen,
  net_connection_set_event_cb-IsOpen, net_connection_set_cb_arg-IsOpen,
  net_connection_set_timeouts-IsOpen, net_connection_get_write_buffer-IsOpen,
  net_connection_activate-Activated, net_connection_create-Connected,
}
use fyp_dht.Node.State.{NodeSelf, Machine, NodeM, the_node}
use fyp_dht.Node.Blocks.{Gives, new_block-Returns}
use fyp_dht.Node.Send.{
  is_zero, add_bytes, send_text, node_send_message, configure, connected_send,
  node_connect_and_send_message, add_request_id, node_find_successor_remote,
  node_get_predecessor_remote,
}

ruleset open_rules = (
  returns_rules, on_net-Returns, ask-IsOpen, net_connection_set_read_cb-IsOpen,
  net_connection_set_event_cb-IsOpen, net_connection_set_cb_arg-IsOpen,
  net_connection_set_timeouts-IsOpen,
)

pub the_node-Returns : {Ev : Type 0} {P : Host Ev NodeSelf → Type 0} → Stays P the_node
unfolding the_node
the_node-Returns = record { at = λ s h. h }

not_negative : (conn : ℤ) → net_valid_connection_num conn ≡ true → is_negative conn ≡ false
unfolding net_valid_connection_num
not_negative (pos i) h = refl
not_negative (negsuc n) h = cc

module _ {Ev : Type 0} (p : Platform Ev) (Q : NodeSelf → Type 0) where
  abbrev pub Open : ℤ → Host Ev NodeSelf → Type 0
  Open conn = HostInv Q (IsOpen conn)

  configure-Open :
      (conn : ℤ) (r : Option DataCb) (e : Option EventCb) (a : Option CbArg) (t : Option ℕ)
      → Stays (Open conn) (configure p conn r e a t)
  unfolding configure
  configure-Open conn r e a t = search open_rules depth 12

  add_bytes-Open :
      (conn : ℤ) (b : Evbuffer) (bytes : List ℕ) → Stays (Open conn) (add_bytes p (some b) bytes)
  unfolding add_bytes
  add_bytes-Open conn b bytes = search open_rules depth 8

  abbrev Sent : ℤ → ℤ → Host Ev NodeSelf → Type 0
  Sent conn r = HostInv Q (Activated conn r)

  send_text-Sent :
      (conn : ℤ) (printed : Bool) → Returns (Open conn) (send_text p conn printed) (Sent conn)
  unfolding send_text pure
  send_text-Sent conn true = on_net-Returns Q _ (net_connection_activate-Activated p conn)
  send_text-Sent conn false = record { at = λ h (o, q). (inr (refl, o.valid), q) }

  -- The write buffer of an open connection is not NULL.
  module _ {A : Type 0} {R : A → Host Ev NodeSelf → Type 0} where
    with_buffer :
        (conn : ℤ) (buffer : Option Evbuffer) (f : Evbuffer → NodeM Ev A) (m : NodeM Ev A)
        → ((b : Evbuffer) → Returns (Open conn) (f b) R)
        → Returns (HostInv Q (λ s. (is_some buffer ≡ true) × IsOpen conn s)) (if_some buffer f m) R
    unfolding if_some
    with_buffer conn (some b) f m rf = record { at = λ h (o, q). (rf b).at h (o.1, q) }
    with_buffer conn none f m rf = record { at = λ h (o, q). absurd (cc (o.0)) }

  node_send_message-Sent :
      (msg : NodeMessage) (conn : ℤ)
      → Returns (Open conn) (node_send_message p msg conn) (Sent conn)
  unfolding node_send_message
  node_send_message-Sent msg conn =
      Returns-bind _ _ (on_net-Returns Q _ (net_connection_get_write_buffer-IsOpen p conn))
        (λ buffer. with_buffer conn buffer _ _ (λ b.
          Stays-bind (on_net (ask (λ ev. p.evbuffer_add_printf ev b (message_text msg)))) _
            (search open_rules) (send_text-Sent conn)))

  abbrev pub Linked : ℤ → Host Ev NodeSelf → Type 0
  Linked r = HostInv Q (Connected r)

  outgoing :
      (conn rc : ℤ) → Returns (Sent conn rc) (if is_zero rc then pure conn else pure rc) Linked
  unfolding pure
  outgoing conn rc = record {
    at = λ h (a, q). elim a [
      | inl (e, o) ↦ rw e (inr (not_negative conn o.in_range, o), q)
      | inr (e, v) ↦ rw e (inl (refl, v), q)
    ];
  }

  connected_send-Linked :
      (conn : ℤ) (msg : NodeMessage) (r : Option DataCb) (e : Option EventCb) (a : Option CbArg)
      (t : Option ℕ)
      → Returns (Open conn) (connected_send p conn msg r e a t) Linked
  unfolding connected_send
  connected_send-Linked conn msg r e a t =
      Stays-bind _ _ (configure-Open conn r e a t)
        (λ _. Returns-bind _ _ (node_send_message-Sent msg conn) (outgoing conn))

  -- What is done with a connection if there is one.
  module _ {A : Type 0} {R : A → Host Ev NodeSelf → Type 0} where
    in_case :
        (conn : ℤ) (m n : NodeM Ev A)
        → (is_negative conn ≡ true → Returns (HostInv Q IsValid) m R)
        → Returns (Open conn) n R
        → Returns (Linked conn) (if is_negative conn then m else n) R
    in_case conn m n rm rn = record {
      at = λ h (a, q). elim a [
        | inl (e, v) ↦ rw e ((rm e).at h (v, q))
        | inr (e, o) ↦ rw e (rn.at h (o, q))
      ];
    }

  no_connection :
      (conn : ℤ) → is_negative conn ≡ true → Returns (HostInv Q IsValid) (pure conn) Linked
  unfolding pure
  no_connection conn e = record { at = λ h (v, q). (inl (e, v), q) }

  -- A connection that is left to its callbacks.
  pub Linked-Valid : (r : ℤ) (h : Host Ev NodeSelf) → Linked r h → HostInv Q IsValid h
  Linked-Valid r h (inl (e, v), q) = (v, q)
  Linked-Valid r h (inr (e, o), q) = (o.valid, q)

  closing_off : (conn : ℤ) → Returns (Open conn) (pure (pos 0)) (λ _. HostInv Q IsValid)
  unfolding pure
  closing_off conn = record { at = λ h (o, q). (o.valid, q) }

  pub node_connect_and_send_message-Linked :
      (msg : NodeMessage) (r : Option DataCb) (e : Option EventCb) (a : Option CbArg) (t : Option ℕ)
      → Returns (HostInv Q IsValid) (node_connect_and_send_message p msg r e a t) Linked
  unfolding node_connect_and_send_message
  node_connect_and_send_message-Linked msg r e a t =
      Returns-bind _ _
        (on_net-Returns Q _ (net_connection_create-Connected p msg.to.ip msg.to.port))
        (λ conn. in_case conn _ _ (no_connection conn) (connected_send-Linked conn msg r e a t))

  module _ (mc : Machine) where
    add_request_id-Open :
        (conn : ℤ) (id : ℕ)
        → Returns (Open conn) (add_request_id p mc conn id) (λ _. HostInv Q IsValid)
    unfolding add_request_id
    add_request_id-Open conn id =
        Returns-bind _ _ (on_net-Returns Q _ (net_connection_get_write_buffer-IsOpen p conn))
          (λ buffer.
            with_buffer conn buffer _ _
              (λ b. Returns-bind _ _ (add_bytes-Open conn b _) (λ _. closing_off conn)))

    pub node_find_successor_remote-Returns :
        (n : NodeInfo) (id : ℕ) (d : NodeFoundCbData)
        → Stays (HostInv Q IsValid) (node_find_successor_remote p mc n id d)
    unfolding node_find_successor_remote
    node_find_successor_remote-Returns n id d = Stays-bind _ _ the_node-Returns (λ s.
        Returns-bind _ _ (node_connect_and_send_message-Linked _ _ _ _ _)
          (λ conn. in_case conn _ _ (λ _. Returns-pure conn) (add_request_id-Open conn id)))

    left_open : (conn : ℤ) → Returns (Linked conn) (pure tt) (λ _. HostInv Q IsValid)
    unfolding pure
    left_open conn = record { at = λ h l. Linked-Valid conn h l }

    pub node_get_predecessor_remote-Returns :
        (memory : Gives p) (n : NodeInfo) (cb : FoundCb)
        → Stays (HostInv Q IsValid) (node_get_predecessor_remote p mc n cb)
    unfolding node_get_predecessor_remote
    node_get_predecessor_remote-Returns memory n cb = Stays-bind _ _ the_node-Returns (λ s.
        Stays-bind _ _ (new_block-Returns p memory Q)
          (λ _. Returns-bind _ _ (node_connect_and_send_message-Linked _ _ _ _ _) left_open))
