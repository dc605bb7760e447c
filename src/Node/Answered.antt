-- ===== src/Node/Answered.antt =====
-- A request of src/node.c whether a node is alive, and what handle_alive_request makes of it.
use fyp_dht.Prelude.{ℕ, ◌≡◌, refl, ◌∙◌, arith, List, ◌++◌, ℤ}
use fyp_dht.Prelude.Outcome.{fault, out_of_bounds, fail, >>=-ok}
use fyp_dht.Platform.{Platform, Evbuffer, input}
use fyp_dht.Callback.{NodeInfo}
use fyp_dht.Netio.Conn.{net_connection_get_write_buffer}
use fyp_dht.Netio.Server.{Host, on_net}
use fyp_dht.Netio.Hosts.{on_net-ok}
use fyp_dht.Netio.Live.{IsOpen, moved_on, write_buffer-open}
use fyp_dht.Node.State.{NodeSelf, Machine}
use fyp_dht.Node.Send.{message_text, request, msg_t_alive_req}
use fyp_dht.Node.Found.{App}
use fyp_dht.Node.Incoming.{add_literal, alive_request, incoming_read, handle_body}
use fyp_dht.Node.Replies.{Removes}
use fyp_dht.Node.Requests.{since}
use fyp_dht.Node.Handled.{header, incoming_read-handle_body}

module _ {Ev : Type 0} (p : Platform Ev) (contents : Ev → Evbuffer → List ℕ)
    (laws : Removes p contents) (app : App Ev) (mc : Machine) where
  alive_request-overreads :
      (h : Host Ev NodeSelf) (conn : ℤ) (is_open : IsOpen conn h.net)
      → alive_request p app mc conn h ≡ fault out_of_bounds
  unfolding alive_request add_literal fail
  alive_request-overreads h conn is_open =
      >>=-ok (on_net (net_connection_get_write_buffer p conn)) _ h (
        on_net-ok (net_connection_get_write_buffer p conn) h
          (write_buffer-open p conn h.net is_open))

  handles_alive :
      (conn : ℤ) (h : Host Ev NodeSelf)
      → handle_body p app mc conn (header p app mc msg_t_alive_req) h
        ≡ alive_request p app mc conn h
  unfolding handle_body
  handles_alive conn h = refl

  -- A node is asked whether it is alive, over an open connection whose input buffer holds the text of the
  -- request as node_check_node forms it: incoming_read_cb takes the header from the buffer, and then reads
  -- behind the end of the literal that is its answer.
  pub incoming_read-overreads :
      (h : Host Ev NodeSelf) (conn : ℤ) (is_open : IsOpen conn h.net) (from to : NodeInfo)
      (more : List ℕ)
      → contents h.net.ev (input is_open.handle)
        ≡ message_text (request from to msg_t_alive_req 0) ++ more
      → incoming_read p app mc conn h ≡ fault out_of_bounds
  incoming_read-overreads h conn is_open from to more holds =
      let (ev, taken, left, kept) =
        incoming_read-handle_body p contents laws app mc h conn is_open (λ ev. Unit {0})
          (λ ev w e. tt) from to msg_t_alive_req 0 more (omega arith) (omega arith) holds tt in
      let s = since p contents laws app mc h ev in
      taken ∙ handles_alive conn s ∙ alive_request-overreads s conn (moved_on h.net ev is_open)
