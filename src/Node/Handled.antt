-- ===== src/Node/Handled.antt =====
-- A request of src/node.c that announces no body: its header is taken, and its handler runs at once.
use fyp_dht.Prelude.{ℕ, ◌^◌, ◌≡◌, ◌<◌, refl, ap, subst, ◌∙◌, false, arith, List, ◌++◌, ℤ, ltb}
use fyp_dht.Prelude.Outcome.{◌>>=◌, >>=-ok, pure, if_some, need, get}
use fyp_dht.Prelude.Returns.{Total}
use fyp_dht.Platform.{Platform, Evbuffer, input}
use fyp_dht.Callback.{NodeInfo, NodeMessage}
use fyp_dht.Netio.Conn.{net_connection_get_read_buffer}
use fyp_dht.Netio.Server.{Host, on_net}
use fyp_dht.Netio.Hosts.{on_net-ok}
use fyp_dht.Netio.Live.{IsOpen, read_buffer-open}
use fyp_dht.Node.State.{NodeSelf, Machine}
use fyp_dht.Node.Send.{message_text, request}
use fyp_dht.Node.Found.{App}
use fyp_dht.Node.Incoming.{incoming_read, handle_message, handle_body, node_parse_message_header}
use fyp_dht.Node.Replies.{Removes}
use fyp_dht.Node.Headers.{header-message_text}
use fyp_dht.Node.Requests.{Taken, header-Taken, since, as_since}

module _ {Ev : Type 0} (p : Platform Ev) (app : App Ev) (mc : Machine) where
  -- The header that is read of a request.
  abbrev pub header : ℕ → NodeMessage
  header type = record (mc.header_message) { type = type; len = 0 }

  at_once :
      (t : Host Ev NodeSelf) (conn : ℤ) (b : Evbuffer) (type : ℕ)
      → handle_message p app mc conn b (header type) t ≡ handle_body p app mc conn (header type) t
  unfolding handle_message get ◌>>=◌
  at_once t conn b type =
      let come : ltb (p.evbuffer_get_length t.net.ev b) 0 ≡ false = ground arith in rw come refl

module _ {Ev : Type 0} (p : Platform Ev) (contents : Ev → Evbuffer → List ℕ)
    (laws : Removes p contents) (app : App Ev) (mc : Machine) where
  -- `Keep` is what the reads from the connection's input buffer leave.
  pub incoming_read-handle_body :
      (h : Host Ev NodeSelf) (conn : ℤ) (is_open : IsOpen conn h.net) (Keep : Ev → Type 0)
      (keeps : (ev : Ev) (w : ℕ) → Keep ev → Keep (p.evbuffer_remove ev (input is_open.handle) w).1)
      (from to : NodeInfo) (type len : ℕ) (more : List ℕ)
      → type < 256
      → len < 2 ^ 32
      → contents h.net.ev (input is_open.handle) ≡ message_text (request from to type len) ++ more
      → Keep h.net.ev
      → (ev : Ev) × (incoming_read p app mc conn h
          ≡ handle_body p app mc conn (header p app mc type) (since p contents laws app mc h ev))
        × (contents ev (input is_open.handle) ≡ more)
        × Keep ev
  unfolding incoming_read need if_some pure ◌>>=◌
  incoming_read-handle_body h conn is_open Keep keeps from to type len more byte fits holds kept =
      let b = input is_open.handle in
      let (t, runs, left, same) =
        header-message_text p contents laws app mc b h (request from to type len) _ byte fits
          holds in
      let taken : Taken h p app mc b Keep keeps t =
        subst (Total (λ _. Taken h p app mc b Keep keeps)) runs
          ((header-Taken h p app mc b Keep keeps).at h (refl, kept)) in
      (
        t.net.ev,
        >>=-ok (on_net (net_connection_get_read_buffer p conn)) _ h (
              on_net-ok (net_connection_get_read_buffer p conn) h
                (read_buffer-open p conn h.net is_open))
            ∙ >>=-ok (node_parse_message_header p app mc b) _ h runs
            ∙ at_once p app mc t conn b type
            ∙ ap (handle_body p app mc conn (header p app mc type))
                (as_since p contents laws app mc h t taken.0 same),
        left,
        taken.1,
      )
