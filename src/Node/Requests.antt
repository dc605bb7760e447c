-- ===== src/Node/Requests.antt =====
-- A request of src/node.c between two nodes: what the one writes, the other handles.
use fyp_dht.Prelude.{
  Option, ℕ, ◌^◌, ◌≡◌, ◌<◌, ◌⊎◌, inl, inr, [], refl, ap, sym, subst, ◌∙◌, false, arith, List, ◌++◌,
  some, ℤ, ltb,
}
use fyp_dht.Prelude.Outcome.{ok, ◌>>=◌, ◌>>◌, >>=-ok, need, pure, if_some, get, when}
use fyp_dht.Prelude.Returns.{Stays, Total, returns_rules}
use fyp_dht.Platform.{Platform, Evbuffer, input}
use fyp_dht.Callback.{NodeInfo, NodeMessage, node_successor_found_for_remote}
use fyp_dht.Wire.Memory.{memory_bytes}
use fyp_dht.Netio.State.{with_ev}
use fyp_dht.Netio.Conn.{ask, net_connection_get_read_buffer}
use fyp_dht.Netio.Server.{Host, on_net}
use fyp_dht.Netio.Hosts.{on_net-ok}
use fyp_dht.Netio.Live.{IsOpen, moved_on, read_buffer-open}
use fyp_dht.Node.State.{NodeSelf, Machine, NodeM, id_bytes}
use fyp_dht.Node.Send.{message_text, request, new_block, msg_t_succ_req}
use fyp_dht.Node.Found.{App, read_var}
use fyp_dht.Node.Find.{node_find_successor}
use fyp_dht.Node.Incoming.{
  node_parse_message_header, incoming_read, handle_message, handle_body, succ_request,
}
use fyp_dht.Node.Replies.{Removes, read_var-memory_bytes, read_var_empty}
use fyp_dht.Node.Headers.{header-message_text}

module _ {Ev : Type 0} (h : Host Ev NodeSelf) where
  -- Only the platform has moved on.
  abbrev pub OnlyPlatform : Host Ev NodeSelf → Type 0
  OnlyPlatform t = with_ev h.net t.net.ev ≡ t.net

  pub ask-OnlyPlatform : {A : Type 0} (f : Ev → A × Ev) → Stays OnlyPlatform (on_net (ask f))
  unfolding on_net ask
  ask-OnlyPlatform f = record { at = λ s e. ap (λ n. with_ev n (f s.net.ev).1) e }

  -- What is read from a buffer leaves that, and what its reads keep of the platform.
  module _ (p : Platform Ev) (app : App Ev) (mc : Machine) (b : Evbuffer) (Keep : Ev → Type 0)
      (keeps : (ev : Ev) (w : ℕ) → Keep ev → Keep (p.evbuffer_remove ev b w).1) where
    abbrev pub Taken : Host Ev NodeSelf → Type 0
    Taken t = OnlyPlatform t × Keep t.net.ev

    remove-Taken : (w : ℕ) → Stays Taken (on_net (ask (λ ev. p.evbuffer_remove ev b w)))
    unfolding on_net ask
    remove-Taken w = record {
      at = λ s (e, k).
          (ap (λ n. with_ev n (p.evbuffer_remove s.net.ev b w).1) e, keeps s.net.ev w k);
    }

    read_var-Taken : (w old : ℕ) → Stays Taken (read_var p app mc b w old)
    unfolding read_var
    read_var-Taken w old = search (returns_rules, remove-Taken) depth 8

    pub header-Taken : Stays Taken (node_parse_message_header p app mc b)
    unfolding node_parse_message_header
    header-Taken = search (returns_rules, remove-Taken, read_var-Taken) depth 14

  module _ (p : Platform Ev) (app : App Ev) (mc : Machine) (b : Evbuffer) where
    pub header-OnlyPlatform :
        {m : Option NodeMessage} {t : Host Ev NodeSelf}
        → node_parse_message_header p app mc b h ≡ ok (m, t)
        → OnlyPlatform t
    header-OnlyPlatform runs =
        (subst (Total (λ _. Taken p app mc b (λ ev. Unit {0}) (λ ev w k. tt))) runs
          ((header-Taken p app mc b (λ ev. Unit {0}) (λ ev w k. tt)).at h (refl, tt))).0

    pub read_var-OnlyPlatform :
        {n : Option ℕ} {u : Host Ev NodeSelf} (t : Host Ev NodeSelf) (w old : ℕ)
        → OnlyPlatform t
        → read_var p app mc b w old t ≡ ok (n, u)
        → OnlyPlatform u
    read_var-OnlyPlatform t w old only runs =
        (subst (Total (λ _. Taken p app mc b (λ ev. Unit {0}) (λ ev w k. tt))) runs
          ((read_var-Taken p app mc b (λ ev. Unit {0}) (λ ev w k. tt) w old).at t (only, tt))).0

module _ {Ev : Type 0} (p : Platform Ev) (app : App Ev) (mc : Machine) where
  -- A block for the connection's number, and the search whose answer is to go over it.
  abbrev pub asks_for : ℤ → ℕ → NodeM Ev (Unit {0})
  asks_for conn id =
      new_block p
      >> (node_find_successor p app mc id (node_successor_found_for_remote conn) >>= λ rc. pure tt)

  -- With the id in the buffer of the connection, the request is a search for it.
  succ_request-finds :
      (t u : Host Ev NodeSelf) (conn : ℤ) (b : Evbuffer) (id : ℕ)
      → on_net (net_connection_get_read_buffer p conn) t ≡ ok (some b, t)
      → read_var p app mc b id_bytes mc.request_id t ≡ ok (some id, u)
      → succ_request p app mc conn t ≡ asks_for conn id u
  unfolding succ_request need when pure ◌>>=◌
  succ_request-finds t u conn b id buffered reads = rw (buffered, reads) refl

  -- A header that announces no body is followed by its handler at once.
  empty_body :
      (t : Host Ev NodeSelf) (conn : ℤ) (b : Evbuffer) (msg : NodeMessage)
      → msg.len ≡ 0
      → msg.type ≡ msg_t_succ_req
      → handle_message p app mc conn b msg t ≡ succ_request p app mc conn t
  unfolding handle_message handle_body get ◌>>=◌
  empty_body t conn b msg none_announced succ =
      let come : ltb (p.evbuffer_get_length t.net.ev b) msg.len ≡ false = ground arith in
      rw (come, succ) refl

module _ {Ev : Type 0} (p : Platform Ev) (contents : Ev → Evbuffer → List ℕ)
    (laws : Removes p contents) (app : App Ev) (mc : Machine) where
  -- What came of the id behind a request's header: all of it, or nothing yet.
  abbrev pub Came : ℕ → List ℕ → List ℕ → Type 0
  Came id sent more =
      (sent ≡ memory_bytes mc.big id_bytes id ++ more)
      ⊎ ((id ≡ mc.request_id) × (sent ≡ []) × (more ≡ []))

  read_sent_id :
      (b : Evbuffer) (t : Host Ev NodeSelf) (id : ℕ) (sent more : List ℕ)
      → id < 2 ^ 32
      → Came id sent more
      → contents t.net.ev b ≡ sent
      → (u : Host Ev NodeSelf) × (read_var p app mc b id_bytes mc.request_id t ≡ ok (some id, u))
        × (contents u.net.ev b ≡ more)
        × (u.upper ≡ t.upper)
  read_sent_id b t id sent more lt (inl all) left =
      read_var-memory_bytes p contents laws app mc b t id_bytes id mc.request_id more lt
        (left ∙ all)
  read_sent_id b t id sent more lt (inr (own, nothing, over)) left =
      let (u, reads, rest, same) =
        read_var_empty p contents laws app mc b t id_bytes mc.request_id
          (subst (λ k. k < 2 ^ 32) own lt) (left ∙ nothing) in
      (
        u,
        subst (λ k. read_var p app mc b id_bytes mc.request_id t ≡ ok (some k, u)) (sym own) reads,
        rest ∙ sym over,
        same,
      )

  -- The process when only the platform has moved on.
  abbrev pub since : Host Ev NodeSelf → Ev → Host Ev NodeSelf
  since h ev = record h { net = with_ev h.net ev }

  pub as_since :
      (h t : Host Ev NodeSelf) → OnlyPlatform h t → t.upper ≡ h.upper → t ≡ since h t.net.ev
  as_since h t only same = λ i. record { net = sym only i; upper = same i }

  module _ (h : Host Ev NodeSelf) (conn : ℤ) (is_open : IsOpen conn h.net) (Keep : Ev → Type 0)
      (keeps : (ev : Ev) (w : ℕ)
        → Keep ev
        → Keep (p.evbuffer_remove ev (input is_open.handle) w).1) where
    pub request_taken :
        (from to : NodeInfo) (id : ℕ) (sent more : List ℕ)
        → id < 2 ^ 32
        → contents h.net.ev (input is_open.handle)
          ≡ message_text (request from to msg_t_succ_req id_bytes) ++ sent
        → Came id sent more
        → Keep h.net.ev
        → (ev : Ev) × (incoming_read p app mc conn h ≡ asks_for p app mc conn id (since h ev))
          × (contents ev (input is_open.handle) ≡ more)
          × Keep ev
    unfolding incoming_read need if_some pure ◌>>=◌
    request_taken from to id sent more lt holds came kept =
        let b = input is_open.handle in
        let (t, runs, left, same) =
          header-message_text p contents laws app mc b h (request from to msg_t_succ_req id_bytes) _
            (omega arith) (omega arith) holds in
        let (u, reads, rest, same') = read_sent_id b t id sent more lt came left in
        let one : Taken h p app mc b Keep keeps t =
          subst (Total (λ _. Taken h p app mc b Keep keeps)) runs
            ((header-Taken h p app mc b Keep keeps).at h (refl, kept)) in
        let two : Taken h p app mc b Keep keeps u =
          subst (Total (λ _. Taken h p app mc b Keep keeps)) reads
            ((read_var-Taken h p app mc b Keep keeps id_bytes mc.request_id).at t one) in
        let buffered =
          on_net-ok (net_connection_get_read_buffer p conn) h
            (read_buffer-open p conn h.net is_open) in
        let again : net_connection_get_read_buffer p conn t.net ≡ ok (some b, t.net) =
          subst (λ n. net_connection_get_read_buffer p conn n ≡ ok (some b, n)) one.0
            (read_buffer-open p conn (with_ev h.net t.net.ev) (moved_on h.net t.net.ev is_open)) in
        (
          u.net.ev,
          >>=-ok (on_net (net_connection_get_read_buffer p conn)) _ h buffered
              ∙ >>=-ok (node_parse_message_header p app mc b) _ h runs
              ∙ empty_body p app mc t conn b _ refl refl
              ∙ succ_request-finds p app mc t u conn b id
                  (on_net-ok (net_connection_get_read_buffer p conn) t again) reads
              ∙ ap (asks_for p app mc conn id) (as_since h u two.0 (same' ∙ same)),
          rest,
          two.1,
        )

  -- The text of a request for a successor, as node_find_successor_remote writes it, in the input buffer of
  -- an open connection: incoming_read_cb takes it from the buffer, asks malloc for a block and searches at once, for the id that a
  -- node of the same byte order sent behind it, or, if none of it has come yet, for what the variable
  -- held; the answer is to go over that connection, and but for the platform nothing has changed.
  pub incoming_read-succ_request :
      (h : Host Ev NodeSelf) (conn : ℤ) (is_open : IsOpen conn h.net) (from to : NodeInfo) (id : ℕ)
      (sent more : List ℕ)
      → id < 2 ^ 32
      → contents h.net.ev (input is_open.handle)
        ≡ message_text (request from to msg_t_succ_req id_bytes) ++ sent
      → Came id sent more
      → (ev : Ev) × (incoming_read p app mc conn h ≡ asks_for p app mc conn id (since h ev))
        × (contents ev (input is_open.handle) ≡ more)
  incoming_read-succ_request h conn is_open from to id sent more lt holds came =
      let (ev, runs, rest, kept) =
        request_taken h conn is_open (λ ev. Unit {0}) (λ ev w k. tt) from to id sent more lt holds
          came tt in
      (ev, runs, rest)
