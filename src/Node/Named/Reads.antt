-- ===== src/Node/Named/Reads.antt =====
-- The request for a predecessor, between two nodes of src/node.c: the asking one runs the callback that
-- waits with what is named.
use fyp_dht.Prelude.{
  ℕ, ◌^◌, ◌≡◌, ◌<◌, refl, ap, sym, subst, ◌∙◌, arith, List, [], ◌∷◌, ◌++◌, some, ℤ, Bool-cases, inl,
  inr,
}
use fyp_dht.Prelude.Outcome.{ok, ◌>>=◌, >>=-ok, need, pure, if_some}
use fyp_dht.Prelude.Returns.{Total}
use fyp_dht.Platform.{Platform, Evbuffer, input, output}
use fyp_dht.Callback.{NodeInfo, NodeFoundCbData, found_arg, null_node}
use fyp_dht.Netio.Conn.{net_connection_get_read_buffer}
use fyp_dht.Netio.Server.{Host, on_net}
use fyp_dht.Netio.Hosts.{on_net-ok}
use fyp_dht.Netio.Valid.{IsValid}
use fyp_dht.Netio.Closes.{ClosedOnly}
use fyp_dht.Node.Freed.{close-leave_freed}
use fyp_dht.Netio.Live.{IsOpen, with_ev-IsValid, read_buffer-open}
use fyp_dht.Node.State.{NodeSelf, Machine}
use fyp_dht.Node.Send.{message_text, request, msg_t_pred_req}
use fyp_dht.Node.Found.{forget_found, App, read_reply, found_reply, node_found, node_found_remote}
use fyp_dht.Node.Incoming.{incoming_read}
use fyp_dht.Node.Replies.{Removes, read_var-memory_bytes, read_found-predecessor}
use fyp_dht.Node.Headers.{one_byte}
use fyp_dht.Node.Requests.{OnlyPlatform}
use fyp_dht.Node.Exchange.{Adds, read_var-OnlyPlatform, read_found-OnlyPlatform}
use fyp_dht.Node.Lookup.{Apart}
use fyp_dht.Node.System.{named}
use fyp_dht.Node.Named.{pred_fields, pred_reply, if_true, if_false, incoming_read-named}

module _ {Ev : Type 0} (p : Platform Ev) (contents : Ev → Evbuffer → List ℕ)
    (laws : Removes p contents) (app : App Ev) (mc : Machine) where
  abbrev Fits : NodeInfo → Type 0
  Fits n = (n.id < 2 ^ 32) × (n.ip < 2 ^ 32) × (n.port < 2 ^ 16)

  abbrev ReadsNamed : Host Ev NodeSelf → ℤ → Evbuffer → NodeSelf → NodeFoundCbData → Type 0
  ReadsNamed h conn b s d =
      (t : Host Ev NodeSelf) × (read_reply p app mc conn b d h
        ≡ ok (record d { node = named s }, t))
      × OnlyPlatform h t
      × (t.upper ≡ h.upper)

  -- The reader of the answer.
  reply_read-named :
      (h : Host Ev NodeSelf) (conn : ℤ) (b : Evbuffer) (s : NodeSelf) (d : NodeFoundCbData)
      → Fits s.predecessor
      → d.hops < 2 ^ 16
      → contents h.net.ev b ≡ pred_reply mc.big s
      → ReadsNamed h conn b s d
  unfolding read_reply pure if_some ◌>>=◌
  reply_read-named h conn b s d fits hops holds = elim (Bool-cases s.has_pred) [
    | inl has ↦
        let n = s.predecessor in
        let (t, first, left, same) =
          read_var-memory_bytes p contents laws app mc b h 1 b'Y' mc.result_char
            (pred_fields mc.big n) (omega arith)
            (holds
              ∙ if_true (b'Y' ∷ pred_fields mc.big n) (b'N' ∷ []) has
              ∙ ap (λ (y : List ℕ). y ++ pred_fields mc.big n)
                  (sym (one_byte mc.big b'Y' (omega arith)))) in
        let (u, found, over, same') =
          read_found-predecessor p contents laws app mc b t n d fits.0 fits.1 fits.2 hops left in
        let one : OnlyPlatform h t =
          subst (Total (λ _. OnlyPlatform h)) first
            ((read_var-OnlyPlatform p contents laws app mc h b 1 mc.result_char).at h refl) in
        let two : OnlyPlatform h u =
          subst (Total (λ _. OnlyPlatform h)) found
            ((read_found-OnlyPlatform p contents laws app mc h b d).at t one) in
        (
          u,
          rw (first, found)
              (ap (λ (m : NodeInfo). ok (record d { node = m }, u))
                (sym (if_true n null_node has))),
          two,
          same' ∙ same,
        )
    | inr nothing ↦
        let (t, first, left, same) =
          read_var-memory_bytes p contents laws app mc b h 1 b'N' mc.result_char [] (omega arith) (
            holds
            ∙ if_false (b'Y' ∷ pred_fields mc.big s.predecessor) (b'N' ∷ []) nothing
            ∙ ap (λ (y : List ℕ). y ++ []) (sym (one_byte mc.big b'N' (omega arith)))) in
        let one : OnlyPlatform h t =
          subst (Total (λ _. OnlyPlatform h)) first
            ((read_var-OnlyPlatform p contents laws app mc h b 1 mc.result_char).at h refl) in
        (
          t,
          rw first (
              ap (λ (m : NodeInfo). ok (record d { node = m }, t))
                (sym (if_false s.predecessor null_node nothing))),
          one,
          same,
        )
  ]

module _ {Ev : Type 0} (p : Platform Ev) (contents : Ev → Evbuffer → List ℕ)
    (laws : Removes p contents) (adds : Adds p contents) (apart : Apart p contents)
    (app other : App Ev) (mc mc' : Machine) where
  -- Two nodes of the same byte order, each with an open connection. The first has the text of a request
  -- for its predecessor, as node_get_predecessor_remote writes it, in its input buffer and nothing in its
  -- output buffer, and the fields of its predecessor fit; the second has the predecessor's fields behind
  -- a 'Y', or an 'N' if there is none, in its input buffer. Then incoming_read_cb of the first returns with
  -- no fault, leaves the node as it was, and has written what the second has; and the second frees the
  -- entry of its connection and no other, and runs the callback that waits for the answer with the first's
  -- predecessor, or the null node if there is none. The hops stay what malloc left.
  pub node_found_remote-named :
      (asked asking : Host Ev NodeSelf) (conn conn' : ℤ) (sender : IsOpen conn asked.net)
      (reader : IsOpen conn' asking.net) (from to : NodeInfo) (more : List ℕ) (d : NodeFoundCbData)
      → mc'.big ≡ mc.big
      → asked.upper.predecessor.id < 2 ^ 32
      → asked.upper.predecessor.ip < 2 ^ 32
      → asked.upper.predecessor.port < 2 ^ 16
      → d.hops < 2 ^ 16
      → contents asked.net.ev (input sender.handle)
        ≡ message_text (request from to msg_t_pred_req 0) ++ more
      → contents asked.net.ev (output sender.handle) ≡ []
      → contents asking.net.ev (input reader.handle) ≡ pred_reply mc.big asked.upper
      → (answering : Host Ev NodeSelf) × (t : Host Ev NodeSelf) × (incoming_read p app mc conn asked
          ≡ ok (tt, answering))
        × (answering.upper ≡ asked.upper)
        × (contents answering.net.ev (output sender.handle)
            ≡ contents asking.net.ev (input reader.handle))
        × (node_found_remote p other mc' conn' (some (found_arg d)) asking
            ≡ node_found p other mc' (record d { node = named asked.upper }) t)
        × (t.upper ≡ asking.upper)
        × IsValid t.net
        × ClosedOnly p conn' asking.net t.net
  unfolding node_found_remote found_reply need pure ◌>>=◌
  node_found_remote-named asked asking conn conn' sender reader from to more d order id ip port hops
        holds nothing came =
      let (answering, runs, same, written) =
        incoming_read-named p contents laws adds apart app mc asked conn sender from to more holds
          nothing in
      let b = input reader.handle in
      let (u, reads, only, kept) =
        reply_read-named p contents laws other mc' asking conn' b asked.upper d (id, ip, port) hops
          (came ∙ ap (λ big. pred_reply big asked.upper) (sym order)) in
      let valid : IsValid u.net =
        subst IsValid only (with_ev-IsValid asking.net u.net.ev reader.valid) in
      let (net, goes_on, valid', closed_only) = close-leave_freed p forget_found u conn' valid in
      (
        answering,
        record u { net = net },
        runs,
        same,
        written ∙ sym came,
        >>=-ok (on_net (net_connection_get_read_buffer p conn')) _ asking (
              on_net-ok (net_connection_get_read_buffer p conn') asking
                (read_buffer-open p conn' asking.net reader))
            ∙ >>=-ok (read_reply p other mc' conn' b d) _ asking reads
            ∙ goes_on (node_found p other mc' (record d { node = named asked.upper })),
        kept,
        valid',
        subst (λ s. ClosedOnly p conn' s net) (sym only) closed_only,
      )
