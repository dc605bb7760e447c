-- ===== src/Node/Exchange.antt =====
-- The answer to a request for a successor, between two nodes of src/node.c: what
-- node_successor_found_for_remote adds to a connection, node_found_remote_cb takes from its own.
use fyp_dht.Prelude.{
  ℕ, ◌^◌, ◌≡◌, ◌<◌, refl, Bool, ap, sym, subst, ◌∙◌, arith, List, [], ◌∷◌, ◌++◌, some, ℤ,
}
use mathlib.Core.List.{append_assoc, append-nil}
use fyp_dht.Prelude.Outcome.{Outcome, ok, ◌>>=◌, >>=-ok, >>-ok, need, pure, if_some}
use fyp_dht.Prelude.Returns.{Stays, Total, returns_rules}
use fyp_dht.Platform.{Platform, Evbuffer, input, output}
use fyp_dht.Callback.{NodeInfo, NodeFoundCbData, found_arg}
use fyp_dht.Wire.Memory.{memory_bytes}
use fyp_dht.Netio.State.{with_ev}
use fyp_dht.Netio.Conn.{ask, net_connection_get_read_buffer, net_connection_get_write_buffer}
use fyp_dht.Netio.Server.{Host, on_net}
use fyp_dht.Netio.Hosts.{on_net-ok}
use fyp_dht.Netio.Valid.{IsValid}
use fyp_dht.Netio.Closes.{ClosedOnly}
use fyp_dht.Node.Freed.{close-leave_freed}
use fyp_dht.Netio.Live.{IsOpen, with_ev-IsValid, read_buffer-open, write_buffer-open}
use fyp_dht.Node.State.{NodeSelf, Machine, id_bytes}
use fyp_dht.Node.Send.{add_bytes}
use fyp_dht.Node.Found.{
  forget_found, App, next_hops, successor_found_for_remote, read_var, read_found, read_reply,
  found_reply, node_found, node_found_remote,
}
use fyp_dht.Node.Replies.{Removes, read_var-memory_bytes, read_found-reply}
use fyp_dht.Node.Headers.{one_byte}
use fyp_dht.Node.Requests.{OnlyPlatform, ask-OnlyPlatform}

-- What libevent documents of evbuffer_add when there is memory: it appends the bytes.
pub record Adds {Ev : Type 0} (p : Platform Ev) (contents : Ev → Evbuffer → List ℕ) : Type 0 where
  pub appended :
      (ev : Ev) (b : Evbuffer) (bytes : List ℕ)
      → contents (p.evbuffer_add ev b bytes).1 b ≡ contents ev b ++ bytes

same_state :
    {Ev : Type 0} {x : Outcome (Unit {0} × Host Ev NodeSelf)} {s t : Host Ev NodeSelf}
    → x ≡ ok (tt, s)
    → x ≡ ok (tt, t)
    → s ≡ t
same_state e f = cc

-- The bytes of an answer, by the byte order of the node that sends it.
abbrev pub fields : Bool → NodeInfo → ℕ → List ℕ → List ℕ
fields big n hops more =
    memory_bytes big id_bytes n.id
    ++ (memory_bytes big 4 n.ip ++ (memory_bytes big 2 n.port ++ (memory_bytes big 2 hops ++ more)))

abbrev pub reply : Bool → NodeInfo → ℕ → List ℕ → List ℕ
reply big n hops more = b'Y' ∷ fields big n hops more

five_parts :
    (c y i a q k : List ℕ)
    → ((((c ++ y) ++ i) ++ a) ++ q) ++ k ≡ c ++ (y ++ (i ++ (a ++ (q ++ (k ++ [])))))
five_parts c y i a q k = simp (append_assoc, append-nil)

module _ {Ev : Type 0} (p : Platform Ev) where
  -- A process after bytes are added to a buffer.
  abbrev pub added : Evbuffer → List ℕ → Host Ev NodeSelf → Host Ev NodeSelf
  added b bytes h = record h { net = with_ev h.net (p.evbuffer_add h.net.ev b bytes).1 }

  pub add_bytes_lem :
      (b : Evbuffer) (bytes : List ℕ) (h : Host Ev NodeSelf)
      → add_bytes p (some b) bytes h ≡ ok (tt, added b bytes h)
  unfolding add_bytes need on_net ask pure ◌>>=◌
  add_bytes_lem b bytes h = refl

module _ {Ev : Type 0} (p : Platform Ev) (contents : Ev → Evbuffer → List ℕ) (app : App Ev)
    (mc : Machine) where
  -- The answering node.
  pub answered :
      (adds : Adds p contents) (h : Host Ev NodeSelf) (conn : ℤ) (is_open : IsOpen conn h.net)
      (n : NodeInfo) (hops : ℕ)
      → (t : Host Ev NodeSelf) × (successor_found_for_remote p app mc n conn hops h ≡ ok (tt, t))
        × (contents t.net.ev (output is_open.handle)
            ≡ contents h.net.ev (output is_open.handle) ++ reply mc.big n (next_hops hops) [])
        × (t.upper ≡ h.upper)
  unfolding successor_found_for_remote
  answered adds h conn is_open n hops =
      let b = output is_open.handle in
      let h1 = added p b (b'Y' ∷ []) h in
      let h2 = added p b (memory_bytes mc.big id_bytes n.id) h1 in
      let h3 = added p b (memory_bytes mc.big 4 n.ip) h2 in
      let h4 = added p b (memory_bytes mc.big 2 n.port) h3 in
      let h5 = added p b (memory_bytes mc.big 2 (next_hops hops)) h4 in
      (
        h5,
        >>=-ok (on_net (net_connection_get_write_buffer p conn)) _ h (
              on_net-ok (net_connection_get_write_buffer p conn) h
                (write_buffer-open p conn h.net is_open))
            ∙ >>-ok (add_bytes p (some b) (b'Y' ∷ [])) _ h (add_bytes_lem p b _ h)
            ∙ >>-ok (add_bytes p (some b) (memory_bytes mc.big id_bytes n.id)) _ h1
                (add_bytes_lem p b _ h1)
            ∙ >>-ok (add_bytes p (some b) (memory_bytes mc.big 4 n.ip)) _ h2
                (add_bytes_lem p b _ h2)
            ∙ >>-ok (add_bytes p (some b) (memory_bytes mc.big 2 n.port)) _ h3
                (add_bytes_lem p b _ h3)
            ∙ add_bytes_lem p b _ h4,
        adds.appended h4.net.ev b _
            ∙ ap (λ (c : List ℕ). c ++ memory_bytes mc.big 2 (next_hops hops))
                (adds.appended h3.net.ev b _
                  ∙ ap (λ (c : List ℕ). c ++ memory_bytes mc.big 2 n.port)
                      (adds.appended h2.net.ev b _
                        ∙ ap (λ (c : List ℕ). c ++ memory_bytes mc.big 4 n.ip)
                            (adds.appended h1.net.ev b _
                              ∙ ap (λ (c : List ℕ). c ++ memory_bytes mc.big id_bytes n.id)
                                  (adds.appended h.net.ev b _))))
            ∙ five_parts (contents h.net.ev b) (b'Y' ∷ []) _ _ _ _,
        refl,
      )

module _ {Ev : Type 0} (p : Platform Ev) (contents : Ev → Evbuffer → List ℕ)
    (laws : Removes p contents) (app : App Ev) (mc : Machine) where
  module _ (h : Host Ev NodeSelf) (b : Evbuffer) where
    pub read_var-OnlyPlatform : (w old : ℕ) → Stays (OnlyPlatform h) (read_var p app mc b w old)
    unfolding read_var
    read_var-OnlyPlatform w old = search (returns_rules, ask-OnlyPlatform) depth 8

    pub read_found-OnlyPlatform :
        (d : NodeFoundCbData) → Stays (OnlyPlatform h) (read_found p app mc b d)
    unfolding read_found
    read_found-OnlyPlatform d = search (returns_rules, read_var-OnlyPlatform) depth 20

  -- The reader of an answer.
  reply_read :
      (h : Host Ev NodeSelf) (conn : ℤ) (b : Evbuffer) (n : NodeInfo) (hops : ℕ)
      (d : NodeFoundCbData) (more : List ℕ)
      → n.id < 2 ^ 32
      → n.ip < 2 ^ 32
      → n.port < 2 ^ 16
      → hops < 2 ^ 16
      → contents h.net.ev b ≡ reply mc.big n hops more
      → (t : Host Ev NodeSelf) × (read_reply p app mc conn b d h
          ≡ ok (record d { node = n; hops = hops }, t))
        × OnlyPlatform h t
        × (t.upper ≡ h.upper)
  unfolding read_reply pure if_some ◌>>=◌
  reply_read h conn b n hops d more id ip port hs holds =
      let (t, first, left, same) =
        read_var-memory_bytes p contents laws app mc b h 1 b'Y' mc.result_char
          (fields mc.big n hops more) (omega arith)
          (holds
            ∙ ap (λ (y : List ℕ). y ++ fields mc.big n hops more)
                (sym (one_byte mc.big b'Y' (omega arith)))) in
      let (u, found, over, same') =
        read_found-reply p contents laws app mc b t n hops d more id ip port hs left in
      let one : OnlyPlatform h t =
        subst (Total (λ _. OnlyPlatform h)) first
          ((read_var-OnlyPlatform h b 1 mc.result_char).at h refl) in
      let two : OnlyPlatform h u =
        subst (Total (λ _. OnlyPlatform h)) found ((read_found-OnlyPlatform h b d).at t one) in
      (u, rw (first, found) refl, two, same' ∙ same)

module _ {Ev : Type 0} (p : Platform Ev) (contents : Ev → Evbuffer → List ℕ)
    (laws : Removes p contents) (adds : Adds p contents) (app other : App Ev)
    (mc mc' : Machine) where
  -- Two nodes of the same byte order, each with an open connection, and a node whose fields fit: if the
  -- first, with nothing else in its output buffer, has answered with that node, and what its buffer then
  -- holds has come into the input buffer of the second, then the second frees the entry of its connection
  -- and no other, and runs the callback that waits for the answer with that node, and with one hop more
  -- than the first was told.
  pub node_found_remote-answer :
      (first answering asking : Host Ev NodeSelf) (conn conn' : ℤ) (sender : IsOpen conn first.net)
      (reader : IsOpen conn' asking.net) (n : NodeInfo) (hops : ℕ) (d : NodeFoundCbData)
      → mc'.big ≡ mc.big
      → n.id < 2 ^ 32
      → n.ip < 2 ^ 32
      → n.port < 2 ^ 16
      → contents first.net.ev (output sender.handle) ≡ []
      → successor_found_for_remote p app mc n conn hops first ≡ ok (tt, answering)
      → contents asking.net.ev (input reader.handle)
        ≡ contents answering.net.ev (output sender.handle)
      → (t : Host Ev NodeSelf) × (node_found_remote p other mc' conn' (some (found_arg d)) asking
          ≡ node_found p other mc' (record d { node = n; hops = next_hops hops }) t)
        × (t.upper ≡ asking.upper)
        × IsValid t.net
        × ClosedOnly p conn' asking.net t.net
  unfolding node_found_remote found_reply need pure ◌>>=◌
  node_found_remote-answer first answering asking conn conn' sender reader n hops d order id ip port
        nothing runs came =
      let b = input reader.handle in
      let (sent, answers, holds, same) = answered p contents app mc adds first conn sender n hops in
      let sent_is : sent ≡ answering = same_state answers runs in
      let arrived : contents asking.net.ev b ≡ reply mc'.big n (next_hops hops) [] =
        came
        ∙ ap (λ (t : Host Ev NodeSelf). contents t.net.ev (output sender.handle)) (sym sent_is)
        ∙ holds
        ∙ ap (λ (c : List ℕ). c ++ reply mc.big n (next_hops hops) []) nothing
        ∙ ap (λ big. reply big n (next_hops hops) []) (sym order) in
      let (u, reads, only, kept) =
        reply_read p contents laws other mc' asking conn' b n (next_hops hops) d [] id ip port
          (omega arith) arrived in
      let valid : IsValid u.net =
        subst IsValid only (with_ev-IsValid asking.net u.net.ev reader.valid) in
      let (net, goes_on, valid', closed_only) = close-leave_freed p forget_found u conn' valid in
      (
        record u { net = net },
        >>=-ok (on_net (net_connection_get_read_buffer p conn')) _ asking (
              on_net-ok (net_connection_get_read_buffer p conn') asking
                (read_buffer-open p conn' asking.net reader))
            ∙ >>=-ok (read_reply p other mc' conn' b d) _ asking reads
            ∙ goes_on (node_found p other mc' (record d { node = n; hops = next_hops hops })),
        kept,
        valid',
        subst (λ s. ClosedOnly p conn' s net) (sym only) closed_only,
      )
