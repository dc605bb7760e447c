-- ===== src/Node/Named.antt =====
-- The request for a predecessor, between two nodes of src/node.c: the asked one answers with its
-- predecessor or with none.
pub mod Reads
use fyp_dht.Prelude.{
  ℕ, ◌^◌, ◌≡◌, ◌<◌, refl, ap, sym, subst, ◌∙◌, Bool, true, false, arith, List, [], ◌∷◌, ◌++◌, some,
  ℤ, ltb, Bool-cases, inl, inr, if◌then◌else◌,
}
use mathlib.Core.List.{append_assoc, append-nil}
use fyp_dht.Prelude.Outcome.{ok, ◌>>=◌, >>=-ok, >>-ok, need, pure, if_some, get}
use fyp_dht.Prelude.Returns.{Total}
use fyp_dht.Platform.{Platform, Evbuffer, input, output}
use fyp_dht.Callback.{NodeInfo, NodeMessage, NodeFoundCbData, found_arg, null_node}
use fyp_dht.Wire.Memory.{memory_bytes}
use fyp_dht.Netio.Conn.{
  net_connection_get_read_buffer, net_connection_get_write_buffer, net_connection_close,
}
use fyp_dht.Netio.Server.{Host, on_net}
use fyp_dht.Netio.Hosts.{on_net-ok}
use fyp_dht.Netio.Valid.{IsValid}
use fyp_dht.Netio.Closes.{ClosedOnly, net_connection_close-ClosedOnly}
use fyp_dht.Netio.Live.{IsOpen, moved_on, with_ev-IsValid, read_buffer-open, write_buffer-open}
use fyp_dht.Node.State.{NodeSelf, NodeM, Machine, id_bytes, the_node}
use fyp_dht.Node.Send.{add_bytes, message_text, request, msg_t_pred_req}
use fyp_dht.Node.Found.{App, read_reply, found_reply, node_found, node_found_remote}
use fyp_dht.Node.Incoming.{
  pred_request, incoming_read, handle_message, handle_body, node_parse_message_header,
}
use fyp_dht.Node.Replies.{Removes, read_var-memory_bytes, read_found-predecessor}
use fyp_dht.Node.Headers.{header-message_text, one_byte}
use fyp_dht.Node.Requests.{OnlyPlatform, Taken, header-Taken, since, as_since}
use fyp_dht.Node.Exchange.{
  Adds, added, add_bytes_lem, read_var-OnlyPlatform, read_found-OnlyPlatform,
}
use fyp_dht.Node.Handled.{header, incoming_read-handle_body}
use fyp_dht.Node.Lookup.{Apart}
use fyp_dht.Node.System.{named}

-- The bytes of the answer, by the byte order of the node that sends it.
abbrev pub pred_fields : Bool → NodeInfo → List ℕ
pred_fields big n =
    memory_bytes big id_bytes n.id ++ (memory_bytes big 4 n.ip ++ (memory_bytes big 2 n.port ++ []))

abbrev pub pred_reply : Bool → NodeSelf → List ℕ
pred_reply big s = if s.has_pred then b'Y' ∷ pred_fields big s.predecessor else b'N' ∷ []

four_parts :
    (c y i a q : List ℕ) → (((c ++ y) ++ i) ++ a) ++ q ≡ c ++ (y ++ (i ++ (a ++ (q ++ []))))
four_parts c y i a q = simp (append_assoc, append-nil)

pub if_true : {A : Type 0} (x y : A) {b : Bool} → b ≡ true → (if b then x else y) ≡ x
if_true x y e = rw e

pub if_false : {A : Type 0} (x y : A) {b : Bool} → b ≡ false → (if b then x else y) ≡ y
if_false x y e = rw e

module _ {Ev : Type 0} (p : Platform Ev) (contents : Ev → Evbuffer → List ℕ)
    (adds : Adds p contents) (app : App Ev) (mc : Machine) where
  abbrev Writes : (h : Host Ev NodeSelf) (conn : ℤ) → IsOpen conn h.net → Type 0
  Writes h conn is_open =
      (t : Host Ev NodeSelf) × (pred_request p app mc conn h ≡ ok (tt, t))
      × (contents t.net.ev (output is_open.handle)
          ≡ contents h.net.ev (output is_open.handle) ++ pred_reply mc.big h.upper)
      × (t.upper ≡ h.upper)

  -- The asked node.
  named_bytes :
      (h : Host Ev NodeSelf) (conn : ℤ) (is_open : IsOpen conn h.net) → Writes h conn is_open
  unfolding pred_request the_node
  named_bytes h conn is_open =
      let b = output is_open.handle in
      let n = h.upper.predecessor in
      let h1 = added p b (b'Y' ∷ []) h in
      let h2 = added p b (memory_bytes mc.big id_bytes n.id) h1 in
      let h3 = added p b (memory_bytes mc.big 4 n.ip) h2 in
      let h4 = added p b (memory_bytes mc.big 2 n.port) h3 in
      let buffer =
        on_net-ok (net_connection_get_write_buffer p conn) h
          (write_buffer-open p conn h.net is_open) in
      elim (Bool-cases h.upper.has_pred) [
        | inl has ↦ (
          h4,
          >>=-ok (on_net (net_connection_get_write_buffer p conn)) _ h buffer
              ∙ >>=-ok the_node _ h refl
              ∙ ap (λ (m : NodeM Ev (Unit {0})). m h) (if_true _ _ has)
              ∙ (>>-ok (add_bytes p (some b) (b'Y' ∷ [])) _ h (add_bytes_lem p b _ h)
                  ∙ >>-ok (add_bytes p (some b) (memory_bytes mc.big id_bytes n.id)) _ h1
                      (add_bytes_lem p b _ h1)
                  ∙ >>-ok (add_bytes p (some b) (memory_bytes mc.big 4 n.ip)) _ h2
                      (add_bytes_lem p b _ h2)
                  ∙ add_bytes_lem p b _ h3),
          (adds.appended h3.net.ev b _
                ∙ ap (λ (c : List ℕ). c ++ memory_bytes mc.big 2 n.port)
                    (adds.appended h2.net.ev b _
                      ∙ ap (λ (c : List ℕ). c ++ memory_bytes mc.big 4 n.ip)
                          (adds.appended h1.net.ev b _
                            ∙ ap (λ (c : List ℕ). c ++ memory_bytes mc.big id_bytes n.id)
                                (adds.appended h.net.ev b _)))
                ∙ four_parts (contents h.net.ev b) (b'Y' ∷ []) _ _ _)
              ∙ ap (λ (c : List ℕ). contents h.net.ev b ++ c)
                  (sym (if_true (b'Y' ∷ pred_fields mc.big n) (b'N' ∷ []) has)),
          refl,
        )
        | inr nothing ↦ (
          added p b (b'N' ∷ []) h,
          >>=-ok (on_net (net_connection_get_write_buffer p conn)) _ h buffer
              ∙ >>=-ok the_node _ h refl
              ∙ ap (λ (m : NodeM Ev (Unit {0})). m h) (if_false _ _ nothing)
              ∙ add_bytes_lem p b _ h,
          adds.appended h.net.ev b _
              ∙ ap (λ (c : List ℕ). contents h.net.ev b ++ c)
                  (sym (if_false (b'Y' ∷ pred_fields mc.big n) (b'N' ∷ []) nothing)),
          refl,
        )
      ]

module _ {Ev : Type 0} (p : Platform Ev) (app : App Ev) (mc : Machine) where
  handles_pred :
      (conn : ℤ) (h : Host Ev NodeSelf)
      → handle_body p app mc conn (header p app mc msg_t_pred_req) h ≡ pred_request p app mc conn h
  unfolding handle_body
  handles_pred conn h = refl

module _ {Ev : Type 0} (p : Platform Ev) (contents : Ev → Evbuffer → List ℕ)
    (laws : Removes p contents) (adds : Adds p contents) (apart : Apart p contents) (app : App Ev)
    (mc : Machine) where
  -- The asked node, from the request to the answer.
  pub incoming_read-named :
      (h : Host Ev NodeSelf) (conn : ℤ) (is_open : IsOpen conn h.net) (from to : NodeInfo)
      (more : List ℕ)
      → contents h.net.ev (input is_open.handle)
        ≡ message_text (request from to msg_t_pred_req 0) ++ more
      → contents h.net.ev (output is_open.handle) ≡ []
      → (t : Host Ev NodeSelf) × (incoming_read p app mc conn h ≡ ok (tt, t))
        × (t.upper ≡ h.upper)
        × (contents t.net.ev (output is_open.handle) ≡ pred_reply mc.big h.upper)
  incoming_read-named h conn is_open from to more holds nothing =
      let out = output is_open.handle in
      let (ev, taken, left, empty) =
        incoming_read-handle_body p contents laws app mc h conn is_open (λ ev. contents ev out ≡ [])
          (λ ev w e. apart.left ev is_open.handle w ∙ e) from to msg_t_pred_req 0 more (omega arith)
          (omega arith) holds nothing in
      let s = since p contents laws app mc h ev in
      let (u, answers, written, kept) =
        named_bytes p contents adds app mc s conn (moved_on h.net ev is_open) in
      (
        u,
        taken ∙ handles_pred p app mc conn s ∙ answers,
        kept,
        written ∙ ap (λ (c : List ℕ). c ++ pred_reply mc.big h.upper) empty,
      )
