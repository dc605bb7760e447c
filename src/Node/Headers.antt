-- ===== src/Node/Headers.antt =====
-- The header of a message: what node_send_message of src/node.c writes, node_parse_message_header reads.
use fyp_dht.Prelude.{
  ℕ, ◌^◌, ◌≡◌, ◌<◌, refl, ap, sym, ◌∙◌, Bool, true, false, arith, List, [], ◌∷◌, ◌++◌, some, none,
  take, drop, take-append, drop-append, Option-cases, inl, inr, All, ◌==◌,
}
use mathlib.Core.List.{append_assoc, append-nil}
use fyp_dht.Prelude.Outcome.{ok, ◌>>=◌}
use fyp_dht.Platform.{Platform, Evbuffer}
use fyp_dht.Callback.{NodeMessage}
use fyp_dht.Wire.Memory.{memory_bytes, little_bytes}
use fyp_dht.Wire.Header.{
  len_str_bytes, print_len, parse_len, parse_len-print_len, hex_digits-IsUpperHex, IsUpperHex,
}
use fyp_dht.Netio.Conn.{ask}
use fyp_dht.Netio.Server.{Host, on_net}
use fyp_dht.Node.State.{NodeSelf, Machine}
use fyp_dht.Node.Send.{message_text}
use fyp_dht.Node.Found.{App}
use fyp_dht.Node.Incoming.{node_parse_message_header, c_string}
use fyp_dht.Node.Replies.{Removes, read_var-memory_bytes}

-- The length that is sent: that of the message if it has a content, and 0 if it has none.
abbrev pub announced : NodeMessage → ℕ
announced msg = elim msg.content [ some content ↦ msg.len | none ↦ 0 ]

abbrev pub body : NodeMessage → List ℕ
body msg = elim msg.content [ some content ↦ content | none ↦ [] ]

text-parts :
    (msg : NodeMessage) → message_text msg ≡ msg.type ∷ (print_len (announced msg) ++ body msg)
unfolding message_text
text-parts msg = elim (Option-cases msg.content) [
  | inl absent ↦ rw absent (ap (◌∷◌ msg.type) (sym (append-nil (print_len 0))))
  | inr (content, e) ↦ rw e refl
]

announced_fits : (msg : NodeMessage) → msg.len < 2 ^ 32 → announced msg < 2 ^ 32
announced_fits msg h = elim (Option-cases msg.content) [
  | inl absent ↦ rw absent (omega arith)
  | inr (content, e) ↦ rw e h
]

pub one_byte : (big : Bool) (n : ℕ) → n < 256 → memory_bytes big 1 n ≡ n ∷ []
unfolding memory_bytes little_bytes
one_byte true n h = ap (λ k. k ∷ []) (omega arith)
one_byte false n h = ap (λ k. k ∷ []) (omega arith)

c_string-digits : (xs : List ℕ) → All IsUpperHex xs → c_string xs ≡ xs
c_string-digits [] h = refl
c_string-digits (x ∷ xs) h =
    let nonzero : (x == 0) ≡ false = ground arith in
    rw nonzero (ap (◌∷◌ x) (c_string-digits xs h.1))

module _ {Ev : Type 0} (p : Platform Ev) (contents : Ev → Evbuffer → List ℕ)
    (laws : Removes p contents) (app : App Ev) (mc : Machine) (b : Evbuffer) where
  -- A node that reads the text of a message, whose type is a byte and whose length is a uint32_t, gets
  -- the type, and the length if the message has a content and 0 if it has none; the content is left in
  -- the buffer, and the node does not change.
  pub header-message_text :
      (h : Host Ev NodeSelf) (msg : NodeMessage) (more : List ℕ)
      → msg.type < 256
      → msg.len < 2 ^ 32
      → contents h.net.ev b ≡ message_text msg ++ more
      → (t : Host Ev NodeSelf) × (node_parse_message_header p app mc b h
          ≡ ok (some (record (mc.header_message) { type = msg.type; len = announced msg }), t))
        × (contents t.net.ev b ≡ body msg ++ more)
        × (t.upper ≡ h.upper)
  unfolding node_parse_message_header on_net ask ◌>>=◌
  header-message_text h msg more byte len holds =
      let digits = print_len (announced msg) in
      let fits : announced msg < 2 ^ 32 = announced_fits msg len in
      let split : contents h.net.ev b
          ≡ memory_bytes mc.big 1 msg.type ++ (digits ++ (body msg ++ more)) =
        holds
        ∙ ap (λ (bs : List ℕ). bs ++ more) (text-parts msg)
        ∙ ap (◌∷◌ msg.type) (append_assoc digits (body msg) more)
        ∙ ap (λ (bs : List ℕ). bs ++ (digits ++ (body msg ++ more)))
            (sym (one_byte mc.big msg.type byte)) in
      let (t, runs, left, same) =
        read_var-memory_bytes p contents laws app mc b h 1 msg.type mc.header_message.type _
          (omega arith) split in
      let (len_read, eight) = parse_len-print_len (announced msg) fits in
      let e : (p.evbuffer_remove t.net.ev b len_str_bytes).0 ≡ some digits =
        laws.bytes t.net.ev b len_str_bytes
        ∙ ap some (ap (take len_str_bytes) left ∙ take-append digits _ len_str_bytes eight) in
      let reads : parse_len (c_string digits) ≡ announced msg =
        ap parse_len (c_string-digits digits (hex_digits-IsUpperHex len_str_bytes (announced msg)))
        ∙ len_read in
      (
        record t { net = record (t.net) { ev = (p.evbuffer_remove t.net.ev b len_str_bytes).1 } },
        rw (runs, e, reads) refl,
        laws.rest t.net.ev b len_str_bytes
            ∙ ap (drop len_str_bytes) left
            ∙ drop-append digits _ len_str_bytes eight,
        same,
      )
