-- ===== src/Textsend/Reads.antt =====
-- read_in_msg of example/textsend.c: the text that it prints.
use fyp_dht.Prelude.{
  ℕ, zero, suc, ◌≡◌, ◌≤◌, ◌<◌, ◌⊎◌, inl, inr, refl, ap, ◌∙◌, Bool-cases, arith, List, [], ◌∷◌, some,
  ltb, ◌==◌, if◌then◌else◌, length, set, take, ℤ,
}
use fyp_dht.Prelude.Outcome.{ok, fault, out_of_bounds, ◌>>=◌, need, >>=-ok}
use fyp_dht.Platform.{Platform, input}
use fyp_dht.Callback.{NodeMessage}
use fyp_dht.Netio.State.{with_ev}
use fyp_dht.Netio.Conn.{ask, call, net_connection_get_read_buffer}
use fyp_dht.Netio.Server.{Host, on_net}
use fyp_dht.Netio.Hosts.{on_net-ok}
use fyp_dht.Netio.Live.{IsOpen, read_buffer-open}
use fyp_dht.Node.State.{NodeSelf}
use fyp_dht.Node.Incoming.{c_string}
use fyp_dht.Textsend.{Calls, received, terminated, read_in_msg}

-- A 0 that is written at place `n` ends the string there.
c_string-set :
    (bytes : List ℕ) (n : ℕ) → n < length bytes → c_string (set bytes n 0) ≡ c_string (take n bytes)
c_string-set [] n lt = absurd (omega arith)
c_string-set (x ∷ xs) zero lt = refl
c_string-set (x ∷ xs) (suc n) lt =
    ap (λ rest. if x == 0 then [] else x ∷ rest) (c_string-set xs n (omega arith))

module _ {Ev : Type 0} (p : Platform Ev) (c : Calls Ev) where
  -- For an open connection whose buffer is not NULL: if more bytes are there than the message announced,
  -- read_in_msg prints the announced ones up to their first 0 and empties the buffer; if there are no more
  -- than announced, the 0 is written behind them, outside the buffer.
  pub read_in_msg-prints :
      (msg : NodeMessage) (conn : ℤ) (h : Host Ev NodeSelf) (bytes : List ℕ)
      (is_open : IsOpen conn h.net)
      → (c.evbuffer_pullup h.net.ev (input is_open.handle)).0 ≡ some bytes
      → ((msg.len < length bytes)
          × (read_in_msg p c msg conn h
              ≡ ok (
                tt,
                record h {
                  net = with_ev h.net (
                      c.evbuffer_drain
                        (c.print
                          (c.evbuffer_pullup h.net.ev (input is_open.handle)).1
                          (received (c_string (take msg.len bytes))))
                        (input is_open.handle));
                },
              )))
        ⊎ ((length bytes ≤ msg.len) × (read_in_msg p c msg conn h ≡ fault out_of_bounds))
  unfolding read_in_msg terminated on_net ask call need ◌>>=◌
  read_in_msg-prints msg conn h bytes is_open pulled =
      let buffered =
        on_net-ok (net_connection_get_read_buffer p conn) h
          (read_buffer-open p conn h.net is_open) in
      elim (Bool-cases (ltb msg.len (length bytes))) [
        | inl more ↦ inl (
          ground arith,
          >>=-ok (on_net (net_connection_get_read_buffer p conn)) _ h buffered
              ∙ rw (pulled, more, c_string-set bytes msg.len (ground arith)) refl,
        )
        | inr less ↦ inr (
          ground arith,
          >>=-ok (on_net (net_connection_get_read_buffer p conn)) _ h buffered
              ∙ rw (pulled, less) refl,
        )
      ]
