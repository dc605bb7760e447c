-- ===== src/Node/Replies.antt =====
-- The replies that nodes of src/node.c send each other: what one writes, another of the same byte
-- order reads.
use fyp_dht.Prelude.{
  ℕ, zero, suc, ◌^◌, ◌≡◌, ◌<◌, refl, ap, ◌∙◌, List, [], ◌++◌, some, take, drop, take-append,
  drop-append,
}
use fyp_dht.Prelude.Outcome.{ok, ◌>>=◌}
use fyp_dht.Platform.{Platform, Evbuffer}
use fyp_dht.Callback.{NodeInfo, NodeFoundCbData}
use fyp_dht.Wire.Memory.{memory_bytes, length-memory_bytes, overwrite_full, overwrite_none}
use fyp_dht.Netio.Conn.{ask}
use fyp_dht.Netio.Server.{Host, on_net}
use fyp_dht.Node.State.{NodeSelf, Machine, id_bytes}
use fyp_dht.Node.Found.{App, read_var, read_found}

-- What libevent documents of evbuffer_remove: it takes at most the given number of bytes from the front
-- of the buffer, and leaves the others.
pub record Removes {Ev : Type 0} (p : Platform Ev) (contents : Ev → Evbuffer → List ℕ)
    : Type 0 where
  pub bytes :
      (ev : Ev) (b : Evbuffer) (w : ℕ)
      → (p.evbuffer_remove ev b w).0 ≡ some (take w (contents ev b))
  pub rest :
      (ev : Ev) (b : Evbuffer) (w : ℕ)
      → contents (p.evbuffer_remove ev b w).1 b ≡ drop w (contents ev b)

take_none : (w : ℕ) → take {A = ℕ} w [] ≡ []
take_none zero = refl
take_none (suc w) = refl

drop_none : (w : ℕ) → drop {A = ℕ} w [] ≡ []
drop_none zero = refl
drop_none (suc w) = refl

module _ {Ev : Type 0} (p : Platform Ev) (contents : Ev → Evbuffer → List ℕ)
    (laws : Removes p contents) (app : App Ev) (mc : Machine) (b : Evbuffer) where
  abbrev Holds : Host Ev NodeSelf → List ℕ → Type 0
  Holds h bytes = contents h.net.ev b ≡ bytes

  -- A read of a variable of `w` bytes takes the bytes that a writer made of its value.
  pub read_var-memory_bytes :
      (h : Host Ev NodeSelf) (w n old : ℕ) (more : List ℕ)
      → n < 256 ^ w
      → Holds h (memory_bytes mc.big w n ++ more)
      → (t : Host Ev NodeSelf) × (read_var p app mc b w old h ≡ ok (some n, t))
        × Holds t more
        × (t.upper ≡ h.upper)
  unfolding read_var on_net ask ◌>>=◌
  read_var-memory_bytes h w n old more lt holds =
      let e : (p.evbuffer_remove h.net.ev b w).0 ≡ some (memory_bytes mc.big w n) =
        laws.bytes h.net.ev b w
        ∙ ap some (ap (take w) holds ∙ take-append _ more w (length-memory_bytes mc.big w n)) in
      (
        record h { net = record (h.net) { ev = (p.evbuffer_remove h.net.ev b w).1 } },
        rw (e, overwrite_full mc.big w old n lt) refl,
        laws.rest h.net.ev b w
            ∙ ap (drop w) holds
            ∙ drop-append _ more w (length-memory_bytes mc.big w n),
        refl,
      )

  -- One with nothing in the buffer leaves the variable as it is.
  pub read_var_empty :
      (h : Host Ev NodeSelf) (w old : ℕ)
      → old < 256 ^ w
      → Holds h []
      → (t : Host Ev NodeSelf) × (read_var p app mc b w old h ≡ ok (some old, t))
        × Holds t []
        × (t.upper ≡ h.upper)
  unfolding read_var on_net ask ◌>>=◌
  read_var_empty h w old lt holds =
      let e : (p.evbuffer_remove h.net.ev b w).0 ≡ some [] =
        laws.bytes h.net.ev b w ∙ ap some (ap (take w) holds ∙ take_none w) in
      (
        record h { net = record (h.net) { ev = (p.evbuffer_remove h.net.ev b w).1 } },
        rw (e, overwrite_none mc.big w old lt) refl,
        laws.rest h.net.ev b w ∙ ap (drop w) holds ∙ drop_none w,
        refl,
      )

  -- What successor_found_for_remote writes of a node whose fields fit, and of the hops, is what the
  -- reader of the reply gets, whatever its variables held.
  pub read_found-reply :
      (h : Host Ev NodeSelf) (n : NodeInfo) (hops : ℕ) (d : NodeFoundCbData) (more : List ℕ)
      → n.id < 2 ^ 32
      → n.ip < 2 ^ 32
      → n.port < 2 ^ 16
      → hops < 2 ^ 16
      → contents h.net.ev b
        ≡ memory_bytes mc.big id_bytes n.id
          ++ (memory_bytes mc.big 4 n.ip
              ++ (memory_bytes mc.big 2 n.port ++ (memory_bytes mc.big 2 hops ++ more)))
      → (t : Host Ev NodeSelf) × (read_found p app mc b d h
          ≡ ok (some (record d { node = n; hops = hops }), t))
        × (contents t.net.ev b ≡ more)
        × (t.upper ≡ h.upper)
  unfolding read_found ◌>>=◌
  read_found-reply h n hops d more id ip port hs holds =
      let (h1, e1, k1, u1) = read_var-memory_bytes h id_bytes n.id d.node.id _ id holds in
      let (h2, e2, k2, u2) = read_var-memory_bytes h1 4 n.ip d.node.ip _ ip k1 in
      let (h3, e3, k3, u3) = read_var-memory_bytes h2 2 n.port d.node.port _ port k2 in
      let (h4, e4, k4, u4) = read_var-memory_bytes h3 2 hops d.hops more hs k3 in
      (h4, rw (e1, e2, e3, e4) refl, k4, u4 ∙ u3 ∙ u2 ∙ u1)

  -- A reply of handle_pred_request says nothing of the hops: the reader keeps what its variable held.
  pub read_found-predecessor :
      (h : Host Ev NodeSelf) (n : NodeInfo) (d : NodeFoundCbData)
      → n.id < 2 ^ 32
      → n.ip < 2 ^ 32
      → n.port < 2 ^ 16
      → d.hops < 2 ^ 16
      → contents h.net.ev b
        ≡ memory_bytes mc.big id_bytes n.id
          ++ (memory_bytes mc.big 4 n.ip ++ (memory_bytes mc.big 2 n.port ++ []))
      → (t : Host Ev NodeSelf) × (read_found p app mc b d h ≡ ok (some (record d { node = n }), t))
        × (contents t.net.ev b ≡ [])
        × (t.upper ≡ h.upper)
  unfolding read_found ◌>>=◌
  read_found-predecessor h n d id ip port hs holds =
      let (h1, e1, k1, u1) = read_var-memory_bytes h id_bytes n.id d.node.id _ id holds in
      let (h2, e2, k2, u2) = read_var-memory_bytes h1 4 n.ip d.node.ip _ ip k1 in
      let (h3, e3, k3, u3) = read_var-memory_bytes h2 2 n.port d.node.port _ port k2 in
      let (h4, e4, k4, u4) = read_var_empty h3 2 d.hops hs k3 in
      (h4, rw (e1, e2, e3, e4) refl, k4, u4 ∙ u3 ∙ u2 ∙ u1)
