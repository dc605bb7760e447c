-- ===== src/Netio/Table.antt =====
-- What src/netio.c promises about its connection numbers: which are open, and how requests change that.
use fyp_dht.Prelude.{
  ℕ, ◌≡◌, ◌<◌, Bool, true, false, not, ◌==◌, ◌&&◌, ◌||◌, List, [], ◌∷◌, some, none, is_some, ℤ, pos,
  negsuc, get_elem?,
}
use fyp_dht.Prelude.Outcome.{◌>>=◌, ◌>>◌, pure}
use fyp_dht.Platform.{Platform}
use fyp_dht.Netio.State.{NetServer, max_open_connections}
use fyp_dht.Netio.Conn.{NetM, net_connection_create, net_connection_close}

pub data Request : Type 0 where
  -- An address and a port.
  creates : ℕ → ℕ → Request
  closes : ℤ → Request

-- Which numbers are open.
abbrev pub Table : Type 0
Table = ℕ → Bool

abbrev pub opening : ℕ → Table → Table
opening i t j = (i == j) || t j

abbrev pub closing : ℤ → Table → Table
closing (pos i) t j = not (i == j) && t j
closing (negsuc n) t j = t j

-- A request with its result. A connection is given the least number that is not open, or refused; a close is
-- always done.
pub data Answer (t : Table) : Request → ℤ → Table → Type 0 where
  gives :
      (ip port i : ℕ)
      → i < max_open_connections
      → t i ≡ false
      → ((j : ℕ) → j < i → t j ≡ true)
      → Answer t (creates ip port) (pos i) (opening i t)
  refuses : (ip port : ℕ) → Answer t (creates ip port) (negsuc 0) t
  shuts : (conn : ℤ) → Answer t (closes conn) (pos 0) (closing conn t)

pub data Answers : Table → List Request → List ℤ → Table → Type 0 where
  no_more : (t : Table) → Answers t [] [] t
  then :
      (t : Table) (r : Request) (v : ℤ) (u : Table) (rs : List Request) (vs : List ℤ) (w : Table)
      → Answer t r v u
      → Answers u rs vs w
      → Answers t (r ∷ rs) (v ∷ vs) w

-- The code's table, seen as the numbers whose entries have a bufferevent.
abbrev pub has_bev : {Ev : Type 0} → NetServer Ev → Table
has_bev srv j = elim (get_elem? srv.connections j) [ some c ↦ is_some c.bev | none ↦ false ]

module _ {Ev : Type 0} (p : Platform Ev) where
  -- A call of the code, with the result 0 for a close.
  unfoldable pub one_call : Request → NetM Ev ℤ
  one_call (creates ip port) = net_connection_create p ip port
  one_call (closes conn) = net_connection_close p conn >> pure (pos 0)

  unfoldable pub calls : List Request → NetM Ev (List ℤ)
  calls [] = pure []
  calls (r ∷ rs) = do v ← one_call r; vs ← calls rs; pure (v ∷ vs)
