-- ===== src/Tests/NodeNets.antt =====
-- A node in a build with USE_NETW, at a concrete input.
use fyp_dht.Prelude.{ℕ, List, [], ◌∷◌, none, replicate}
use fyp_dht.Netio.State.{NetServer, with_ev}
use fyp_dht.NetWrapper.{NetwHandler}
use fyp_dht.Tests.Pipes.{Pipes, asked_ten}

abbrev handler_block : ℕ → List NetwHandler
handler_block n = replicate n (record { incoming_connection_cb = none; incoming_cb_arg = none })

-- The number 0 has come.
abbrev sent_zero : Pipes
sent_zero = (b'0' ∷ 10 ∷ [], [])

abbrev zero_came : NetServer Pipes
zero_came = with_ev asked_ten.net sent_zero
