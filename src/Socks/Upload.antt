-- ===== src/Socks/Upload.antt =====
-- The way of a client's bytes through aether/src/socks.rs and aether/src/netstack.rs.
use aether_gui.Common.{
  ℕ, ◌<◌, ◌≡◌, refl, sym, ap, ◌∙◌, true, false, some, List, [], ◌∷◌, ◌++◌, ==_refl,
}
use aether_gui.Common.Outcome.{}
use mathlib.Core.Option.{some-injective}
use aether_gui.Common.Assoc.{lookup}
use aether_gui.Netstack.{Smoltcp, NetStack, TcpState}
use aether_gui.Netstack.Service.{Turn, run}
use aether_gui.Netstack.Served.{transmitted_bytes}
use aether_gui.Netstack.Delivery.{submitted_bytes}
use aether_gui.Netstack.Runs.{data_taken, run-Flows}
use aether_gui.Socks.Relay.{Read, chunk, eof, read_failed, upload}

-- What the client sends before its stream ends or the stack is gone.
unfoldable pub client_bytes : List Read → List ℕ
client_bytes [] = []
client_bytes (chunk bytes true ∷ reads) = bytes ++ client_bytes reads
client_bytes (chunk bytes false ∷ reads) = []
client_bytes (eof ∷ reads) = []
client_bytes (read_failed ∷ reads) = []

submitted_bytes-upload :
    (id : ℕ) (reads : List Read) → submitted_bytes id (upload id reads) ≡ client_bytes reads
unfolding submitted_bytes upload client_bytes
submitted_bytes-upload id [] = refl
submitted_bytes-upload id (chunk bytes true ∷ reads) =
    rw (==_refl id) (ap (λ l. bytes ++ l) (submitted_bytes-upload id reads))
submitted_bytes-upload id (chunk bytes false ∷ reads) = refl
submitted_bytes-upload id (eof ∷ reads) = refl
submitted_bytes-upload id (read_failed ∷ reads) = refl

-- A run of the stack that takes, for a connection, what its upload sends: if nothing waits at the
-- start and the connection is in the table at the end, the socket was handed a front of the client's
-- bytes, and the rest of them waits.
pub run-upload :
    (net : Smoltcp) (id : ℕ) (reads : List Read) (turns : List Turn) (s : NetStack net)
    (st st' : TcpState)
    → id < s.next_id
    → lookup id s.tcp_conns ≡ some st
    → st.pending ≡ []
    → submitted_bytes id (data_taken turns) ≡ submitted_bytes id (upload id reads)
    → lookup id (run net turns s).0.tcp_conns ≡ some st'
    → transmitted_bytes id (run net turns s).1 ++ st'.pending ≡ client_bytes reads
run-upload net id reads turns s st st' old at_id idle taken at' =
    let (st0, at0, flow) = run-Flows net id turns s old st' at' in
    flow
    ∙ ap (λ (x : TcpState). x.pending ++ submitted_bytes id (data_taken turns))
        (some-injective _ _ (sym at0 ∙ at_id))
    ∙ ap (λ l. l ++ submitted_bytes id (data_taken turns)) idle
    ∙ taken
    ∙ submitted_bytes-upload id reads
