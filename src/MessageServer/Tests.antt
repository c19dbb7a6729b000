-- ===== src/MessageServer/Tests.antt =====
-- The programs of SocketPackage/ over a connection that delivers in pieces.
use network_communications.Prelude.{ℕ, ◌+◌, pos, List, [], ◌∷◌, ◌≡◌, refl, arith, sum_by}
use network_communications.Run.{overrun, Returns}
use network_communications.Net.Pipe.{
  pipe, pipe_laws, pipe-NoErrors, pipe-Progress, pipe-NoSendErrors, arriving,
}
use network_communications.Wire.{htonl_bytes}
use network_communications.Socket.{send_msg, writen}
use network_communications.MessageServer.{working, send_blocks, client_main, serve, no_infos}
use network_communications.MessageServer.Conversation.{frames, client_main-Posts, blocks_arrive}
use network_communications.MessageServer.Table.{free_infos, serve-free, serve_overrun}

abbrev two_blocks : List (List ℕ)
two_blocks = (b'a' ∷ b'b' ∷ []) ∷ (b'c' ∷ []) ∷ []

abbrev wire : List ℕ
wire = 0 ∷ 0 ∷ 0 ∷ 2 ∷ b'a' ∷ b'b' ∷ 0 ∷ 0 ∷ 0 ∷ 1 ∷ b'c' ∷ []

blocks_arrive_example :
    Returns
      (λ r. (r.messages ≡ two_blocks) × (r.world.incoming ≡ []))
      (working pipe 3 (arriving 0 wire) (pos 4))
unfolding htonl_bytes send_blocks send_msg writen
blocks_arrive_example =
    blocks_arrive pipe pipe pipe_laws pipe_laws pipe-Progress pipe-NoSendErrors pipe-NoErrors 7
      (arriving 1 []) (record (arriving 1 []) { outgoing = wire }) 4 two_blocks wire (omega arith)
      (omega arith) refl refl 3 (arriving 0 wire) (pos 4) (omega arith) refl

client_main-Posts_example :
    Returns
      (λ r. (r.ret ≡ pos 0) × (r.world.outgoing ≡ frames two_blocks))
      (client_main pipe 7 (arriving 1 []) 1 two_blocks)
client_main-Posts_example =
    client_main-Posts pipe pipe_laws pipe-Progress pipe-NoSendErrors 7 (arriving 1 [])
      (arriving 1 []) (arriving 1 []) 3 1 0 two_blocks (omega arith) (omega arith) refl refl refl

serve-free_example :
    Returns
      (λ t. free_infos t.infos + 3 ≡ free_infos no_infos)
      (serve pipe 3 (record { infos = no_infos; world = arriving 0 [] }) (pos 3))
unfolding free_infos sum_by
serve-free_example =
    serve-free pipe (λ w fd. refl) 3 (record { infos = no_infos; world = arriving 0 [] }) (pos 3)
      (omega arith)

serve_overrun_example :
    serve pipe 251 (record { infos = no_infos; world = arriving 0 [] }) (pos 3) ≡ overrun
serve_overrun_example = serve_overrun pipe (λ w fd. refl) (arriving 0 []) (pos 3) 251 (omega arith)
