-- ===== src/Server/Binding/Loop/Serves.antt =====
-- The steps of the loop of `handleQuery` with its data on a server that can serve queries, as those of
-- `Binding`.
use unity_gaming_services_go.Prelude.{ap, ◌≢◌, List, panic, Bytes, arith}
use unity_gaming_services_go.Proto.Challenge.{Readings}
use unity_gaming_services_go.Server.{Server, QueryResponder}
use unity_gaming_services_go.Server.Queries.{read_into}
use unity_gaming_services_go.Server.Queries.Service.{
  IsServing, length-read_into, respond_with-ne-panic,
}
use unity_gaming_services_go.Server.Binding as B
use unity_gaming_services_go.Server.Binding.{Binding, System, Move}
use unity_gaming_services_go.Server.Binding.Loop.{
  Work, point, response, Step, read_done, read_open, set_read_deadline, set_read_deadline_fails,
  set_read_deadline_nil, read_from_udp, read_from_udp_nil, received, receive_fails, return_reading,
  retry_reading, answered, refused, respond_panics, respond_nil, write_done, write_open,
  set_write_deadline, set_write_deadline_fails, set_write_deadline_nil, write_to, write_to_nil,
  sent, send_fails, return_writing, retry_writing, Loop,
}

-- The point of the loop, without its data.
abbrev pub system : Loop → System
system t = record { bind = t.bind; reader = point t.work; closer = t.closer }

response-ne-panic :
    (os : Bytes) (s : Server) (r : Readings) (client d : Bytes) (p : QueryResponder)
    → IsServing s
    → (response os s r client d p).1 ≢ panic
response-ne-panic os s r client d p h =
    respond_with-ne-panic os s.state r client (read_into s.query_read_buffer_size_bytes d) p
      h.window (omega (arith, h.roomy, length-read_into s.query_read_buffer_size_bytes d))

-- `Respond` gives an answer or an error, and the point of the loop moves as in `Binding`.
module _ {os : Bytes} {b : Binding} {s : Server} where
  pub Step-Move :
      {u : Server} {w v : Work} {out : List (Bytes × Bytes)}
      → Step os b s w v u out
      → IsServing s
      → Move b (point w) (point v)
  Step-Move (read_done d) h = B.read_done d
  Step-Move (read_open d) h = B.read_open d
  Step-Move (set_read_deadline c) h = B.set_read_deadline c
  Step-Move (set_read_deadline_fails e c) h = B.set_read_deadline_fails c
  Step-Move (set_read_deadline_nil c) h = B.set_read_deadline_nil c
  Step-Move (read_from_udp c) h = B.read_from_udp c
  Step-Move (read_from_udp_nil c) h = B.read_from_udp_nil c
  Step-Move (received client d c) h = B.received c
  Step-Move (receive_fails e) h = B.receive_fails
  Step-Move (return_reading d) h = B.return_reading d
  Step-Move (retry_reading d) h = B.retry_reading d
  Step-Move (answered r p q e a) h = B.answered
  Step-Move (refused r p q e a) h = B.refused
  Step-Move (respond_panics {client} {d} r p q e a) h =
      absurd (response-ne-panic os s r client d p h (ap (λ x. x.1) a))
  Step-Move (respond_nil e) h = absurd (h.responds e)
  Step-Move (write_done d) h = B.write_done d
  Step-Move (write_open d) h = B.write_open d
  Step-Move (set_write_deadline c) h = B.set_write_deadline c
  Step-Move (set_write_deadline_fails e c) h = B.set_write_deadline_fails c
  Step-Move (set_write_deadline_nil c) h = B.set_write_deadline_nil c
  Step-Move (write_to c) h = B.write_to c
  Step-Move (write_to_nil c) h = B.write_to_nil c
  Step-Move (sent c) h = B.sent c
  Step-Move (send_fails e) h = B.send_fails
  Step-Move (return_writing d) h = B.return_writing d
  Step-Move (retry_writing d) h = B.retry_writing d
