-- ===== src/Server/Binding.antt =====
-- bind.go while the binding is closed: the goroutine of `handleQuery` (query.go), which reads and
-- writes, and the one that calls `Close`, a shared access at a time. What is answered and which
-- errors are pushed is in `Queries`.
pub mod Phases
pub mod Closing
pub mod Loop
pub mod Restart
use unity_gaming_services_go.Prelude.{ℕ, suc, ◌≡◌, Bool, true, false, Option, none, some}

-- `udpBinding`: the connection (nil, or whether it is closed) and whether `done` is closed.
pub record Binding : Type 0 where
  pub conn : Option Bool
  pub done : Bool

-- Where the loop of `handleQuery` stands: at the start of `Read`, behind its check, behind the
-- deadline, in ReadFromUDP, at the check behind an error of `Read`, at `Respond`, likewise for
-- `Write`, returned, panicked.
pub data Reader : Type 0 where
  read read_checked read_timed receiving read_error : Reader
  responding : Reader
  write write_checked write_timed sending write_error : Reader
  stopped crashed : Reader

-- A method of a nil connection panics; one of a closed connection returns an error.
pub data Move (b : Binding) : Reader → Reader → Type 0 where
  read_done : b.done ≡ true → Move b read read_error
  read_open : b.done ≡ false → Move b read read_checked
  set_read_deadline : b.conn ≡ some false → Move b read_checked read_timed
  set_read_deadline_fails : {c : Bool} → b.conn ≡ some c → Move b read_checked read_error
  set_read_deadline_nil : b.conn ≡ none → Move b read_checked crashed
  read_from_udp : {c : Bool} → b.conn ≡ some c → Move b read_timed receiving
  read_from_udp_nil : b.conn ≡ none → Move b read_timed crashed
  received : b.conn ≡ some false → Move b receiving responding
  receive_fails : Move b receiving read_error
  return_reading : b.done ≡ true → Move b read_error stopped
  retry_reading : b.done ≡ false → Move b read_error read
  answered : Move b responding write
  refused : Move b responding read
  write_done : b.done ≡ true → Move b write write_error
  write_open : b.done ≡ false → Move b write write_checked
  set_write_deadline : b.conn ≡ some false → Move b write_checked write_timed
  set_write_deadline_fails : {c : Bool} → b.conn ≡ some c → Move b write_checked write_error
  set_write_deadline_nil : b.conn ≡ none → Move b write_checked crashed
  write_to : {c : Bool} → b.conn ≡ some c → Move b write_timed sending
  write_to_nil : b.conn ≡ none → Move b write_timed crashed
  sent : b.conn ≡ some false → Move b sending read
  send_fails : Move b sending write_error
  return_writing : b.done ≡ true → Move b write_error stopped
  retry_writing : b.done ≡ false → Move b write_error read

-- Where `Close` stands: not called, behind its check, behind `close(b.done)`, behind
-- `b.conn.Close()`, returned.
pub data Closer : Type 0 where
  outside closing marked disconnected returned : Closer

pub data CloseMove (b : Binding) : Closer → Binding → Closer → Type 0 where
  already_done : b.done ≡ true → CloseMove b outside b returned
  check_done : b.done ≡ false → CloseMove b outside b closing
  close_done : CloseMove b closing (record b { done = true }) marked
  close_conn :
      {c : Bool} → b.conn ≡ some c → CloseMove b marked (record b { conn = some true }) disconnected
  forget_conn : CloseMove b disconnected (record b { conn = none }) returned

pub record System : Type 0 where
  pub bind : Binding
  pub reader : Reader
  pub closer : Closer

-- A new binding, and the loop at its start.
abbrev pub init : System
init = record { bind = record { conn = some false; done = false }; reader = read; closer = outside }

-- Runs from `s`, interleaved in any order, with the number of moves of the loop.
pub data Run (s : System) : ℕ → System → Type 0 where
  start : Run s 0 s
  query :
      {n : ℕ} {t : System} {r : Reader}
      → Run s n t
      → Move t.bind t.reader r
      → Run s (suc n) (record t { reader = r })
  stop :
      {n : ℕ} {t : System} {b : Binding} {c : Closer}
      → Run s n t
      → CloseMove t.bind t.closer b c
      → Run s n (record t { bind = b; closer = c })
