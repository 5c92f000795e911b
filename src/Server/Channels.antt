-- ===== src/Server/Channels.antt =====
-- The channels of server.go that a user reads: a channel of capacity 1 is what waits in it, and a
-- receive takes that away.
use unity_gaming_services_go.Prelude.{Option, none, Bytes}
use unity_gaming_services_go.Server.Settings.{Config, GoError}
use unity_gaming_services_go.Server.{Server}

unfoldable pub on_allocate : Server → Option Bytes
on_allocate s = s.chan_allocated

unfoldable pub on_deallocate : Server → Option Bytes
on_deallocate s = s.chan_deallocated

unfoldable pub on_error : Server → Option GoError
on_error s = s.chan_error

unfoldable pub on_configuration_changed : Server → Option Config
on_configuration_changed s = s.chan_configuration_changed

-- A receive that does not wait: the server after it, and what was received.
unfoldable pub receive_allocated : Server → Server × Option Bytes
unfolding on_allocate
receive_allocated s = (record s { chan_allocated = none }, on_allocate s)

unfoldable pub receive_deallocated : Server → Server × Option Bytes
unfolding on_deallocate
receive_deallocated s = (record s { chan_deallocated = none }, on_deallocate s)

unfoldable pub receive_error : Server → Server × Option GoError
unfolding on_error
receive_error s = (record s { chan_error = none }, on_error s)

unfoldable pub receive_configuration : Server → Server × Option Config
unfolding on_configuration_changed
receive_configuration s =
    (record s { chan_configuration_changed = none }, on_configuration_changed s)
