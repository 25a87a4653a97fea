-- ===== src/Client/PortTests.antt =====
-- Clients at concrete values: their callbacks and their ports.
use rust_jack.Base.{◌≡◌, refl, inr, err}
use rust_jack.Enums.{client_is_no_longer_alive}
use rust_jack.Client.Ports.{connect_ports, disconnect_ports}
use rust_jack.Client.State.{free, done}
use rust_jack.Client.Connecting.{dead_ports}
use rust_jack.Client.Samples.{lib, port_lib, utf8, world, client, port}

dead_ports_example :
    (connect_ports lib port_lib utf8 client (port 3) (port 2) (world free)
      ≡ done (err client_is_no_longer_alive) (world free))
    × (disconnect_ports lib port_lib utf8 client (port 3) (port 2) (world free)
        ≡ done (err client_is_no_longer_alive) (world free))
dead_ports_example =
    dead_ports lib port_lib utf8 client (port 3) (port 2) (world free) refl (inr refl)
