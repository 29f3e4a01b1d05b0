-- ===== src/Connection/Tests.antt =====
-- Tests of the model of a connection: activations of a quiet one.
use turbo_multimedia_server.Common.{ℕ, ◌≡◌, refl, true, false, []}
use turbo_multimedia_server.Address.{InetAddress}
use turbo_multimedia_server.Connection.{Connection, flush}
use turbo_multimedia_server.Connection.Activation.{activates_each, flush-activates_each}

abbrev anywhere : InetAddress
anywhere = record { ip = []; port = []; is_ipv6 = false }

abbrev quiet : Connection ℕ
quiet = record {
  contexts = [];
  has_active_cb = true;
  active = false;
  activations = 0;
  waiting = 0;
  local_addr = anywhere;
  peer_addr = anywhere;
}

flush-activates_each_example :
    ((activates_each true 2 quiet).activations ≡ 1)
    × ((flush (activates_each false 2 quiet)).activations ≡ 2)
flush-activates_each_example = flush-activates_each 1 quiet refl refl refl
