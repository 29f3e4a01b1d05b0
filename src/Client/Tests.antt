-- ===== src/Client/Tests.antt =====
-- Tests of the model of a client: its theorems at a client that is connecting.
use turbo_multimedia_server.Common.{◌≡◌, refl, true, false, [], ◌∷◌, none, some, ok}
use turbo_multimedia_server.Timing.Idle.{still_wheel}
use turbo_multimedia_server.Tcp.{TcpConnection, took}
use turbo_multimedia_server.Client.{TcpClient, connecting, connected, client_send}
use turbo_multimedia_server.Client.Opening.{
  writable, perform, Opens, IsUnconnected, perform-Opens, client_send_lem,
}

abbrev quiet : TcpConnection
quiet = record {
  closed = false;
  fd_open = true;
  io_vec_list = [];
  writing = true;
  message_buffer = record { buffer = []; reader_index = 0; writer_index = 0 };
  has_close_cb = false;
  has_write_complete_cb = false;
  has_message_cb = false;
  timeout_entry = none;
  max_idle_ms = 30;
  wheel = still_wheel;
  called = [];
  wire = [];
}

abbrev client : TcpClient
client = record {
  connection = quiet;
  loop = record {
    events = [];
    requests = [];
    capacity = 1024;
    functions = [];
    pipe = none;
    woken = 0;
    timing_wheel = still_wheel;
    called = [];
    fired = [];
  };
  fd = some 7;
  status = connecting;
  has_connection_cb = true;
  established = 0;
  reports = 0;
}

client-IsUnconnected : IsUnconnected client
client-IsUnconnected = record { never = refl; silent = (refl, refl); closed = λ h. cc }

perform-Opens_example :
    (c' : TcpClient) × (perform (writable false (took 3 0 ∷ [])) client ≡ ok c') × Opens c'
perform-Opens_example = perform-Opens client client-IsUnconnected (writable false (took 3 0 ∷ []))

client_send_lem_example :
    ((client_send 100 3 client).connection.wire ≡ [])
    × ((client_send 100 3 client).connection.io_vec_list ≡ [])
    × ((client_send 100 3 client).connection.closed ≡ true)
    × ((client_send 100 3 client).status ≡ connected)
client_send_lem_example = client_send_lem 100 3 client
