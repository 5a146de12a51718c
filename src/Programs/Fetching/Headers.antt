-- ===== src/Programs/Fetching/Headers.antt =====
-- What the program prints of a response.
use libc_jss.Base.{Bytes, true, false, none, some, ◌∷◌}
use libc_jss.Htclient.{Htclient, line_end, Peer}
use libc_jss.Htclient.Headers.{Headers}
use libc_jss.Htclient.Parsed.{render_onto}

-- The lines of a response, and the blank line behind them.
abbrev pub response : Bytes × Bytes × Bytes → Headers → Bytes
response status hs = render_onto (status ∷ hs) line_end

-- A peer that answers with a text.
abbrev pub answering : Bytes → Peer
answering text = record {
  socket_error = none;
  host_found = true;
  connect_error = none;
  write_failed = false;
  answer = some text;
}
