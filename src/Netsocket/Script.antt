-- ===== src/Netsocket/Script.antt =====
-- netsocket.c: the calls a user can make on an object.
use libc_jss.Base.{Bytes, ℤ, Option}
use libc_jss.Netsocket.{
  Netsocket, Ways, netsocket_destroy, netsocket_disconnect, netsocket_disconnect_withevent,
  netsocket_disable_lookup_on_accept, set_host, set_lhost, set_port, set_lport, netsocket_write,
  netsocket_printf,
}
use libc_jss.Netsocket.Start.{System, netsocket_connect, netsocket_listen}

pub data Call : Type 0 where
  call_connect : Call
  call_listen : Call
  call_disconnect : Option Bytes → Call
  call_disconnect_withevent : Option Bytes → Call
  call_write : Bytes → Call
  call_printf : Bytes → Call
  call_destroy : Call
  call_host : Option Bytes → Call
  call_lhost : Option Bytes → Call
  call_port : ℤ → Call
  call_lport : ℤ → Call
  call_disable_lookup_on_accept : Call

unfoldable pub perform : {W : Type 0} → Ways W → System → Call → Netsocket → W
perform ways sys call_connect s = (netsocket_connect ways sys s).0
perform ways sys call_listen s = (netsocket_listen ways sys s).0
perform ways sys (call_disconnect reason) s = ways.returns (netsocket_disconnect reason s)
perform ways sys (call_disconnect_withevent reason) s = netsocket_disconnect_withevent ways reason s
perform ways sys (call_write bytes) s = ways.returns (netsocket_write sys.send bytes s).0
perform ways sys (call_printf formatted) s = ways.returns (netsocket_printf sys.send formatted s).0
perform ways sys call_destroy s = ways.returns (netsocket_destroy s)
perform ways sys (call_host host) s = ways.returns (set_host host s)
perform ways sys (call_lhost lhost) s = ways.returns (set_lhost lhost s)
perform ways sys (call_port port) s = ways.returns (set_port port s)
perform ways sys (call_lport lport) s = ways.returns (set_lport lport s)
perform ways sys call_disable_lookup_on_accept s =
    ways.returns (netsocket_disable_lookup_on_accept s)
