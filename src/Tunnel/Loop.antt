-- ===== src/Tunnel/Loop.antt =====
-- The variables of the main loop, source/main_switch.c, and its first steps: sleep, and the
-- rebuilding of the tunnel. What the platform answers in a turn is an argument.
use sys_amneziawg.Common.{
  ℕ, ◌+◌, Bool, true, false, not, ◌&&◌, Option, none, some, List, ltb, leb, ◌==◌, if◌then◌else◌,
  u32, u64, sub64, ℤ, pos, negsuc, Entropy,
}
use sys_amneziawg.Types.{Config}
use sys_amneziawg.Session.Window.{DropReason}
use sys_amneziawg.Session.State.{Session, session_init, session_wipe}
use sys_amneziawg.Proxy.Poll.{Proxy, proxy_start, shut, Pass}
use sys_amneziawg.Netif.{Interface, netif_set_fd}
use sys_amneziawg.Tunnel.Fetch.{Fetch, http_idle, http_reset}

-- The variables of the loop with the static ones; a descriptor below 0 is none. `inner` are the
-- packets that awg_netif_input was given, the last one first.
pub record Tunnel : Type 0 where
  pub session : Session
  pub reason : DropReason
  pub entropy : Entropy
  pub fd : ℤ
  pub nif : Interface
  pub netif_up : Bool
  pub proxy : Proxy
  pub fetch : Fetch
  pub tunnel_lost : Bool
  pub unreachable_since : ℕ
  pub next_rebuild : ℕ
  pub next_power : ℕ
  pub next_fetch : ℕ
  pub fetches : ℕ
  pub fetches_ok : ℕ
  pub stray_datagrams : ℕ
  pub rebuilds : ℕ
  pub suspends : ℕ
  pub inner : List (List ℕ)

-- The values of errno that the loop tells apart.
pub data Errno : Type 0 where
  epipe ebadf enotconn enotsock enetreset econnaborted econnreset : Errno
  enetunreach enetdown other_errno : Errno

-- sock_is_dead.
unfoldable pub sock_is_dead : Errno → Bool
sock_is_dead epipe = true
sock_is_dead ebadf = true
sock_is_dead enotconn = true
sock_is_dead enotsock = true
sock_is_dead enetreset = true
sock_is_dead econnaborted = true
sock_is_dead econnreset = true
sock_is_dead enetunreach = false
sock_is_dead enetdown = false
sock_is_dead other_errno = false

unfoldable pub no_network : Errno → Bool
no_network enetunreach = true
no_network enetdown = true
no_network epipe = false
no_network ebadf = false
no_network enotconn = false
no_network enotsock = false
no_network enetreset = false
no_network econnaborted = false
no_network econnreset = false
no_network other_errno = false

-- A datagram as recvfrom gives it: whether the address is whole, where it is from, and when.
pub record Arrival : Type 0 where
  pub whole : Bool
  pub addr : ℕ
  pub port : ℕ
  pub content : List ℕ
  pub at : ℕ

-- What the platform answers in one turn.
pub record Turn : Type 0 where
  pub now : ℕ
  pub wall : ℕ
  pub transition : Bool
  pub new_fd : ℤ
  pub bound : Bool
  pub send_error : Option Errno
  pub netif_added : Bool
  pub made : Bool
  pub dialled : Bool
  pub pass : Pass
  pub died : Bool
  pub readable : Bool
  pub arrivals : List Arrival

abbrev pub has_fd : ℤ → Bool
has_fd (pos n) = true
has_fd (negsuc n) = false

abbrev pub no_fd : ℤ
no_fd = negsuc 0

-- A transition of the power state drops a tunnel that is up.
unfoldable pub drop_tunnel : Tunnel → Tunnel
drop_tunnel t =
    if t.session.established && not t.tunnel_lost
    then record t {
      unreachable_since = 0;
      suspends = u32 (t.suspends + 1);
      proxy = shut t.proxy;
      fd = no_fd;
      nif = netif_set_fd t.nif no_fd;
      session = session_wipe t.session;
      tunnel_lost = true;
    }
    else record t { unreachable_since = 0 }

unfoldable pub power_step : Tunnel → Turn → Tunnel
power_step t u =
    let looked : Tunnel = record t { next_power = u64 (u.now + 1000) } in
    if leb t.next_power u.now then if u.transition then drop_tunnel looked else looked else t

-- What follows the new descriptor of a rebuild.
unfoldable pub with_socket : Config → Tunnel → Turn → Tunnel
with_socket cfg t u =
    let (fresh, e) = session_init cfg t.entropy in
    if has_fd u.new_fd
    then record t {
      fd = u.new_fd;
      rebuilds = u32 (t.rebuilds + 1);
      nif = netif_set_fd t.nif u.new_fd;
      session = fresh;
      entropy = e;
      fetch = record (http_reset t.fetch) { http = http_idle };
      next_fetch = 0;
      tunnel_lost = false;
      unreachable_since = 0;
      proxy = if t.netif_up then proxy_start t.proxy u.bound else t.proxy;
    }
    else record t { fd = u.new_fd }

-- close(fd) is the console's; the descriptor's number is only written over.
unfoldable pub rebuild_step : Config → Tunnel → Turn → Tunnel
rebuild_step cfg t u =
    if t.tunnel_lost && leb t.next_rebuild u.now
    then with_socket cfg (record t { next_rebuild = u64 (u.now + 3000); proxy = shut t.proxy }) u
    else t

-- What the answer of sendto to a handshake changes; none is success.
unfoldable pub after_send : Tunnel → ℕ → Option Errno → Tunnel
after_send t now none = record t { unreachable_since = 0 }
after_send t now (some e) =
    if sock_is_dead e
    then record t { tunnel_lost = true }
    else if no_network e
    then if t.unreachable_since == 0
      then record t { unreachable_since = now }
      else if ltb 30000 (sub64 now t.unreachable_since) && not t.tunnel_lost
      then record t { tunnel_lost = true; unreachable_since = 0 }
      else t
    else t
