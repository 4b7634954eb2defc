-- ===== src/Netif.antt =====
-- The lwIP interface over the tunnel, source/awg_netif.c, and the clock of lwIP,
-- source/lwip_port/sys_arch.c. What lwIP and the socket answer is an argument.
pub mod Clock
use sys_amneziawg.Common.{
  ℕ, Bool, true, false, not, ◌&&◌, ◌||◌, Option, none, some, List, length, ltb, leb, ◌==◌,
  if◌then◌else◌, u16, u32, ℤ, Entropy,
}
use sys_amneziawg.Types.{Config}
use sys_amneziawg.Noise.Crypto.{Crypto}
use sys_amneziawg.Noise.Transport.{Sealed, datagram, refused, fault}
use sys_amneziawg.Session.State.{Session}
use sys_amneziawg.Session.Send.{Sent, build_data}

abbrev pub tunnel_mtu : ℕ
tunnel_mtu = 1400

-- g_ready, g_fd and whether g_sess is set; the other static variables do not change again.
pub record Interface : Type 0 where
  pub ready : Bool
  pub fd : ℤ
  pub attached : Bool

-- sys_now, for the milliseconds of the console's clock.
unfoldable pub sys_now : ℕ → ℕ
sys_now clock_ms = u32 clock_ms

-- ERR_OK, ERR_IF, ERR_MEM and ERR_BUF.
pub data Err : Type 0 where
  err_ok err_if err_mem err_buf : Err

-- What tunnel_output leaves: the session, the datagram that was given to sendto, and its answer.
-- A write outside g_out is an error of its own.
pub record Output : Type 0 where
  pub session : Session
  pub wire : Option (List ℕ)
  pub err : Option Err
  pub entropy : Entropy

-- From sendto on, whose success is `delivered`.
unfoldable pub hand_over : Sent → Bool → Output
hand_over r delivered = elim r.out [
  | datagram pkt ↦ record {
    session = r.session;
    wire = some pkt;
    err = some (if delivered then err_ok else err_if);
    entropy = r.entropy;
  }
  | refused ↦ record { session = r.session; wire = none; err = some err_mem; entropy = r.entropy }
  | fault ↦ record { session = r.session; wire = none; err = none; entropy = r.entropy }
]

abbrev pub stopped : Session → Err → Entropy → Output
stopped s why e = record { session = s; wire = none; err = some why; entropy = e }

-- A packet of `total` bytes, of which pbuf_copy_partial gives `copied`.
unfoldable pub tunnel_output :
    Crypto → Config → Interface → Session → ℕ → List ℕ → ℕ → Bool → Entropy → Output
tunnel_output c cfg nif s total copied clock_ms delivered e =
    if not (nif.attached && s.established)
    then stopped s err_if e
    else if ltb tunnel_mtu total
    then stopped s err_mem e
    else if not (length copied == total)
    then stopped s err_buf e
    else hand_over (build_data c cfg s copied 2048 (sys_now clock_ms) e) delivered

-- awg_netif_start: `len_fits` is the test on peer_len, `added` the answer of netif_add.
unfoldable pub netif_start : Interface → ℤ → Bool → Bool → Interface × Bool
netif_start nif fd len_fits added =
    let bound : Interface = record nif { fd = fd; attached = true } in
    if not len_fits
    then (nif, false)
    else if added
    then (record bound { ready = true }, true)
    else (bound, false)

unfoldable pub netif_set_fd : Interface → ℤ → Interface
netif_set_fd nif fd = record nif { fd = fd }

-- What pbuf_alloc, pbuf_take and the interface's input answer.
pub record PbufAnswers : Type 0 where
  pub allocated : Bool
  pub taken : Bool
  pub accepted : Bool

-- The buffers that awg_netif_input asks for, gives back, and leaves with lwIP.
pub record Buffers : Type 0 where
  pub asked : ℕ
  pub freed : ℕ
  pub passed : ℕ

unfoldable pub netif_input : Interface → ℕ → PbufAnswers → Buffers
netif_input nif len a =
    if not nif.ready || len == 0
    then record { asked = 0; freed = 0; passed = 0 }
    else if not a.allocated
    then record { asked = 0; freed = 0; passed = 0 }
    else if not a.taken
    then record { asked = 1; freed = 1; passed = 0 }
    else if a.accepted
    then record { asked = 1; freed = 0; passed = 1 }
    else record { asked = 1; freed = 1; passed = 0 }
