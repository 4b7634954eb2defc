-- ===== src/Lib.antt =====
-- A model of sys-amneziawg: an AmneziaWG tunnel as a background module, with a transparent TLS
-- proxy in front of it.
--
-- The parts and where they are modelled:
--
-- * source/awg.h, the configuration: Types.antt, its structs as records. A C int that may be
--   negative is the ℤ of Common/Words.antt, with the arithmetic of Common/Int.antt; a word of w bits
--   is a native number whose wrap is written out.
-- * source/awg_config.c, the configuration file: Settings/Text.antt (trim and the C library's calls),
--   Settings/Values.antt (parse_ipv4, parse_range, parse_key, ip_str), Settings/Keys.antt (the
--   settings of both sections), Settings/Load.antt (awg_config_load). strtol, strtoul and strtok are
--   written out as newlib has them.
-- * source/awg_noise.c, the Noise handshake, the framing and the data packets: Noise/Primitives.antt
--   (hash2, kdf, mac1 and the byte order), Noise/Handshake.antt (awg_create_initiation,
--   awg_consume_initiation, awg_create_response, awg_consume_response), Noise/Framing.antt (awg_wrap,
--   awg_unwrap), Noise/Framing/Junk.antt (awg_junk_packets), Noise/Transport.antt
--   (awg_transport_seal, awg_transport_open). Each function takes the handshake state and returns it
--   as the C function leaves it. The functions of source/crypto are copies of other projects' code:
--   the record Crypto of Noise/Crypto.antt is an interface to them, and CryptoLaws is their
--   documented behaviour.
-- * source/crypto/crypto.c, the constant-time comparison: Noise/Compare.antt.
-- * source/awg_session.c, the life of a session: Session/State.antt (the struct, the timers),
--   Session/Send.antt, Session/Receive.antt, Session/Window.antt (replay_ok). Session/Trace.antt runs
--   sequences of calls, with a ghost record of what was sent and let through.
-- * source/awg_proxy.c, the proxy: Proxy/Sni.antt (find_sni, sni_hostname), Proxy/Host.antt
--   (host_normalise, host_denied), Proxy/Connection.antt (what each callback, read, write and sweep
--   does to one connection), Proxy/Table.antt (conn_alloc, accept, sweep_idle, awg_proxy_stop) and
--   Proxy/Poll.antt (awg_proxy_start, awg_proxy_poll, and runs of passes and callbacks). What lwIP
--   and the sockets answer is part of the event.
-- * source/awg_obf.c, the obfuscation templates: Obfuscation/Base64.antt (awg_b64_encode_raw,
--   awg_b64_decode), Obfuscation/Parse.antt (awg_obf_parse), Obfuscation/Render.antt
--   (awg_obf_out_len, awg_obf_render). The C library's strtol is a parameter of the parser, which
--   Settings/Text.antt fills.
-- * source/awg_ipprobe.c, one DNS exchange built by hand: Probe.antt (ipprobe_build_dns,
--   ipprobe_parse_dns).
-- * source/awg_netif.c, the lwIP interface over the tunnel: Netif.antt (tunnel_output,
--   awg_netif_start, awg_netif_set_fd, awg_netif_input), with sys_now of
--   source/lwip_port/sys_arch.c.
-- * source/awg_power.c, sleep and wake: Power.antt (awg_power_transition), with the answers of the
--   console's service as arguments.
-- * source/main_switch.c, the main loop: Tunnel/Fetch.antt (the HTTP probe), Tunnel/Loop.antt (the
--   variables, the power transition, the rebuilding of the tunnel), Tunnel/Turn.antt (what is sent,
--   the interface, the wait, the datagrams, and a turn as the loop composes them), Tunnel/Status.antt
--   (the numbers of the status report, and the verdict).
--
-- The session draws on the noise layer for each message; the proxy hands its bytes to lwIP, whose
-- packets tunnel_output seals into the session. The main loop holds session, interface, proxy and
-- probe, and gives the session the peer's datagrams; its model uses those of the parts.
--
-- Bounds and fuel: the loop of find_sni has one more unit of fuel than the buffer has bytes, which
-- is enough since each turn takes four bytes or more; the loop of awg_obf_parse has one more than
-- the template has bytes, and each turn takes two or more; skip_name, encode_name and the lines of a
-- configuration file have one more than their input has bytes, and each turn takes one or more; two
-- turns add back the carries of a checksum. An access outside a buffer is a value of its own (fault,
-- overrun, overread), and so is a loop that runs out (stuck, unfinished). The entropy of
-- awg_random_bytes is the sequence of its bytes.
--
-- A template's tag of another length than announced is no output at all.
--
-- Not modelled: lwIP and the primitives of source/crypto, which are other projects' code; the host
-- test program; the start-up of the module, logging, and the calls of sockets and of the console's
-- services, which are input and output. Closing a descriptor is the assignment to its variable; what
-- awg_netif_input and awg_netif_poll make lwIP call within a turn is modelled apart from it, as events
-- of the interface and of the proxy.
pub mod Common
pub mod Types
pub mod Noise
pub mod Session
pub mod Proxy
pub mod Obfuscation
pub mod Power
pub mod Probe
pub mod Settings
pub mod Netif
pub mod Tunnel
pub mod Tests
