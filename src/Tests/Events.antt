-- ===== src/Tests/Events.antt =====
-- The theorems of the grains dns, tls and syscalls and of the sockets at concrete inputs.
use ingraind.Prelude.{
  ℕ, ◌≡◌, ◌/◌, ◌^◌, refl, true, false, Text, chars, Option, none, some, List, [], ◌∷◌, ◌++◌, map,
  All, take, retain, join, replicate, Run, ok, err, ◌>>=◌, if◌then◌else◌, ◌==◌, nat_equality,
  text_equality, text_beq, try_map, unwrap, bit_or, length, ◌+◌, is_empty, reverse, nat_beq, arith,
  split, inr, Returns, panic,
}
use ingraind.Prelude.Maps.{from_pairs}
use ingraind.Backends.{list}
use ingraind.Metrics.{Measurement}
use ingraind.Grains.Ebpf as Ebpf
use ingraind.Grains.Dns as Dns
use ingraind.Grains.Dns.Correlated.{Carries, handler-Carries}
use ingraind.Grains.Files.{path_of, watch_all}
use ingraind.Grains.Syscalls as Syscalls
use ingraind.Grains.Syscalls.Own.{event_of, syscall_enter-loaded}
use ingraind.Grains.Syscalls.Symbols.{Line, IsLine, text_of, file_of, parse_symbol_map-file_of}
use ingraind.Grains.SocketIo.{read_messages}
use ingraind.Grains.Tls as Tls
use ingraind.Grains.Tls.{TlsPacket, Rustls, tls_to_message}
use ingraind.Grains.Tls.Filtered.{tls_handshake-Returns}
use ingraind.Grains.Tls.Trimmed.{received, trimmed_frame_panics}
use ingraind.Probes.TlsFilter as TlsFilter
use ingraind.Probes.Dns.{Event}
use ingraind.Probes.Syscalls as Syscall
use ingraind.Tests.Samples.{
  whole_float, ascii, lacks, Lacks-lacks, Table, table, table-HasRoom, nothing, bytewise,
}

abbrev packet : Dns.Packet
packet = record {
  questions = chars "example.com" ∷ [];
  answers = Dns.a (10, 0, 0, 2) ∷ Dns.unknown ∷ [];
}

instance abbrev dns_parser : Dns.DnsParser
dns_parser = record { parse = λ payload. some packet }

instance abbrev metro : Dns.MetroHash64
metro = record { finish = length }

abbrev event : Event
event = record { saddr = 1; daddr = 2; sport = 53; dport = 40000 }

handler-Carries_example :
    (ms : List (Measurement ℕ)) × (Dns.handler 4 event [] ≡ ok (some (list ms)))
    × (length ms ≡ 1 + length packet.questions + length (retain Dns.is_known packet.answers))
    × All (Carries 4 (Dns.hash_event event 4)) ms
handler-Carries_example = handler-Carries 4 event [] packet refl

-- two symbols, the second of a module
abbrev symbols : List Line
symbols =
    record {
      written = chars "ff01";
      address = 65281;
      kind = chars "T";
      name = chars "start";
      behind = none;
    }
    ∷ record {
      written = chars "FF02";
      address = 65282;
      kind = chars "t";
      name = chars "stop";
      behind = some (chars "[m]");
    }
    ∷ []

-- a line whose parts are seen to be in order
line :
    (l : Line)
    → Syscalls.from_hex l.written ≡ some l.address
    → lacks b' ' l.written ≡ true
    → lacks b' ' l.kind ≡ true
    → lacks b' ' l.name ≡ true
    → lacks b'\n' (text_of l) ≡ true
    → lacks b'\r' (text_of l) ≡ true
    → IsLine l
line l e a b c d f = (
  e,
  Lacks-lacks b' ' l.written a,
  Lacks-lacks b' ' l.kind b,
  Lacks-lacks b' ' l.name c,
  Lacks-lacks b'\n' (text_of l) d,
  Lacks-lacks b'\r' (text_of l) f,
)

parse_symbol_map-file_of_example :
    Syscalls.parse_symbol_map (file_of symbols)
    ≡ ok (from_pairs (map (λ (l : Line). (l.address, l.name)) symbols))
unfolding Syscalls.from_hex
parse_symbol_map-file_of_example = parse_symbol_map-file_of symbols (
  line
      (record {
        written = chars "ff01";
        address = 65281;
        kind = chars "T";
        name = chars "start";
        behind = none;
      })
      refl refl refl refl refl refl,
  (
    line
        (record {
          written = chars "FF02";
          address = 65282;
          kind = chars "t";
          name = chars "stop";
          behind = some (chars "[m]");
        })
        refl refl refl refl refl refl,
    tt,
  ),
)

abbrev maps : List (Text × Table)
maps = (chars "host_pid", nothing) ∷ []

abbrev call : Syscall.Context
call = record { ax = 65281; pid_tgid = 30064771080; comm = chars "sh" }

syscall_enter-loaded_example :
    Syscall.syscall_enter call (table.set 1 6 nothing)
    ≡ (if 6 == call.pid_tgid / 2 ^ 32 then [] else event_of call ∷ [])
unfolding Syscalls.loaded Syscalls.prepared Syscalls.parse_symbol_map
    ingraind.Grains.Files.find_map_by_name ingraind.Prelude.lines split try_map from_pairs text_beq
syscall_enter-loaded_example =
    syscall_enter-loaded table-HasRoom (λ path. some []) (λ m. some m) 6 none maps []
      (table.set 1 6 nothing) call refl

instance abbrev redbpf : Ebpf.Redbpf
redbpf = record {
  attach_probe = λ p. true;
  attach_probe_to_name = λ p name. true;
  attach_xdp = λ p iface flags. true;
  attach_tracepoint = λ p category name. true;
  attach_socketfilter = λ p iface. some (length p.name);
  get_online = some (0 ∷ 1 ∷ []);
  bind = λ m cpuid. true;
}

abbrev filters : Ebpf.Module
filters = record {
  programs =
      record { name = chars "a"; kind = Ebpf.socket_filter }
      ∷ record { name = chars "b"; kind = Ebpf.kprobe }
      ∷ record { name = chars "tls"; kind = Ebpf.socket_filter }
      ∷ [];
  maps = [];
}

-- a packet of a client that names one server
abbrev hello : TlsPacket
hello = record {
  is_handshake = true;
  decoded = some (
      Tls.client_hello (record {
        cipher_suites = chars "a" ∷ chars "b" ∷ [];
        client_version = chars "1.2";
        sni_extension = some (record { is_host_name = true; host_name = some (chars "h") } ∷ []);
      }));
  version = chars "1.2";
}

instance abbrev rustls : Rustls
rustls = record { read_bytes = λ buf. some hello }

-- a frame whose header of IP declares so many bytes, with the start of a handshake
abbrev frame : ℕ → List ℕ
frame declared =
    0 ∷ 0 ∷ 0 ∷ 0 ∷ 0 ∷ 0 ∷ 0 ∷ 0 ∷ 0 ∷ 0 ∷ 0 ∷ 0 ∷ 8 ∷ 0 ∷ 0x45 ∷ 0 ∷ 0 ∷ declared ∷ 0 ∷ 0 ∷ 0 ∷ 0
    ∷ 64 ∷ 6 ∷ 0 ∷ 0 ∷ 10 ∷ 0 ∷ 0 ∷ 1 ∷ 10 ∷ 0 ∷ 0 ∷ 2 ∷ 156 ∷ 64 ∷ 1 ∷ 187 ∷ 0 ∷ 0 ∷ 0 ∷ 0 ∷ 0 ∷ 0
    ∷ 0 ∷ 0 ∷ 0x50 ∷ 0 ∷ 0 ∷ 0 ∷ 0 ∷ 0 ∷ 0 ∷ 0 ∷ 22 ∷ 3 ∷ 1 ∷ []

tls_handshake-Returns_example : Returns (tls_to_message {F = ℕ} 3 (frame 43))
unfolding TlsFilter.tls_handshake TlsFilter.tls_content TlsFilter.tls_offset TlsFilter.load_u16
    TlsFilter.is_handshake
tls_handshake-Returns_example =
    tls_handshake-Returns ℕ 3 (frame 43) refl (omega arith) (λ buf. (inr (chars "h", refl), tt))

trimmed_frame_panics_example :
    read_messages (tls_to_message {F = ℕ} 3) (received (frame 20 ∷ frame 43 ∷ [])) ≡ err panic
unfolding TlsFilter.tls_handshake TlsFilter.tls_content TlsFilter.tls_offset TlsFilter.load_u16
    TlsFilter.is_handshake ingraind.Grains.Packet.packet_len
trimmed_frame_panics_example =
    trimmed_frame_panics ℕ 3 (frame 20) (frame 43 ∷ []) 0x45 34 refl refl refl (omega arith)
      (omega arith)
