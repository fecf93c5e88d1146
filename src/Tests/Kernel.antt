-- ===== src/Tests/Kernel.antt =====
-- The theorems of the programs in the kernel and of their grains at concrete inputs.
use ingraind.Prelude.{
  ℕ, ◌≡◌, refl, Text, chars, Option, none, some, List, [], ◌∷◌, take, retain, join, replicate, ok,
  err, if◌then◌else◌, ◌==◌, nat_equality, text_equality, text_beq, try_map, ◌+◌,
}
use ingraind.Metrics
use ingraind.Metrics.{Measurement}
use ingraind.Metrics.Kind
use ingraind.Metrics.TagList
use ingraind.Grains.Files.{path_of, watch_all}
use ingraind.Grains.Files.Paths.{ended, path_of-filled}
use ingraind.Grains.Files.Watched.{any_watched, dentry_to_path-watch_all}
use ingraind.Grains.Network.{Protocols, ShowV6}
use ingraind.Grains.Network.Sockets.{Ends, socket_of}
use ingraind.Probes.File as File
use ingraind.Probes.File.{dentry_to_path, no_segment, path_list_len, record_it}
use ingraind.Probes.File.Lineage.{
  Node, Lineage, filled, nearest, with_list, root, below, dentry_to_path_lem,
}
use ingraind.Probes.Network as Net
use ingraind.Probes.Network.{
  Bindings, Hook, connection, send_enter, send_exit, connect_enter, udp_send_enter,
}
use ingraind.Probes.Network.Calls as Calls
use ingraind.Probes.Network.Calls.{
  Call, sends, udp_sends, all_hooks, all_reported, outputs_of-all_reported,
}
use ingraind.Probes.Network.Threads.{thread_run, outputs_of, outputs_of-thread_run}
use ingraind.Tests.Samples.{
  whole_float, ascii, Lacks-lacks, Table, table, table-HasRoom, nothing, bytewise,
}

instance abbrev bindings : Bindings
bindings = record { af_inet = 2; af_inet6 = 10; protocol = λ bits. bits }

instance abbrev protocols : Protocols
protocols = record { ipproto_tcp = 6; ipproto_udp = 17 }

instance abbrev v6 : ShowV6
v6 = record { show_v6 = λ addr. chars "::1" }

abbrev ends : Ends
ends = record {
  source = (10, 0, 0, 1);
  destination = (10, 0, 0, 2);
  source_port = 40000;
  destination_port = 443;
}

-- a hook in a thread, where every pointer points to the same socket
abbrev at_hook : ℕ → Net.Context
at_hook thread = record {
  parm1 = 77;
  parm3 = 1500;
  pid_tgid = thread;
  ktime = 5;
  comm = chars "curl";
  memory = λ _. socket_of 6 ends;
}

-- two threads whose hooks alternate
abbrev hooks : List (Hook × Net.Context)
hooks =
    (send_enter, at_hook 1)
    ∷ (connect_enter, at_hook 2)
    ∷ (send_exit, at_hook 1)
    ∷ (udp_send_enter, at_hook 1)
    ∷ []

outputs_of-thread_run_example :
    outputs_of 1 hooks nothing
    ≡ thread_run (retain (λ e. e.1.pid_tgid == 1) hooks) (table.get 1 nothing)
outputs_of-thread_run_example = outputs_of-thread_run table-HasRoom 1 hooks nothing

abbrev calls : List Call
calls = sends (at_hook 1) (at_hook 1) ∷ udp_sends (at_hook 1) ∷ []

outputs_of-all_reported_example : outputs_of 1 hooks nothing ≡ all_reported calls
unfolding Net.connection Net.addresses Calls.hooks all_hooks Calls.Readable
outputs_of-all_reported_example =
    outputs_of-all_reported table-HasRoom 1 hooks nothing calls refl refl (tt, (tt, tt))

-- three dentries, each with its inode's number and its name: /etc/passwd
abbrev name_of : ℕ → List ℕ
name_of dentry =
    if dentry == 1 then chars "passwd" else if dentry == 2 then chars "etc" else chars "/"

abbrev memory : File.Memory
memory = record {
  dentry = λ d. record {
    d_inode = some d;
    d_name = some d;
    d_parent = some (if d == 3 then 3 else d + 1);
  };
  inode = λ i. record { i_ino = some (i + 100); i_mode = some 0o100644 };
  file = λ f. record { f_path = some f; f_inode = some f };
  read_str = λ size pointer. some (ended (name_of pointer));
}

abbrev node : ℕ → Node
node d = record { ino = d + 100; name = ended (name_of d) }

abbrev nodes : List Node
nodes = node 1 ∷ node 2 ∷ node 3 ∷ []

lineage : Lineage memory 1 nodes
lineage =
    below (1, 1, refl, refl, refl, refl, refl) refl
      (below (2, 2, refl, refl, refl, refl, refl) refl (root (3, 3, refl, refl, refl, refl, refl)))

abbrev blank_paths : File.PathList
blank_paths = replicate path_list_len no_segment

-- the inode 102 is marked
abbrev marked : Table
marked = table.set 102 1 nothing

dentry_to_path_lem_example :
    dentry_to_path 1 memory marked blank_paths
    ≡ with_list (filled 0 (take 8 nodes) blank_paths) (nearest marked (take 8 nodes))
dentry_to_path_lem_example = dentry_to_path_lem 1 memory marked blank_paths nodes refl lineage

abbrev metadata : Text → Option ℕ
metadata dir = if dir == chars "/etc" then some 102 else none

dentry_to_path-watch_all_example : dentry_to_path 1 memory marked blank_paths ≡ (
    if any_watched (102 ∷ []) (take 8 nodes)
    then ok (record_it, filled 0 (take 8 nodes) blank_paths)
    else err tt)
unfolding watch_all try_map text_beq
dentry_to_path-watch_all_example =
    dentry_to_path-watch_all table-HasRoom metadata (chars "/etc" ∷ []) (102 ∷ []) nothing marked 1
      memory blank_paths nodes (λ i. refl) refl refl refl lineage

path_of-filled_example :
    path_of (filled 0 nodes blank_paths) ≡ join (chars "/") (chars "etc" ∷ chars "passwd" ∷ [])
path_of-filled_example =
    path_of-filled nodes (chars "etc" ∷ chars "passwd" ∷ []) 8 (refl, refl)
      (
        ((Lacks-lacks 0 (chars "etc") refl), refl),
        (((Lacks-lacks 0 (chars "passwd") refl), refl), tt),
      )
      refl refl
