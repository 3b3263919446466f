-- ===== src/Lib.antt =====
-- The configuration side of the AmneziaWG tools, which the application builds for Android: the files
-- of android/tunnel/tools/amneziawg-tools/src. A subcommand reads a file or its arguments into a
-- device, and hands that to the kernel or to the daemon in user space.
--
-- Ctype: ctype.h, the character tests.
-- Encoding: encoding.c, keys as base64 and hexadecimal text. An int is its 32-bit pattern, and a
--   sum, a difference or a shift wraps around (Prelude/Words).
-- Containers: containers.h, a field for a field. A linked list is the list of its nodes, a null
--   pointer `none`; flags are bits of a word (PeerFlag, DeviceFlag). Valid says what a device
--   satisfies that the program has built.
-- Libc: what config.c and ipc-uapi.h use of the C library, on lists of bytes without their NUL.
-- Config: config.c. Values, Endpoint and Address have the parsers of single values, Line
--   process_line, Clean clean_special_handshake_line, Read config_read_init, config_read_line and
--   config_read_finish, Cmd config_read_cmd.
-- Setconf: setconf.c. The parent has sync_conf, Main setconf_main and set_main of set.c.
-- Uapi: ipc-uapi.h. Set has userspace_set_device, Steps, Entries and Get userspace_get_device, Wire
--   what they share, Print the formats of fprintf.
-- Terminal: terminal.c. Keys: genkey.c, pubkey.c and the clamping of curve25519.h. Wg: wg.c.
-- Ipc: ipc.c and ipc-uapi-unix.h, the list of the interfaces as one buffer of names, and the choice
--   between the kernel and the daemon. Buffer and Names have its bounds and what is read from it.
-- Kernel: ipc-linux.h. The parent has the attributes and the library's puts, Device and Peer the
--   attributes of a device and of a peer, Set kernel_set_device and its loop over messages, Received
--   and Get the callbacks and kernel_get_device, Coalesce coalesce_peers.
-- Show: show.c. Format has times, sizes and addresses, Sort the order of the peers, Pretty, Dump and
--   Ugly the printers, Main show_main. Showconf: showconf.c; its child modules
--   Lines, Settings, Readings, Reached and RoundTrip follow its lines through config_read_line.
-- WgQuick: wg-quick/android.c. The parent has the loop of parse_options, Script how commands are run
--   and how the program exits, Interface, Users, Net, Dns and Binder the steps of `up` and `down`,
--   Main these two and the main function; Steps, Interface.Steps, Interface.Removal and Cleanup
--   are about a run. Sections and Settings describe a configuration file and its settings.
-- Prelude: words, bits, lists, texts and the results of calls. Tests: concrete inputs.
--
-- A parser answers `ok` with what it has built, `fail` where the source returns false and its
-- caller frees all, `exit` where it calls exit(1), and `fault` where it would use a null pointer
-- or write behind a buffer (Prelude/Results). config_ctx has no last_peer: it is the last node of
-- the device's list, and null while that is empty.
--
-- Loops are recursion on the data. The loop around getaddrinfo has two forms: with a number of
-- retries it is recursion on that number; with the retries `infinity` it takes fuel, the number
-- of answers that it may see, and is `hang` when that is used up. A fuel larger than the index of
-- the first final answer is enough. kernel_set_device takes fuel, the number of its messages: two
-- more than there are peers and addresses are enough. The loop of show.c over the names takes as
-- many turns as the buffer has bytes.
--
-- wg-quick is a script: a function of the state in which it starts, which keeps the list of all that
-- it asked for. A command, its output or its status may depend on that list. The output of a command
-- is settled when the command starts, also where the program runs others while it reads. The loop
-- that draws the number of a network takes fuel, the number of draws; one more than the index of
-- the first usable draw is enough. An exit within the clean-up at the exit takes the place of the
-- first.
--
-- Parameters: Config.Host (getaddrinfo, inet_pton, the environment, key files), Setconf.Main.Ipc
-- (the files, ipc_get_device and ipc_set_device) and Uapi.Wire.Daemon (the socket, name
-- resolution, curve25519), Kernel.Netlink and Kernel.Received.Payload (the sizes, tests and
-- decoders of the netlink library, a copy of libmnl in netlink.h, and the answers of the kernel),
-- Keys.Random, Ipc.Sockets, Show.Format.Surroundings and Show.Main.Devices (name functions, the
-- environment, the time, the formatting of doubles, qsort), and WgQuick.Script.World (commands,
-- files, regular expressions, random, qsort, the binder, the bytes behind a text). IsHost is what the manuals say: a
-- port has 16 bits, an address 4 or 16 bytes.
--
-- Not modelled: allocation, which is taken to succeed; messages and warnings; the release of
-- memory; the reading of the list of interfaces from netlink, but for what it adds to the list;
-- the interfaces to other kernels; netlink.h and curve25519, which are copies of libraries; and
-- contrib; and the application, which is written in other languages.
-- The retries `infinity` are -1 in the source, `none` here.
pub mod Prelude
pub mod Ctype
pub mod Encoding
pub mod Libc
pub mod Containers
pub mod Config
pub mod Setconf
pub mod Uapi
pub mod Terminal
pub mod Keys
pub mod Ipc
pub mod Kernel
pub mod Show
pub mod Showconf
pub mod Wg
pub mod WgQuick
pub mod Tests
