-- ===== src/Lib.antt =====
-- The Python tools of the repository that build, parse and predict network traffic for the board.
--
-- The parts and where they stand:
--   * Base and its children: Python's exceptions as a result type, byte strings, `struct` packing,
--     dotted addresses (records of four numbers), bit operations as arithmetic.
--   * Eth: hw_test/eth_frames.py, Ethernet and ARP frames: build_eth_header, build_eth_frame,
--     parse_eth_header, build_arp_request, build_arp_reply, parse_arp, and the boundary frames.
--   * Checksum: ip_checksum of hw_test/ip_frames.py. The carry loop recurses on the accumulator's
--     accessibility under <, so it needs no fuel.
--   * Ip, Icmp, Udp: the headers of hw_test/ip_frames.py and their parsers. Ip/Outcome has the errors of
--     build_ipv4_header in the order in which they are raised.
--   * Frames: the frame builders of hw_test/ip_frames.py, over the parts above.
--   * Frag: build_fragment_frames and reassemble_fragments_python of hw_test/ip_frames.py. The loop has
--     one round of fuel for each byte of the payload and one to stop, since a round takes a byte.
--   * IntelHex: scripts/intel_hex.py. The record loop has fuel in the same way.
--   * Reasm: scripts/reasm_oracle.py, the bitmap helpers, the oracle of the reassembly
--     vectors, their frames and their binary entries. An assert of the code is a guard with
--     assertion_error, here and in the TCP entries.
--   * Tcp: scripts/tcp_oracle.py, the table of the TCP state machine, the oracle of the TCP vectors, the
--     little-endian checksum, and the filter on combinations, and the frames and binary entries. The parameters are
--     data types, so a proof may try all combinations (Tcp/Every). Tcp/Answers has the rules for the replies.
--   * Http: scripts/http_fsa_oracle.py, the transition table of the HTTP request automaton, its encoding
--     and output lines. Http/Run runs the table over a text of character classes, and Http/Request is the
--     grammar of the texts that it accepts.
--   * TcpHelpers: hw_test/tcp_helpers.py, segments, options, frames, the readers of received frames, and
--     RawTCPSession as a record of its fields with a function per method. wait_for_frame of
--     hw_test/wire.py looks at the list of frames that the capture shows before the deadline, which is
--     an argument. The padding loop of syn_options has three rounds of fuel, which are enough.
--   * NetConf: scripts/lint_network_conf.py, the validators, the lines and lint. A text is a list of code
--     points (Base/Texts has the string methods); which characters above 127 are decimal digits is an
--     argument.
--   * Appliance: scripts/mk_appliance.py, the slab of routes, the marker's search and the written image
--     (package is package_image here), and in Appliance/Routes the choice of the files. The sizes that main
--     may override are the record Layout. Appliance/Served reads the slab as the kernel does, through the
--     table. The decimal digits of a body's length have as much fuel as the length, which is enough.
--   * IcmpHelpers: hw_test/icmp_helpers.py, the predicates on captured frames, parse_reply and
--     send_echo_and_wait. A route stands for the two addresses of each side.
--   * Checks: the theorems at concrete inputs, and tests.
--
-- The correspondence: a Python function keeps its name and argument order; keyword arguments with
-- many fields are a record (HeaderArgs, Bogus, Shared). A raised exception is `err` of its class, without the
-- message. A loop is a recursion over what it iterates on. A function is split where the code has a
-- step of its own (check_fields, pack_header, splice_checksum are the parts of build_ipv4_header).
-- An integer argument is a natural number, so the guards against negative values hold by themselves.
--
-- Not modelled: files, sockets, serial ports and the command lines, error messages, Python's limit on
-- the digits of an integer's text, the tests, and the assembly of the firmware.
pub mod Base
pub mod Eth
pub mod Checksum
pub mod Ip
pub mod Icmp
pub mod Udp
pub mod Frames
pub mod Frag
pub mod IntelHex
pub mod Reasm
pub mod Tcp
pub mod Http
pub mod TcpHelpers
pub mod NetConf
pub mod Appliance
pub mod IcmpHelpers
mod Checks
