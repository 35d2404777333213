-- ===== src/Exchange/UdprTransfer.antt =====
-- The UDPR client and the UDPR server together, over a network that loses, repeats and reorders.
use si_k_1projekt_tcp_udp.Common.{List}
use si_k_1projekt_tcp_udp.MyVec.{MyVec}
