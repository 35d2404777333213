-- ===== src/Constants.antt =====
-- constants.h and protconst.h: packet and protocol identifiers, buffer sizes, the limits on waiting
-- and retransmission, and the values that functions return.
use si_k_1projekt_tcp_udp.Common.{ℕ, Bool, true, false}

abbrev pub tcp_protocol : ℕ
tcp_protocol = 1

abbrev pub udp_protocol : ℕ
udp_protocol = 2

abbrev pub udpr_protocol : ℕ
udpr_protocol = 3

abbrev pub conn_id : ℕ
conn_id = 1

abbrev pub conacc_id : ℕ
conacc_id = 2

abbrev pub conrjt_id : ℕ
conrjt_id = 3

abbrev pub data_id : ℕ
data_id = 4

abbrev pub acc_id : ℕ
acc_id = 5

abbrev pub rjt_id : ℕ
rjt_id = 6

abbrev pub rcvd_id : ℕ
rcvd_id = 7

abbrev pub send_buff_size : ℕ
send_buff_size = 64000

abbrev pub receive_buffor_size : ℕ
receive_buffor_size = 64032

abbrev pub response_buff_size : ℕ
response_buff_size = 200

abbrev pub max_allowed_packet_size : ℕ
max_allowed_packet_size = 64000

abbrev pub max_wait : ℕ
max_wait = 8

abbrev pub max_retransmits : ℕ
max_retransmits = 8

-- The `#define`d return values, each a constructor: the code only compares them.
pub data Status : Type 0 where
  success error wrong_session_id wrong_package_type_id wrong_package_id : Status
  wrong_package_size timeout_error retransmission conrjt_error continue : Status

-- `status == SUCCESS`
abbrev pub is_success : Status → Bool
is_success Status.success = true
is_success _ = false
