-- ===== src/UdpServer.antt =====
-- server_UDP_lib.c.
pub mod Receive
pub mod Reading
pub mod Replies
pub mod Checks
pub mod Accept
pub mod AcceptConn
pub mod Session
pub mod UdpRounds
pub mod UdpTransfer
pub mod UdpDelivery
pub mod UdprSteps
pub mod UdprRounds
pub mod UdprTranscript
pub mod UdprTransfer
pub mod Ending
pub mod Handler
pub mod Serving
pub mod Turns
pub mod Opening
pub mod Answering
