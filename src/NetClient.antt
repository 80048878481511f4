-- ===== src/NetClient.antt =====
-- c_net_client.cpp: the client's connection. Its parts are `binary_to_hex`, the hand-over of the auth
-- data, the key file, and the three threads, a module for each.
pub mod Hex
pub mod Extends
pub mod Threads
pub mod Connect
pub mod Auth
pub mod KeyFile
pub mod Balanced
