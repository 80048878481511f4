-- ===== src/ServerApi.antt =====
-- c_server_api.h and c_server_api.cpp: the commands that go to the server and the responses that
-- come back, a module for each part.
pub mod Json
pub mod Local
pub mod Response
pub mod Fields
pub mod Up
pub mod Requests
pub mod Parse
pub mod Chat
