-- ===== src/Wire.antt =====
-- packages/wire: the protocol between the consoles and the hub. `Frames` has the frames and their lines
-- (envelope.ts, hello.ts, transport.ts), `Server` the server's core (server-core.ts) and `Client` the
-- console's connection (client.ts).
pub mod Frames
pub mod Server
pub mod Client
mod Tests
