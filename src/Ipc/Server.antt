-- ===== src/Ipc/Server.antt =====
-- One connection: `handle_connection` of crates/app-powerd-core/src/ipc/server.rs, and the client's
-- `send_request` of ipc/client.rs. JSON is a parameter.
use app_powerd.Prelude.{◌++◌, Option, none, some, codes, decimal}
use app_powerd.Ipc.{IpcRequest, IpcResponse, error, protocol_version}
use app_powerd.Ipc.Framing.{
  Bytes, Stream, StreamError, broken_pipe, message_too_large, no_json, ok, err, read_frame,
  write_message,
}

-- What the engine does with a request that is sent to it.
pub data Asked : Type 0 where
  gone : Asked
  no_reply : Asked
  replied : IpcResponse → Asked

-- The bytes that a connection sends back, or why it ends without.
pub data Connection : Type 0 where
  answered : Bytes → Connection
  failed : StreamError → Connection

abbrev pub mismatch : IpcResponse
mismatch = error (
    codes "protocol mismatch: this daemon speaks protocol v"
    ++ decimal protocol_version
    ++ codes " — the running daemon is probably an older build than the CLI; restart the daemon")

abbrev pub not_responding : IpcResponse
not_responding = error (codes "engine did not respond")

module _ (to_json : IpcResponse → Option Bytes) where
  -- `none` where the message cannot be serialized.
  unfoldable pub write_response : IpcResponse → Connection
  write_response response = elim (to_json response) [
    | none ↦ failed no_json
    | some json ↦ elim (write_message json) [
      | none ↦ failed message_too_large
      | some sent ↦ answered sent
    ]
  ]

  unfoldable pub reply : Asked → Connection
  unfolding write_response
  reply gone = failed broken_pipe
  reply no_reply = write_response not_responding
  reply (replied response) = write_response response

  module _ (from_json : Bytes → Option IpcRequest) (ask : IpcRequest → Asked) where
    unfoldable pub answer : Bytes → Connection
    unfolding reply write_response
    answer raw = elim (from_json raw) [
      | none ↦ write_response mismatch
      | some request ↦ reply (ask request)
    ]

    unfoldable pub handle_connection : Stream → Connection
    unfolding answer
    handle_connection s = elim (read_frame s) [ err e ↦ failed e | ok raw rest ↦ answer raw ]

-- The client: its request goes out, and the response comes in.
pub data Response : Type 0 where
  received : IpcResponse → Response
  lost : StreamError → Response

module _ (from_json : Bytes → Option IpcResponse) where
  unfoldable pub read_message : Stream → Response
  read_message s = elim (read_frame s) [
    | err e ↦ lost e
    | ok raw rest ↦ elim (from_json raw) [ none ↦ lost no_json | some response ↦ received response ]
  ]

  -- `serve` is what comes back for the bytes sent.
  unfoldable pub send_request :
      (IpcRequest → Option Bytes) → IpcRequest → (Bytes → Stream) → Response
  unfolding read_message
  send_request to_json request serve = elim (to_json request) [
    | none ↦ lost no_json
    | some json ↦ elim (write_message json) [
      | none ↦ lost message_too_large
      | some sent ↦ read_message (serve sent)
    ]
  ]
