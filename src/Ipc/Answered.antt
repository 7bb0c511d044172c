-- ===== src/Ipc/Answered.antt =====
-- A request that arrives is answered.
use mathlib.Core.List.{append-nil}
use app_powerd.Prelude.{◌≡◌, ◌∙◌, ◌≤◌, refl, subst, [], ◌++◌, Option, none, some, length}
use app_powerd.Ipc.{IpcRequest, IpcResponse}
use app_powerd.Ipc.Framing.{
  Bytes, Stream, Ending, closed, silent, read_frame, write_message, to_be_bytes,
  write_message-small, read_frame-write_message, ok,
}
use app_powerd.Ipc.Server.{
  Asked, replied, Connection, answered, failed, write_response, reply, answer, handle_connection,
  mismatch, received, Response, send_request, read_message,
}

-- The stream on which the client reads: what the connection sends, and then its end.
abbrev pub back : Connection → Stream
back (answered sent) = record { bytes = sent; ending = closed }
back (failed e) = record { bytes = []; ending = closed }

-- The client's bytes; it keeps the stream open while it waits.
abbrev pub forth : Bytes → Stream
forth sent = record { bytes = sent; ending = silent }

-- One message, alone on its stream.
abbrev Framed : Bytes → Type 0
Framed json =
    (e : Ending)
    → (sent : Bytes) × ((write_message json ≡ some sent)
        × (read_frame (record { bytes = sent; ending = e })
            ≡ ok json (record { bytes = []; ending = e })))

framed : (json : Bytes) → length json ≤ 65536 → Framed json
framed json h e =
    let sent = to_be_bytes (length json) ++ json in
    (
      sent,
      (
        write_message-small json h,
        subst
            (λ b.
              read_frame (record { bytes = b; ending = e })
              ≡ ok json (record { bytes = []; ending = e }))
            (append-nil sent)
            (read_frame-write_message json [] sent e h (write_message-small json h)),
      ),
    )

module _ (to_request : IpcRequest → Option Bytes) (from_request : Bytes → Option IpcRequest)
    (to_response : IpcResponse → Option Bytes) (from_response : Bytes → Option IpcResponse)
    (ask : IpcRequest → Asked) where
  abbrev pub exchange : IpcRequest → Response
  exchange request =
      send_request from_response to_request request
        (λ sent. back (handle_connection to_response from_request ask (forth sent)))

  exchange-answer :
      (request : IpcRequest) (response : IpcResponse) (raw json : Bytes)
      → to_request request ≡ some raw
      → length raw ≤ 65536
      → answer to_response from_request ask raw ≡ write_response to_response response
      → to_response response ≡ some json
      → length json ≤ 65536
      → from_response json ≡ some response
      → exchange request ≡ received response
  unfolding send_request handle_connection read_message write_response
  exchange-answer request response raw json asked small answers told fits reads =
      let there = framed raw small silent in
      let again = framed json fits closed in
      let written : write_response to_response response ≡ answered again.0 =
        rw (told, again.1.0, write_response) refl in
      let served : handle_connection to_response from_request ask (forth there.0)
          ≡ answered again.0 =
        rw (there.1.1, handle_connection) (answers ∙ written) in
      let heard : read_message from_response (back (answered again.0)) ≡ received response =
        rw (again.1.1, reads, read_message) refl in
      rw (asked, there.1.0, served, send_request) heard

  -- A request that the engine answers brings the client that answer, over the whole way: when the
  -- JSON library reads back both messages as they were written and neither is longer than 64 KiB.
  pub exchange-replied :
      (request : IpcRequest) (response : IpcResponse) (raw json : Bytes)
      → to_request request ≡ some raw
      → length raw ≤ 65536
      → from_request raw ≡ some request
      → ask request ≡ replied response
      → to_response response ≡ some json
      → length json ≤ 65536
      → from_response json ≡ some response
      → exchange request ≡ received response
  unfolding answer reply
  exchange-replied request response raw json asked small known got told fits reads =
      exchange-answer request response raw json asked small (rw (known, got, answer, reply) refl)
        told fits reads

  -- A request that the daemon cannot read is answered too, with the advice to restart an older
  -- daemon, on the same conditions on that answer.
  pub exchange-mismatch :
      (request : IpcRequest) (raw json : Bytes)
      → to_request request ≡ some raw
      → length raw ≤ 65536
      → from_request raw ≡ none
      → to_response mismatch ≡ some json
      → length json ≤ 65536
      → from_response json ≡ some mismatch
      → exchange request ≡ received mismatch
  unfolding answer
  exchange-mismatch request raw json asked small foreign told fits reads =
      exchange-answer request mismatch raw json asked small (rw (foreign, answer) refl) told fits
        reads
