-- ===== src/Tests/Exchange.antt =====
-- Theorems on requests, messages and what the command line prints.
use app_powerd.Prelude.{
  ℕ, ◌≡◌, ◌≤◌, refl, List, [], ◌∷◌, ◌++◌, true, all, Option, none, some, codes, text_eq, text_key,
  length, take, replicate, get, retain, parse_unsigned, decimal, In, zero, suc, if◌then◌else◌,
  arith,
}
use app_powerd.Host.{ProcessHandle}
use app_powerd.Host.Log.{Extends}
use app_powerd.System.Freeze.Signals.{Guarded}
use app_powerd.System.Protection.{verdict}
use app_powerd.State.Machine.{background}
use app_powerd.State.Journal.{recorded}
use app_powerd.Guards.Sensing.{
  PwNode, number, text, check_audio_activity, some_stream, is_playback, is_capture,
  check_audio_activity-some_stream,
}
use app_powerd.Ipc.{IpcRequest, IpcResponse, app}
use app_powerd.Ipc.Framing.{
  Bytes, closed, silent, Received, Reads, read_frame, write_message, to_be_bytes, message_too_large,
  read_frame-write_message, read_frame-too_large, write_message-fits, read_frame-bounded,
}
use app_powerd.Ipc.Server.{Asked, replied, mismatch, received}
use app_powerd.Ipc.Answered.{exchange, exchange-replied, exchange-mismatch}
use app_powerd.System.Process.{is_alive, read_starttime, parse_starttime, is_owned_pid}
use app_powerd.Desktop.Identity.{new}
use app_powerd.Engine.{recorded_procs_for}
use app_powerd.Engine.Commands.{Words, resolve_target, ipc_freeze, journal_key_for, own_pids}
use app_powerd.Engine.CrashSafety.{OnDisk}
use app_powerd.Engine.ManualFreeze.{let_through, freeze_armed_journal, ipc_freeze-Guarded}
use app_powerd.Cli.Display.{truncate, sanitize_for_display}
use app_powerd.Cli.Sanitized.{is_printable, truncate-sanitize}
use app_powerd.Tests.Data.{torn, no_files, host, process, journal_path, empty_journal, engine_in}

abbrev words : Words
words = record { journal_error = λ e. codes "io"; config_error = λ e. codes "io" }

ipc_freeze-Guarded_example :
    let e = engine_in background empty_journal in
    let target = app (codes "Mousepad") in
    let through = let_through torn no_files host words target (process ∷ []) e [] in
    let j = freeze_armed_journal torn no_files host words target (process ∷ []) e [] in
    Extends
      (Guarded host (OnDisk torn no_files host journal_path j) through)
      []
      (ipc_freeze host words target e []).1
    × ((h : ProcessHandle)
        → In h through
        → In h (recorded (journal_key_for target) j.entries)
          × (verdict host [] e.protection (own_pids host (process ∷ [])) h ≡ none))
unfolding host resolve_target recorded_procs_for get new retain is_alive read_starttime
    parse_starttime parse_unsigned is_owned_pid
ipc_freeze-Guarded_example =
    ipc_freeze-Guarded torn no_files host words (app (codes "Mousepad")) (process ∷ [])
      (engine_in background empty_journal) [] refl refl refl

abbrev request_text : Bytes
request_text = codes "{\"type\":\"Shutdown\"}"

abbrev to_request : IpcRequest → Option Bytes
to_request IpcRequest.shutdown = some request_text
to_request other = some (codes "{}")

abbrev from_request : Bytes → Option IpcRequest
from_request bytes = if text_eq bytes request_text then some IpcRequest.shutdown else none

abbrev to_response : IpcResponse → Option Bytes
to_response (IpcResponse.ok message) = some (b'+' ∷ message)
to_response (IpcResponse.error message) = some (b'-' ∷ message)
to_response other = none

abbrev from_response : Bytes → Option IpcResponse
from_response [] = none
from_response (c ∷ message) =
    if text_eq (c ∷ []) (codes "+")
    then some (IpcResponse.ok message)
    else some (IpcResponse.error message)

abbrev ask : IpcRequest → Asked
ask request = replied (IpcResponse.ok (codes "shutdown scheduled"))

exchange-replied_example :
    exchange to_request from_request to_response from_response ask IpcRequest.shutdown
    ≡ received (IpcResponse.ok (codes "shutdown scheduled"))
exchange-replied_example =
    exchange-replied to_request from_request to_response from_response ask IpcRequest.shutdown
      (IpcResponse.ok (codes "shutdown scheduled")) request_text (codes "+shutdown scheduled") refl
      (omega arith) refl refl refl (omega arith) refl

exchange-mismatch_example :
    exchange to_request from_request to_response from_response ask IpcRequest.list
    ≡ received mismatch
unfolding decimal
exchange-mismatch_example =
    exchange-mismatch to_request from_request to_response from_response ask IpcRequest.list
      (codes "{}")
      (codes
        "-protocol mismatch: this daemon speaks protocol v2 — the running daemon is probably an older build than the CLI; restart the daemon")
      refl (omega arith) refl refl (omega arith) refl

read_frame-write_message_example :
    read_frame (record { bytes = (to_be_bytes 2 ++ codes "{}") ++ codes "x"; ending = silent })
    ≡ Received.ok (codes "{}") (record { bytes = codes "x"; ending = silent })
unfolding write_message
read_frame-write_message_example =
    read_frame-write_message (codes "{}") (codes "x") (to_be_bytes 2 ++ codes "{}") silent
      (omega arith) refl

length-replicate : (n x : ℕ) → length (replicate n x) ≡ n
length-replicate zero x = refl
length-replicate (suc n) x = omega (arith, length-replicate n x)

-- Seventy thousand characters.
unfoldable big : Bytes
big = replicate 70000 b'x'

length-big : length big ≡ 70000
unfolding big
length-big = length-replicate 70000 b'x'

read_frame-too_large_example :
    read_frame (record { bytes = take 4 (to_be_bytes (length big) ++ big) ++ []; ending = closed })
    ≡ Received.err message_too_large
read_frame-too_large_example =
    read_frame-too_large big [] (to_be_bytes (length big) ++ big) closed (omega (arith, length-big))
      (write_message-fits big (ground (arith, length-big)))

read_frame-bounded_example :
    Reads (λ got. length got ≤ 65536) (read_frame (record { bytes = 0 ∷ 1 ∷ []; ending = closed }))
read_frame-bounded_example = read_frame-bounded (record { bytes = 0 ∷ 1 ∷ []; ending = closed })

-- A playing stream of process 7, and a microphone of process 8.
abbrev nodes : List PwNode
nodes =
    record { info = none }
    ∷ record {
      info = some (record {
        media_class = some (codes "Stream/Output/Audio");
        app_pid = some (text (codes "7"));
      });
    }
    ∷ record {
      info =
          some
            (record { media_class = some (codes "Stream/Input/Audio"); app_pid = some (number 8) });
    }
    ∷ []

check_audio_activity-some_stream_example :
    ((check_audio_activity (some nodes) (7 ∷ [])).playing ≡ some_stream is_playback (7 ∷ []) nodes)
    × ((check_audio_activity (some nodes) (7 ∷ [])).mic_active
        ≡ some_stream is_capture (7 ∷ []) nodes)
check_audio_activity-some_stream_example = check_audio_activity-some_stream (7 ∷ []) nodes

truncate-sanitize_example :
    (length (truncate (sanitize_for_display (27 ∷ codes "[2Kevil")) 5) ≤ 5)
    × ((all is_printable (truncate (sanitize_for_display (27 ∷ codes "[2Kevil")) 5) ≡ true)
        × (length (27 ∷ codes "[2Kevil") ≤ 5
            → length (truncate (sanitize_for_display (27 ∷ codes "[2Kevil")) 5)
              ≡ length (27 ∷ codes "[2Kevil")))
truncate-sanitize_example = truncate-sanitize (27 ∷ codes "[2Kevil") 5 (omega arith)
