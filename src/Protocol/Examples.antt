-- ===== src/Protocol/Examples.antt =====
-- The theorems about frames at concrete inputs.
use juggernaut_server.Base.{◌^◌, ◌≡◌, refl, true, false, [], ◌∷◌, none, some, arith}
use juggernaut_server.Xtea.{Key}
use juggernaut_server.Output.{OutputMessage}
use juggernaut_server.Output.Headers.{output_bytes}
use juggernaut_server.Protocol.{Protocol, on_send_message}
use juggernaut_server.Protocol.Frames.{frame, on_send_message-frame}

abbrev session_key : Key
session_key = record { k0 = 1; k1 = 2; k2 = 3; k3 = 0xffffffff }

abbrev session : Protocol
session = record {
  key = session_key;
  encryption_enabled = true;
  checksum_enabled = true;
  raw_messages = false;
  output_buffer = none;
}

abbrev small : OutputMessage
small = record {
  message = record { len = 3; position = 11; overrun = false; buffer = λ i. 0x41 };
  start = 8;
}

on_send_message-frame_example :
    (o : OutputMessage) × (on_send_message (2 ^ 1) session small ≡ some o)
    × (output_bytes o ≡ frame true session_key (0x41 ∷ 0x41 ∷ 0x41 ∷ []))
on_send_message-frame_example =
    on_send_message-frame 1 session small (omega arith) refl refl
      (record { at_start = refl; writing = refl; fits = omega arith; bytes = omega arith })
