-- ===== src/Connection/Transport.antt =====
-- From the sender's frame to the receiver's message: `onSendMessage` on one side, and on the other
-- `parseHeader`, the checksum of `parsePacket` and `onRecvMessage`.
use native.Mathlib.Nat.{mod-eq_of_lt}
use juggernaut_server.Base.{
  ℕ, ◌+◌, ◌-◌, ◌*◌, ◌/◌, ◌%◌, ◌^◌, ◌≤◌, ◌<◌, ◌≡◌, refl, ap, sym, ◌∙◌, true, false, List, ◌++◌, some,
  length, take, drop, length-append, Memory, slice, write, slice-write, slice_parts, le_bytes,
  le_value, le_value-le_bytes, u64, ltb, ◌==◌, arith, Bytes, bit_and, bit_or_fields, bit_and_mask,
  lt→ltb, le→ltb,
}
use juggernaut_server.Message.{
  set_length, NetworkMessage, max_size, max_protocol_body_length, get, length_header,
}
use juggernaut_server.Message.Reading.{get_at}
use juggernaut_server.Output.Headers.{pad_bytes, copy_in_inside, copy_out_inside}
use juggernaut_server.Checksum.Reference.{adler32, adler_checksum-eq-adler32, adler32-lt}
use juggernaut_server.Xtea.{Key, decrypt}
use juggernaut_server.Xtea.Steps.{whole_blocks, decrypt-whole_blocks}
use juggernaut_server.Xtea.RoundTrip.{
  length-whole_blocks, whole_blocks-Bytes, whole_blocks-whole_blocks,
}
use juggernaut_server.Protocol.{Protocol, xtea_decrypt, on_recv_message}
use juggernaut_server.Protocol.Frames.{plain, frame, length-plain, plain-Bytes, padding_for}
use juggernaut_server.Connection.Receive.{bad_size, begin_body, packet_checksum, check_packet}

-- What the socket does for a completed `async_read`: the bytes stand at the buffer's address.
abbrev pub read_into : NetworkMessage → ℕ → List ℕ → NetworkMessage
read_into m p bs = record m { buffer = write m.buffer p bs }

-- A message whose body is at the position of a protocol's reader.
pub record Delivers (m : NetworkMessage) (body : List ℕ) : Type 0 where
  pub at_body : m.position ≡ 8
  pub long : m.len ≡ length body
  pub bytes : slice m.buffer 8 (length body) ≡ body

two_bytes :
    (m : Memory) (n : ℕ) → slice m 0 2 ≡ le_bytes 2 n → (m 0 ≡ n % 256) × (m 1 ≡ n / 256 % 256)
two_bytes m n h = (ground arith, ground arith)

-- The header that was read is the number that was written.
length_header-le_bytes :
    (m : NetworkMessage) (n : ℕ)
    → n < 2 ^ 16
    → slice m.buffer 0 2 ≡ le_bytes 2 n
    → length_header m ≡ n
unfolding length_header
length_header-le_bytes m n h e =
    let bytes = two_bytes m.buffer n e in
    let shifted : n / 256 % 256 * 2 ^ 8 % 2 ^ 32 ≡ n / 256 * 2 ^ 8 = omega arith in
    rw (bytes.0, bytes.1, shifted, bit_or_fields 8 (n % 256) (n / 256) (omega arith)) (omega arith)

-- A packet with a checksum in front of the bytes that it is of passes, and is left at these bytes.
check_packet_passes :
    (m : NetworkMessage) (cipher : List ℕ)
    → m.position ≡ 2
    → m.len ≡ 6 + length cipher
    → 0 < length cipher
    → 6 + length cipher ≤ max_size
    → Bytes cipher
    → slice m.buffer 2 (length (le_bytes 4 (adler32 cipher) ++ cipher))
      ≡ le_bytes 4 (adler32 cipher) ++ cipher
    → check_packet m ≡ some (true, record m { position = 6 })
unfolding check_packet packet_checksum
check_packet_passes m cipher at_two long some_bytes fits ok h =
    let parts = slice_parts m.buffer 2 (le_bytes 4 (adler32 cipher)) cipher h in
    let more : ltb 6 (6 + length cipher) ≡ true = lt→ltb 6 (6 + length cipher) (omega arith) in
    let rest : 6 + length cipher - 6 ≡ length cipher = omega arith in
    let sum = adler_checksum-eq-adler32 cipher ok (omega arith) in
    let value : le_value (slice m.buffer 2 4) ≡ adler32 cipher =
      ap le_value parts.0 ∙ le_value-le_bytes 4 (adler32 cipher) (adler32-lt cipher) in
    let received : get 4 m ≡ some (adler32 cipher, record m { position = 6 }) =
      get_at 4 m (omega (arith, at_two, long)) (omega (arith, at_two)) ∙ rw (at_two, value) in
    let same : (adler32 cipher == adler32 cipher) ≡ true = ground arith in
    rw (
      received,
      at_two,
      long,
      more,
      rest,
      copy_out_inside m.buffer 6 (length cipher) fits,
      parts.1,
      sum,
      same,
    )

-- The body behind its length, read from the deciphered bytes.
inner_body :
    (m : NetworkMessage) (body : List ℕ)
    → m.position ≡ 6
    → m.len ≡ 6 + length (plain body)
    → length body ≤ max_protocol_body_length
    → let m' : NetworkMessage = read_into m 6 (plain body) in
      (get 2 m' ≡ some (length body, record m' { position = 8 }))
      × (slice m'.buffer 8 (length body) ≡ body)
unfolding plain
inner_body m body at_six long small =
    let padding = pad_bytes (padding_for (2 + length body)) in
    let b = write m.buffer 6 (plain body) in
    let outer =
      slice_parts b 6 (le_bytes 2 (length body)) (body ++ padding)
        (slice-write m.buffer 6 (plain body)) in
    let inner = slice_parts b 8 body padding outer.1 in
    let value : le_value (slice b 6 2) ≡ length body =
      ap le_value outer.0 ∙ le_value-le_bytes 2 (length body) (omega arith) in
    (
      get_at 2 (record m { buffer = b }) (omega (arith, at_six, long)) (omega (arith, at_six))
          ∙ rw (at_six, value),
      inner.0,
    )

deciphered :
    (k : ℕ) (key : Key) (body : List ℕ)
    → k ≤ 7
    → length (plain body) < 2 ^ 32
    → Bytes body
    → decrypt (2 ^ k) key (whole_blocks true key (plain body)) ≡ plain body
deciphered k key body hk small ok =
    decrypt-whole_blocks k key (whole_blocks true key (plain body)) hk
      (rw (length-whole_blocks true key (plain body)) small)
    ∙ whole_blocks-whole_blocks key (plain body) (plain-Bytes body ok)

-- Deciphering a message of whole blocks gives the body that was padded and enciphered.
xtea_decrypt-Delivers :
    (k : ℕ) (key : Key) (m : NetworkMessage) (body : List ℕ)
    → k ≤ 7
    → m.position ≡ 6
    → m.len ≡ 6 + length (plain body)
    → length body ≤ max_protocol_body_length
    → Bytes body
    → slice m.buffer 6 (length (plain body)) ≡ whole_blocks true key (plain body)
    → (m' : NetworkMessage) × (xtea_decrypt (2 ^ k) key m ≡ some (true, m')) × Delivers m' body
unfolding xtea_decrypt set_length
xtea_decrypt-Delivers k key m body hk at_six long small ok h =
    let n = length (plain body) in
    let sizes = length-plain body in
    let whole : bit_and (6 + n + 2 ^ 32 - 6) 7 ≡ 0 =
      bit_and_mask 3 (6 + n + 2 ^ 32 - 6) ∙ omega (arith, sizes) in
    let rest : u64 (6 + n + 2 ^ 64 - 6) ≡ n = omega (arith, sizes) in
    let room : ltb (6 + n) (length body + 8) ≡ false =
      le→ltb (6 + n) (length body + 8) (omega (arith, sizes)) in
    let inner = inner_body (record m { position = 6; len = 6 + n }) body refl refl small in
    let kept : length body % 2 ^ 16 ≡ length body = mod-eq_of_lt (omega arith) in
    (
      record m { position = 8; len = length body; buffer = write m.buffer 6 (plain body) },
      rw
          (
            at_six,
            long,
            whole,
            rest,
            copy_out_inside m.buffer 6 n (omega (arith, sizes)),
            h,
            deciphered k key body hk (omega (arith, sizes)) ok,
            copy_in_inside m.buffer 6 (plain body) (omega (arith, sizes)),
          )
          (rw (inner.0, room, kept)),
      record { at_body = refl; long = refl; bytes = inner.1 },
    )

-- The size that `parseHeader` reads from a frame, and the rest of the frame.
abbrev pub frame_rest : Key → List ℕ → List ℕ
frame_rest key body =
    le_bytes 4 (adler32 (whole_blocks true key (plain body))) ++ whole_blocks true key (plain body)

-- A receiver that has read a frame: the two bytes of the header first, then as many as it says.
pub receive : List ℕ → NetworkMessage → NetworkMessage
receive wire m =
    let m' = read_into m 0 (take 2 wire) in
    read_into (begin_body (length_header m') m') 2 (drop 2 wire)

good_size : (n : ℕ) → 0 < n → n < 24574 → bad_size n ≡ false
unfolding bad_size
good_size n h k = ground arith

received :
    (m : NetworkMessage) (n : ℕ) (rest : List ℕ) (len : ℕ)
    → length_header (read_into m 0 (le_bytes 2 n)) ≡ n
    → (n + 2) % 2 ^ 16 ≡ len
    → receive (le_bytes 2 n ++ rest) m ≡ record {
      len = len;
      position = 2;
      overrun = m.overrun;
      buffer = write (write m.buffer 0 (le_bytes 2 n)) 2 rest;
    }
unfolding receive begin_body
received m n rest len h e = rw (h, e)

-- A frame with a checksum, of a body of at most 24566 bytes that was enciphered with the
-- receiver's key, is taken in by a receiver with encryption on: its header passes the size test of
-- `parseHeader` and counts the rest of the frame, the checksum matches, and `onRecvMessage`
-- deciphers it and calls `parsePacket` with the body at the reader's position.
pub receive-frame :
    (k : ℕ) (p : Protocol) (m : NetworkMessage) (body : List ℕ)
    → k ≤ 7
    → p.encryption_enabled ≡ true
    → length body ≤ max_protocol_body_length
    → Bytes body
    → let wire = frame true p.key body in
      (bad_size (length_header (read_into m 0 (take 2 wire))) ≡ false)
      × (length_header (read_into m 0 (take 2 wire)) + 2 ≡ length wire)
      × (m₁ : NetworkMessage) × (m₂ : NetworkMessage) × (check_packet (receive wire m)
          ≡ some (true, m₁))
      × (on_recv_message (2 ^ k) p m₁ ≡ some (true, m₂))
      × Delivers m₂ body
unfolding frame receive begin_body bad_size on_recv_message
receive-frame k p m body hk on small ok =
    let cipher = whole_blocks true p.key (plain body) in
    let n = length (frame_rest p.key body) in
    let sizes = length-plain body in
    let kept = length-whole_blocks true p.key (plain body) in
    let both = length-append (le_bytes 4 (adler32 cipher)) cipher in
    let header : length_header (read_into m 0 (le_bytes 2 n)) ≡ n =
      length_header-le_bytes (read_into m 0 (le_bytes 2 n)) n (omega (arith, sizes, kept, both))
        (slice-write m.buffer 0 (le_bytes 2 n)) in
    let len_kept : (n + 2) % 2 ^ 16 ≡ 6 + length cipher =
      mod-eq_of_lt (omega (arith, sizes, kept, both)) ∙ omega (arith, both) in
    let b = write (write m.buffer 0 (le_bytes 2 n)) 2 (frame_rest p.key body) in
    let m₀ : NetworkMessage = record {
      len = 6 + length cipher;
      position = 2;
      overrun = m.overrun;
      buffer = b;
    } in
    let whole : slice b 2 n ≡ frame_rest p.key body =
      slice-write (write m.buffer 0 (le_bytes 2 n)) 2 (frame_rest p.key body) in
    let behind = slice_parts b 2 (le_bytes 4 (adler32 cipher)) cipher whole in
    let delivered =
      xtea_decrypt-Delivers k p.key (record m₀ { position = 6 }) body hk refl (omega (arith, kept))
        small ok (ap (slice b 6) (sym kept) ∙ behind.1) in
    (
      rw header (good_size n (omega arith) (omega (arith, sizes, kept, both))),
      rw header (omega (arith, both)),
      record m₀ { position = 6 },
      delivered.0,
      ap check_packet (received m n (frame_rest p.key body) (6 + length cipher) header len_kept)
          ∙ check_packet_passes m₀ cipher refl refl (omega (arith, sizes, kept))
              (omega (arith, sizes, kept))
              (whole_blocks-Bytes true p.key (plain body) (plain-Bytes body ok)) whole,
      rw on delivered.1,
      delivered.2,
    )
