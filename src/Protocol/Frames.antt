-- ===== src/Protocol/Frames.antt =====
-- What `onSendMessage` puts on the wire, against a description of the frame by lists of bytes.
use juggernaut_server.Base.{
  ℕ, zero, suc, ◌+◌, ◌-◌, ◌%◌, ◌^◌, ◌≤◌, ◌≡◌, refl, sym, ◌∙◌, inl, inr, Bool, true, false, List,
  ◌++◌, some, length, length-append, length-replicate, slice, write, le_bytes, le_bytes-Bytes, ◌==◌,
  if◌then◌else◌, arith, Bytes, IsByte, All-append, length-slice, Bool-cases, append-nil,
}
use juggernaut_server.Message.{
  NetworkMessage, max_protocol_body_length, copy_in, copy_out, add_padding_bytes,
}
use juggernaut_server.Output.{
  OutputMessage, write_message_length, add_checksum_header, add_crypto_header,
}
use juggernaut_server.Output.Headers.{
  Has, output_bytes, output_bytes-Has, copy_in_inside, copy_out_inside, add_header-Has, padding-Has,
  pad_bytes, replace-Has,
}
use juggernaut_server.Checksum.Reference.{adler32, adler_checksum-eq-adler32}
use juggernaut_server.Xtea.{Key, encrypt}
use juggernaut_server.Xtea.Steps.{whole_blocks, encrypt-whole_blocks}
use juggernaut_server.Xtea.RoundTrip.{length-whole_blocks, whole_blocks-Bytes}
use juggernaut_server.Protocol.{Protocol, xtea_encrypt, encipher, on_send_message}

-- The padding that makes `n` bytes a multiple of eight.
abbrev pub padding_for : ℕ → ℕ
padding_for n = (8 - n % 8) % 8

-- The body behind its length, padded.
unfoldable pub plain : List ℕ → List ℕ
plain body = le_bytes 2 (length body) ++ (body ++ pad_bytes (padding_for (2 + length body)))

-- The frame: the length of the rest, the checksum of the enciphered bytes if wanted, and these.
unfoldable pub frame : Bool → Key → List ℕ → List ℕ
frame checksum key body =
    let cipher = whole_blocks true key (plain body) in
    let rest = if checksum then le_bytes 4 (adler32 cipher) ++ cipher else cipher in
    le_bytes 2 (length rest) ++ rest

-- A message ready to be sent: it was written from the start of the body, by bytes.
pub record IsReady (o : OutputMessage) : Type 0 where
  pub at_start : o.start ≡ 8
  pub writing : o.position ≡ o.len + 8
  pub fits : o.len ≤ max_protocol_body_length
  pub bytes : Bytes (slice o.buffer 8 o.len)

abbrev pub body_of : OutputMessage → List ℕ
body_of o = slice o.buffer 8 o.len

IsReady-Has : (o : OutputMessage) → IsReady o → Has o (6 + 2) (body_of o)
IsReady-Has o r =
    let size = length-slice o.buffer 8 o.len in
    record {
      starts = r.at_start;
      long = sym size;
      bytes = rw size;
      fits = omega (arith, size, r.fits);
    }

pub length-plain :
    (body : List ℕ)
    → (length (plain body) ≡ 2 + length body + padding_for (2 + length body))
      × (length (plain body) % 8 ≡ 0)
unfolding plain
length-plain body =
    let n = padding_for (2 + length body) in
    let whole : length (le_bytes 2 (length body) ++ (body ++ pad_bytes n)) ≡ 2 + length body + n =
      omega (
        arith,
        length-append (le_bytes 2 (length body)) (body ++ pad_bytes n),
        length-append body (pad_bytes n),
        length-replicate {A = ℕ} n 0x33,
      ) in
    (whole, omega (arith, whole))

pad_bytes-Bytes : (n : ℕ) → Bytes (pad_bytes n)
pad_bytes-Bytes zero = tt
pad_bytes-Bytes (suc n) = (omega arith, pad_bytes-Bytes n)

pub plain-Bytes : (body : List ℕ) → Bytes body → Bytes (plain body)
unfolding plain
plain-Bytes body h =
    All-append IsByte (le_bytes 2 (length body)) (body ++ pad_bytes (padding_for (2 + length body)))
      (le_bytes-Bytes 2 (length body))
      (All-append IsByte body (pad_bytes (padding_for (2 + length body))) h
        (pad_bytes-Bytes (padding_for (2 + length body))))

pads :
    (o : OutputMessage) (n : ℕ) (m : NetworkMessage)
    → (o.len % 8 == 0) ≡ false
    → 8 - o.len % 8 ≡ n
    → add_padding_bytes n (o.message) ≡ some m
    → (if o.len % 8 == 0 then some (o.message) else add_padding_bytes (8 - o.len % 8) (o.message))
      ≡ some m
pads o n m broken e h = rw (broken, e) h

-- The message padded to whole blocks, as `XTEA_encrypt` begins.
padded-Has :
    (o : OutputMessage) (body : List ℕ)
    → Has o 6 (le_bytes 2 (length body) ++ body)
    → o.position ≡ 8 + length body
    → length body ≤ max_protocol_body_length
    → (m : NetworkMessage) × ((if o.len % 8 == 0
          then some (o.message)
          else add_padding_bytes (8 - o.len % 8) (o.message))
        ≡ some m)
      × Has (record o { message = m }) 6 (plain body)
padded-Has o body h ends small = elim (Bool-cases (o.len % 8 == 0)) [
  | inl whole ↦
      let none_left : padding_for (2 + length body) ≡ 0 = ground (arith, size) in
      (
        o.message,
        rw whole,
        rw (plain_as (padding_for (2 + length body)) refl, none_left, append-nil) h,
      )
  | inr broken ↦
      let n : 8 - o.len % 8 ≡ padding_for (2 + length body) = ground (arith, size) in
      let padded =
        padding-Has (padding_for (2 + length body)) 6 o (le_bytes 2 (length body) ++ body) h
          (omega (arith, ends)) (omega (arith, ends)) in
      (
        padded.0,
        pads o (padding_for (2 + length body)) padded.0 broken n padded.1,
        rw plain_grouped padded.2,
      )
]
  where
    size : o.len ≡ 2 + length body
    size = omega (arith, h.long)

    plain_as :
        (n : ℕ)
        → padding_for (2 + length body) ≡ n
        → plain body ≡ le_bytes 2 (length body) ++ (body ++ pad_bytes n)
    plain_as n e = unfold plain in rw e

    plain_grouped :
        plain body ≡ (le_bytes 2 (length body) ++ body) ++ pad_bytes (padding_for (2 + length body))
    plain_grouped = unfold plain in refl

-- The enciphered bytes in the place of the plain ones.
xtea_encrypt-Has :
    (k : ℕ) (key : Key) (o : OutputMessage) (body : List ℕ)
    → k ≤ 7
    → Has o 6 (le_bytes 2 (length body) ++ body)
    → o.position ≡ 8 + length body
    → length body ≤ max_protocol_body_length
    → (o' : OutputMessage) × (xtea_encrypt (2 ^ k) key o ≡ some o')
      × Has o' 6 (whole_blocks true key (plain body))
unfolding xtea_encrypt
xtea_encrypt-Has k key o body hk h ends small =
    let padded = padded-Has o body h ends small in
    let o₁ : OutputMessage = record o { message = padded.0 } in
    let has : Has o₁ 6 (plain body) = padded.2 in
    let cipher = whole_blocks true key (plain body) in
    let kept = length-whole_blocks true key (plain body) in
    let out : copy_out o₁.buffer o.start o₁.len ≡ some (plain body) =
      rw (
        h.starts,
        has.long,
        copy_out_inside o₁.buffer 6 (length (plain body)) has.fits,
        has.bytes,
      ) in
    let enciphered : encrypt (2 ^ k) key (plain body) ≡ cipher =
      encrypt-whole_blocks k key (plain body) hk (omega (arith, has.fits)) in
    let into : copy_in o₁.buffer o.start cipher ≡ some (write o₁.buffer 6 cipher) =
      rw h.starts (copy_in_inside o₁.buffer 6 cipher (omega (arith, kept, has.fits))) in
    (
      record o { message = record (padded.0) { buffer = write o₁.buffer 6 cipher } },
      rw (padded.1, out, enciphered, into),
      replace-Has 6 o₁ (plain body) cipher has kept,
    )

-- The headers in front of the enciphered bytes.
add_crypto_header-Has :
    (checksum : Bool) (o : OutputMessage) (cipher : List ℕ)
    → Has o 6 cipher
    → Bytes cipher
    → (o' : OutputMessage) × (add_crypto_header checksum o ≡ some o')
      × (output_bytes o' ≡ (
          let rest = if checksum then le_bytes 4 (adler32 cipher) ++ cipher else cipher in
          le_bytes 2 (length rest) ++ rest))
unfolding add_crypto_header add_checksum_header write_message_length
add_crypto_header-Has false o cipher h ok =
    let headed = add_header-Has 2 o.len 4 o cipher h in
    (
      headed.0,
      headed.1,
      output_bytes-Has headed.0 4 (le_bytes 2 o.len ++ cipher) headed.2 ∙ rw (h.long),
    )
add_crypto_header-Has true o cipher h ok =
    let out : copy_out o.buffer o.start o.len ≡ some cipher =
      rw (h.starts, h.long, copy_out_inside o.buffer 6 (length cipher) h.fits, h.bytes) in
    let sum = adler_checksum-eq-adler32 cipher ok (omega (arith, h.fits)) in
    let first = add_header-Has 4 (adler32 cipher) 2 o cipher h in
    let rest = le_bytes 4 (adler32 cipher) ++ cipher in
    let second = add_header-Has 2 (first.0).len 0 first.0 rest first.2 in
    (
      second.0,
      rw (out, sum, first.1) second.1,
      output_bytes-Has second.0 0 (le_bytes 2 (first.0).len ++ rest) second.2 ∙ rw ((first.2).long),
    )

-- With encryption on and raw messages off, a message that is ready, that is, untouched before its
-- body, written up to its end, and with a body of at most 24566 bytes, is sent as its frame, with
-- the checksum if it is on: no assertion fails, no access leaves the array, and the padding always
-- fits.
pub on_send_message-frame :
    (k : ℕ) (p : Protocol) (o : OutputMessage)
    → k ≤ 7
    → p.raw_messages ≡ false
    → p.encryption_enabled ≡ true
    → IsReady o
    → (o' : OutputMessage) × (on_send_message (2 ^ k) p o ≡ some o')
      × (output_bytes o' ≡ frame p.checksum_enabled p.key (body_of o))
unfolding on_send_message encipher write_message_length frame
on_send_message-frame k p o hk raw on r =
    let size = length-slice o.buffer 8 o.len in
    let headed = add_header-Has 2 o.len 6 o (body_of o) (IsReady-Has o r) in
    let has : Has headed.0 6 (le_bytes 2 (length (body_of o)) ++ body_of o) = rw size headed.2 in
    let enciphered =
      xtea_encrypt-Has k p.key headed.0 (body_of o) hk has
        (omega (arith, headed.3, r.writing, size)) (omega (arith, size, r.fits)) in
    let sent =
      add_crypto_header-Has p.checksum_enabled enciphered.0
        (whole_blocks true p.key (plain (body_of o))) enciphered.2
        (whole_blocks-Bytes true p.key (plain (body_of o)) (plain-Bytes (body_of o) r.bytes)) in
    (sent.0, rw (raw, headed.1, on, enciphered.1) sent.1, sent.2)
