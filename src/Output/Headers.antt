-- ===== src/Output/Headers.antt =====
-- Headers and padding, by the bytes that an output message has from its start.
use native.Mathlib.Nat.{mod-eq_of_lt}
use juggernaut_server.Base.{
  ℕ, ◌+◌, ◌-◌, ◌%◌, ◌^◌, ◌≤◌, ◌<◌, ◌≡◌, refl, ap₂, sym, ◌∙◌, inl, inr, true, List, ◌++◌, some,
  length, replicate, length-append, length-replicate, slice, write, slice-add, slice-write,
  slice-write_disjoint, le_bytes, length-le_bytes, u16, leb, lt→ltb, arith,
}
use juggernaut_server.Message.{
  NetworkMessage, max_size, max_body_length, copy_in, copy_out, add_padding_bytes, can_add,
}
use juggernaut_server.Output.{OutputMessage, add_header}

-- The bytes that are sent for a message, from `getOutputBuffer()`.
abbrev pub output_bytes : OutputMessage → List ℕ
output_bytes o = slice o.buffer o.start o.len

-- `o` starts at `st` and has the bytes `bs` there, all in the array.
pub record Has (o : OutputMessage) (st : ℕ) (bs : List ℕ) : Type 0 where
  pub starts : o.start ≡ st
  pub long : o.len ≡ length bs
  pub bytes : slice o.buffer st (length bs) ≡ bs
  pub fits : st + length bs ≤ max_size

pub output_bytes-Has :
    (o : OutputMessage) (st : ℕ) (bs : List ℕ) → Has o st bs → output_bytes o ≡ bs
output_bytes-Has o st bs h = rw (h.starts, h.long) h.bytes

pub copy_in_inside :
    (b : ℕ → ℕ) (p : ℕ) (bs : List ℕ)
    → p + length bs ≤ max_size
    → copy_in b p bs ≡ some (write b p bs)
copy_in_inside b p bs h = ground arith

pub copy_out_inside : (b : ℕ → ℕ) (p n : ℕ) → p + n ≤ max_size → copy_out b p n ≡ some (slice b p n)
copy_out_inside b p n h = ground arith

-- A header goes in front, and nothing else moves.
pub add_header-Has :
    (n v k : ℕ) (o : OutputMessage) (bs : List ℕ)
    → Has o (k + n) bs
    → (o' : OutputMessage) × (add_header n v o ≡ some o')
      × Has o' k (le_bytes n v ++ bs)
      × (o'.position ≡ o.position)
unfolding add_header
add_header-Has n v k o bs h =
    let size = length-le_bytes n v in
    let both = length-append (le_bytes n v) bs in
    let before : o.start - n ≡ k = omega (arith, h.starts) in
    let room : leb n o.start ≡ true = ground (arith, h.starts) in
    let longer : (o.len + n) % 2 ^ 16 ≡ length (le_bytes n v ++ bs) =
      mod-eq_of_lt (omega (arith, h.long, h.fits)) ∙ omega (arith, h.long, size, both) in
    let o' : OutputMessage = record {
      message = record (o.message) {
        buffer = write o.buffer k (le_bytes n v);
        len = u16 (o.len + n);
      };
      start = k;
    } in
    (
      o',
      rw (room, before, copy_in_inside o.buffer k (le_bytes n v) (omega (arith, size, h.fits))),
      record {
        starts = refl;
        long = longer;
        bytes =
            rw
              (
                both,
                slice-add (write o.buffer k (le_bytes n v)) k (length (le_bytes n v)) (length bs),
              )
              (ap₂ ◌++◌ (slice-write o.buffer k (le_bytes n v)) (
                slice-write_disjoint o.buffer k (le_bytes n v) (k + length (le_bytes n v))
                  (length bs) (inr (omega arith))
                ∙ rw size h.bytes));
        fits = omega (arith, both, size, h.fits);
      },
      refl,
    )

abbrev pub pad_bytes : ℕ → List ℕ
pad_bytes n = replicate n 0x33

-- Padding goes behind the bytes when they end at the position.
pub padding-Has :
    (n st : ℕ) (o : OutputMessage) (bs : List ℕ)
    → Has o st bs
    → o.position ≡ st + length bs
    → o.position + n < max_body_length
    → (m : NetworkMessage) × (add_padding_bytes n (o.message) ≡ some m)
      × Has (record o { message = m }) st (bs ++ pad_bytes n)
unfolding add_padding_bytes can_add
padding-Has n st o bs h ends room =
    let size = length-replicate {A = ℕ} n 0x33 in
    let both = length-append bs (pad_bytes n) in
    let sum : (n + o.position) % 2 ^ 64 ≡ o.position + n = omega arith in
    let open_room = lt→ltb (o.position + n) max_body_length room in
    let b' = write o.buffer o.position (pad_bytes n) in
    (
      record (o.message) { buffer = b'; len = u16 (o.len + n) },
      rw (sum, open_room, copy_in_inside o.buffer o.position (pad_bytes n) (omega (arith, size))),
      record {
        starts = h.starts;
        long = mod-eq_of_lt (omega (arith, h.long, h.fits)) ∙ omega (arith, h.long, size, both);
        bytes =
            rw (both, slice-add b' st (length bs) (length (pad_bytes n)), ← ends)
              (ap₂ ◌++◌
                (slice-write_disjoint o.buffer o.position (pad_bytes n) st (length bs)
                    (inl (omega (arith, ends)))
                  ∙ h.bytes)
                (slice-write o.buffer o.position (pad_bytes n)));
        fits = omega (arith, both, size, ends);
      },
    )

-- Bytes of the same number in their place.
pub replace-Has :
    (st : ℕ) (o : OutputMessage) (bs cs : List ℕ)
    → Has o st bs
    → length cs ≡ length bs
    → Has (record o { message = record (o.message) { buffer = write o.buffer st cs } }) st cs
replace-Has st o bs cs h e = record {
  starts = h.starts;
  long = h.long ∙ sym e;
  bytes = slice-write o.buffer st cs;
  fits = omega (arith, e, h.fits);
}
