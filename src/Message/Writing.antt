-- ===== src/Message/Writing.antt =====
-- The writing operations of a message: what they write, and that they stay inside the array.
use native.Mathlib.Nat.{mod-eq_of_lt}
use juggernaut_server.Base.{
  ℕ, ◌+◌, ◌%◌, ◌^◌, ◌≤◌, ◌<◌, ◌≡◌, refl, ap, ap₂, ◌∙◌, Bool, true, false, not, ◌&&◌, ◌||◌, inl,
  List, [], ◌++◌, Option, some, length, length-append, slice, write, le_bytes, length-le_bytes,
  slice-write, slice-write_disjoint, slice-add, u16, ltb, leb, if◌then◌else◌, arith, ◌>>=◌, ltb→lt,
  lt→ltb,
}
use juggernaut_server.Message.{
  NetworkMessage, max_body_length, put, add, add_bytes, add_string, can_add,
}

-- `m'` is `m` with the bytes `bs` written at its position and nothing changed before them.
pub record Wrote (m m' : NetworkMessage) (bs : List ℕ) : Type 0 where
  pub moved : m'.position ≡ m.position + length bs
  pub longer : m'.len ≡ m.len + length bs
  pub same_mark : m'.overrun ≡ m.overrun
  pub here : slice m'.buffer m.position (length bs) ≡ bs
  pub before : (q n : ℕ) → q + n ≤ m.position → slice m'.buffer q n ≡ slice m.buffer q n

-- The position of a message that is being written is eight bytes past its length, and inside the body.
pub record IsWriting (m : NetworkMessage) : Type 0 where
  pub in_step : m.position ≡ m.len + 8
  pub inside : m.position < max_body_length

pub Wrote-nothing : (m : NetworkMessage) → Wrote m m []
Wrote-nothing m = record {
  moved = omega arith;
  longer = omega arith;
  same_mark = refl;
  here = refl;
  before = λ q n h. refl;
}

pub Wrote-append :
    (m₁ m₂ m₃ : NetworkMessage) (xs bs : List ℕ)
    → Wrote m₁ m₂ xs
    → Wrote m₂ m₃ bs
    → Wrote m₁ m₃ (xs ++ bs)
Wrote-append m₁ m₂ m₃ xs bs u v = record {
  moved = omega (arith, length-append xs bs, u.moved, v.moved);
  longer = omega (arith, length-append xs bs, u.longer, v.longer);
  same_mark = v.same_mark ∙ u.same_mark;
  here =
      rw (length-append xs bs, slice-add m₃.buffer m₁.position (length xs) (length bs))
        (ap₂ ◌++◌ (v.before m₁.position (length xs) (omega (arith, u.moved)) ∙ u.here)
          (rw (← u.moved) v.here));
  before = λ q n h. v.before q n (omega (arith, u.moved)) ∙ u.before q n h;
}

pub put-Wrote :
    (bs : List ℕ) (m : NetworkMessage)
    → IsWriting m
    → m.position + length bs < max_body_length
    → (m' : NetworkMessage) × (put bs m ≡ some m') × Wrote m m' bs × IsWriting m'
unfolding put
put-Wrote bs m w fits =
    let m' : NetworkMessage = record m {
      buffer = write m.buffer m.position bs;
      position = u16 (m.position + length bs);
      len = u16 (m.len + length bs);
    } in
    let moved : u16 (m.position + length bs) ≡ m.position + length bs =
      mod-eq_of_lt (omega arith) in
    let longer : u16 (m.len + length bs) ≡ m.len + length bs =
      mod-eq_of_lt (omega (arith, w.in_step)) in
    (
      m',
      ground arith,
      record {
        moved = moved;
        longer = longer;
        same_mark = refl;
        here = slice-write m.buffer m.position bs;
        before = λ q n h. slice-write_disjoint m.buffer m.position bs q n (inl h);
      },
      record { in_step = omega (arith, moved, longer, w.in_step); inside = omega (arith, moved) },
    )

-- What an operation that writes the bytes `bs` leaves: all of them, or the message as it was.
abbrev pub Outcome : NetworkMessage → List ℕ → Bool → Option NetworkMessage → Type 0
Outcome m bs true r = (m' : NetworkMessage) × (r ≡ some m') × Wrote m m' bs × IsWriting m'
Outcome m bs false r = r ≡ some m

can_add_lem :
    (m : NetworkMessage) (size : ℕ)
    → IsWriting m
    → size < 2 ^ 63
    → can_add m size ≡ ltb (m.position + size) max_body_length
unfolding can_add
can_add_lem m size w small =
    let e : (size + m.position) % 2 ^ 64 ≡ m.position + size = omega (arith, w.inside) in rw e

-- `add<T>` writes the integer's bytes if they end before the limit of the body, and nothing else.
pub add-Outcome :
    (n v : ℕ) (m : NetworkMessage)
    → IsWriting m
    → n < 2 ^ 63
    → Outcome m (le_bytes n v) (ltb (m.position + n) max_body_length) (add n v m)
unfolding add
add-Outcome n v m w small =
    rw (can_add_lem m n w small) (go (ltb (m.position + n) max_body_length) refl)
  where
    go :
        (b : Bool)
        → ltb (m.position + n) max_body_length ≡ b
        → Outcome m (le_bytes n v) b (if b then put (le_bytes n v) m else some m)
    go true e =
        put-Wrote (le_bytes n v) m w
          (rw (length-le_bytes n v) (ltb→lt (m.position + n) max_body_length e))
    go false e = refl

-- The bytes of a text on the wire: its length in two bytes, and its characters.
abbrev pub text_bytes : List ℕ → List ℕ
text_bytes s = le_bytes 2 (length s) ++ s

abbrev pub text_fits : NetworkMessage → List ℕ → Bool
text_fits m s = ltb (m.position + (length s + 2)) max_body_length && leb (length s) 8192

put_two-Wrote :
    (xs bs : List ℕ) (m : NetworkMessage)
    → IsWriting m
    → m.position + (length xs + length bs) < max_body_length
    → Outcome m (xs ++ bs) true (put xs m >>= put bs)
put_two-Wrote xs bs m w fits =
    let first = put-Wrote xs m w (omega arith) in
    let second = put-Wrote bs first.0 first.3 (omega (arith, first.2.moved)) in
    (
      second.0,
      ap (λ (r : Option NetworkMessage). r >>= put bs) first.1 ∙ second.1,
      Wrote-append m first.0 second.0 xs bs first.2 second.2,
      second.3,
    )

add-eq-put :
    (n v : ℕ) (m : NetworkMessage)
    → IsWriting m
    → m.position + n < max_body_length
    → add n v m ≡ put (le_bytes n v) m
unfolding add
add-eq-put n v m w fits =
    rw (can_add_lem m n w (omega arith), lt→ltb (m.position + n) max_body_length fits)

-- `addString` writes the length and the characters if both end before the limit and the text has
-- at most 8192 characters, and nothing else.
pub add_string-Outcome :
    (s : List ℕ) (m : NetworkMessage)
    → IsWriting m
    → length s < 2 ^ 62
    → Outcome m (text_bytes s) (text_fits m s) (add_string s m)
unfolding add_string
add_string-Outcome s m w small =
    rw (can_add_lem m (length s + 2) w (omega arith))
      (go (ltb (m.position + (length s + 2)) max_body_length) (leb (length s) 8192) refl refl)
  where
    go :
        (b c : Bool)
        → ltb (m.position + (length s + 2)) max_body_length ≡ b
        → leb (length s) 8192 ≡ c
        → Outcome m
            (text_bytes s)
            (b && c)
            (if not b || ltb 8192 (length s) then some m else add 2 (length s) m >>= put s)
    go false c e f = refl
    go true false e f = let over : ltb 8192 (length s) ≡ true = ground arith in rw over
    go true true e f =
        let within : ltb 8192 (length s) ≡ false = ground arith in
        let room = ltb→lt (m.position + (length s + 2)) max_body_length e in
        rw (within, add-eq-put 2 (length s) m w (omega arith))
          (put_two-Wrote (le_bytes 2 (length s)) s m w (omega arith))

-- `addBytes` does so for bytes without a length.
pub add_bytes-Outcome :
    (bs : List ℕ) (m : NetworkMessage)
    → IsWriting m
    → length bs < 2 ^ 62
    → Outcome m bs
        (ltb (m.position + length bs) max_body_length && leb (length bs) 8192)
        (add_bytes bs m)
unfolding add_bytes
add_bytes-Outcome bs m w small =
    rw (can_add_lem m (length bs) w (omega arith))
      (go (ltb (m.position + length bs) max_body_length) (leb (length bs) 8192) refl refl)
  where
    go :
        (b c : Bool)
        → ltb (m.position + length bs) max_body_length ≡ b
        → leb (length bs) 8192 ≡ c
        → Outcome m bs (b && c) (if not b || ltb 8192 (length bs) then some m else put bs m)
    go false c e f = refl
    go true false e f = let over : ltb 8192 (length bs) ≡ true = ground arith in rw over
    go true true e f =
        let within : ltb 8192 (length bs) ≡ false = ground arith in
        rw within (put-Wrote bs m w (ltb→lt (m.position + length bs) max_body_length e))
