-- ===== src/Rsa/KeyText.antt =====
-- Which text `RSA::loadPEM` of source/rsa.cpp hands to the decoder.
use juggernaut_server.Base.{
  ℕ, ◌+◌, ◌-◌, ◌^◌, ◌≤◌, ◌<◌, ◌≡◌, ◌≢◌, refl, ap, sym, ◌∙◌, Bool, true, false, not, List, ◌++◌,
  some, length, take, drop, le→ltb, text_eq, length-append, take-append, drop-append, take_all,
  length-take, text_eq→eq, append_assoc, arith, if◌then◌else◌,
}
use juggernaut_server.Rsa.{
  header, footer, missing_header, missing_footer, out_of_range, Decoded, valid, not_valid,
  undecodable, key_result, substr, join_lines, size_difference, decode_key, check_footer,
  check_start, decode_cut, check_end, load_pem,
}

substr_at :
    (s : List ℕ) (start count : ℕ)
    → start ≤ length s
    → substr s start count ≡ some (take count (drop start s))
unfolding substr
substr_at s start count h = rw (le→ltb (length s) start h) refl

size_difference_at :
    (a b : List ℕ)
    → length b ≤ length a
    → length a < 2 ^ 64
    → size_difference a b ≡ length a - length b
unfolding size_difference
size_difference_at a b h small = omega arith

key_result-ne-out_of_range : (d : Decoded) → key_result d ≢ out_of_range
unfolding key_result
key_result-ne-out_of_range valid h = cc
key_result-ne-out_of_range not_valid h = cc
key_result-ne-out_of_range undecodable h = cc

-- The three cuts of a text with a header `h`, a body and a footer `f`.
module _ (h body f : List ℕ) (small : length (h ++ (body ++ f)) < 2 ^ 64) where
  first_cut : substr (h ++ (body ++ f)) 0 (length h) ≡ some h
  first_cut =
      substr_at (h ++ (body ++ f)) 0 (length h) (omega arith)
      ∙ ap some (take-append h (body ++ f) (length h) refl)

  whole_size : size_difference (h ++ (body ++ f)) f ≡ length h + length body
  whole_size =
      let e = length-append h (body ++ f) in
      let e' = length-append body f in
      size_difference_at (h ++ (body ++ f)) f (omega (arith, e, e')) small ∙ omega (arith, e, e')

  end_cut : substr (h ++ (body ++ f)) (size_difference (h ++ (body ++ f)) f) (length f) ≡ some f
  end_cut =
      let e = length-append h (body ++ f) in
      let e' = length-append body f in
      ap (λ n. substr (h ++ (body ++ f)) n (length f)) whole_size
      ∙ substr_at (h ++ (body ++ f)) (length h + length body) (length f) (omega (arith, e, e'))
      ∙ ap (λ s. some (take (length f) (drop (length h + length body) s)))
          (sym (append_assoc h body f))
      ∙ ap (λ s. some (take (length f) s))
          (drop-append (h ++ body) f (length h + length body) (length-append h body))
      ∙ ap some (take_all f (length f) (omega arith))

  -- The last cut takes as many characters as header and body have, from behind the header.
  last_cut :
      length f ≤ length h
      → substr (h ++ (body ++ f)) (length h) (size_difference (h ++ (body ++ f)) f)
        ≡ some (body ++ f)
  last_cut shorter =
      let e = length-append h (body ++ f) in
      let e' = length-append body f in
      substr_at (h ++ (body ++ f)) (length h) (size_difference (h ++ (body ++ f)) f)
        (omega (arith, e))
      ∙ ap (λ s. some (take (size_difference (h ++ (body ++ f)) f) s))
          (drop-append h (body ++ f) (length h) refl)
      ∙ ap some (
          take_all (body ++ f) (size_difference (h ++ (body ++ f)) f)
            (omega (arith, e', whole_size, shorter)))

-- A file whose text is a header, a body and a footer, of less than 2 ^ 64 characters, is decoded with its footer: the decoder is
-- given the body and the footer, not the body.
pub load_pem-keeps_footer :
    (decode : List ℕ → Decoded) (lines : List (List ℕ)) (body : List ℕ)
    → join_lines lines ≡ header ++ (body ++ footer)
    → length (header ++ (body ++ footer)) < 2 ^ 64
    → load_pem decode (some lines) ≡ key_result (decode (body ++ footer))
unfolding load_pem check_start check_footer check_end decode_key decode_cut
load_pem-keeps_footer decode lines body e small =
    let key = header ++ (body ++ footer) in
    ap (λ k. check_start decode k (substr k 0 (length header))) e
    ∙ ap (check_start decode key) (first_cut header body footer small)
    ∙ ap (check_end decode key) (end_cut header body footer small)
    ∙ ap (decode_cut decode) (last_cut header body footer small (omega arith))

module _ (decode : List ℕ → Decoded) (key : List ℕ) where
  decode_key-in_range : length header ≤ length key → decode_key decode key ≢ out_of_range
  unfolding decode_key decode_cut
  decode_key-in_range long h =
      key_result-ne-out_of_range
        (decode (take (size_difference key footer) (drop (length header) key)))
        (sym (
            ap (decode_cut decode)
              (substr_at key (length header) (size_difference key footer) long))
          ∙ h)

  check_end-in_range :
      (end : List ℕ) → length header ≤ length key → check_end decode key (some end) ≢ out_of_range
  unfolding check_end
  check_end-in_range end long = with_test (text_eq end footer)
    where
      with_test :
          (b : Bool) → (if not b then missing_footer else decode_key decode key) ≢ out_of_range
      with_test true h = decode_key-in_range long h
      with_test false h = cc

  check_footer-in_range :
      length header ≤ length key → length key < 2 ^ 64 → check_footer decode key ≢ out_of_range
  unfolding check_footer
  check_footer-in_range long small h =
      let start : ℕ = size_difference key footer in
      let e = size_difference_at key footer (omega (arith, long)) small in
      check_end-in_range (take (length footer) (drop start key)) long (
        sym (ap (check_end decode key) (substr_at key start (length footer) (omega (arith, e))))
        ∙ h)

  check_start-in_range :
      length key < 2 ^ 64 → check_start decode key (some (take (length header) key)) ≢ out_of_range
  unfolding check_start
  check_start-in_range small =
      with_test (text_eq (take (length header) key) header)
        (text_eq→eq (take (length header) key) header)
    where
      with_test :
          (b : Bool)
          → (b ≡ true → take (length header) key ≡ header)
          → (if not b then missing_header else check_footer decode key) ≢ out_of_range
      with_test false same h = cc
      with_test true same h =
          check_footer-in_range
            (omega (arith, length-take (length header) key, ap length (same refl))) small h

-- No cut of a key's text of less than 2 ^ 64 characters is out of its range: a text that is too short has no header.
load_pem-ne-out_of_range :
    (decode : List ℕ → Decoded) (lines : List (List ℕ))
    → length (join_lines lines) < 2 ^ 64
    → load_pem decode (some lines) ≢ out_of_range
unfolding load_pem
load_pem-ne-out_of_range decode lines small h =
    let key = join_lines lines in
    check_start-in_range decode key small
      (sym (ap (check_start decode key) (substr_at key 0 (length header) (omega arith))) ∙ h)
