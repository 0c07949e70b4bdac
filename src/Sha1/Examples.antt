-- ===== src/Sha1/Examples.antt =====
-- The digest of the standard's first example, and of a longer input.
use juggernaut_server.Base.{ℕ, ◌≡◌, refl, List, [], ◌∷◌, ◌++◌, replicate}
use juggernaut_server.Sha1.{
  transform_to_sha1, hex_string, hex_digit, finish, process_block, make_room, feed_all, feed, flush,
  rounds, circular_shift, choose, expand, load_words, fill, be_word, parity, majority,
}
use juggernaut_server.Sha1.Padding.{reference, transform_to_sha1-eq-reference}

abbrev text_of_two_blocks : List ℕ
text_of_two_blocks = replicate 60 b'x' ++ b'y' ∷ []

transform_to_sha1-eq-reference_example :
    transform_to_sha1 text_of_two_blocks ≡ reference text_of_two_blocks
transform_to_sha1-eq-reference_example = transform_to_sha1-eq-reference text_of_two_blocks

digest_of_abc :
    transform_to_sha1 (b'a' ∷ b'b' ∷ b'c' ∷ [])
    ≡ b'a' ∷ b'9' ∷ b'9' ∷ b'9' ∷ b'3' ∷ b'e' ∷ b'3' ∷ b'6' ∷ b'4' ∷ b'7' ∷ b'0' ∷ b'6' ∷ b'8'
      ∷ b'1' ∷ b'6' ∷ b'a' ∷ b'b' ∷ b'a' ∷ b'3' ∷ b'e' ∷ b'2' ∷ b'5' ∷ b'7' ∷ b'1' ∷ b'7' ∷ b'8'
      ∷ b'5' ∷ b'0' ∷ b'c' ∷ b'2' ∷ b'6' ∷ b'c' ∷ b'9' ∷ b'c' ∷ b'd' ∷ b'0' ∷ b'd' ∷ b'8' ∷ b'9'
      ∷ b'd' ∷ []
unfolding transform_to_sha1 hex_string hex_digit finish process_block make_room feed_all feed flush
    rounds circular_shift choose expand load_words fill be_word parity majority
digest_of_abc = refl
