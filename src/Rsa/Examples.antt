-- ===== src/Rsa/Examples.antt =====
-- The cuts of a key file at a concrete text.
use juggernaut_server.Base.{ℕ, ◌≡◌, refl, List, [], ◌∷◌, ◌++◌, some, codes, arith}
use juggernaut_server.Rsa.{header, footer, Decoded, undecodable, load_pem, key_result, join_lines}
use juggernaut_server.Rsa.KeyText.{load_pem-keeps_footer}

abbrev refusing : List ℕ → Decoded
refusing text = undecodable

abbrev key_file : List (List ℕ)
key_file = header ∷ codes "MIIC" ∷ codes "XAIB" ∷ footer ∷ []

load_pem-keeps_footer_example :
    load_pem refusing (some key_file) ≡ key_result (refusing (codes "MIICXAIB" ++ footer))
unfolding join_lines
load_pem-keeps_footer_example =
    load_pem-keeps_footer refusing key_file (codes "MIICXAIB") refl (omega arith)
