-- ===== src/Address/Peer.antt =====
-- The text of the other end of a connection: `convertIPToString` of what `getIP` returns.
use juggernaut_server.Base.{ℕ, ◌+◌, ◌*◌, ◌^◌, ◌<◌, ◌≤◌, ◌≡◌, ap, ◌∙◌, [], ◌∷◌, some, length, arith}
use juggernaut_server.Address.{convert_ip_to_string, htonl, get_ip}
use juggernaut_server.Address.Text.{octet, read_octets, convert_ip_to_string-octets}

abbrev pub address_of : ℕ → ℕ → ℕ → ℕ → ℕ
address_of a b c d = a * 2 ^ 24 + b * 2 ^ 16 + c * 2 ^ 8 + d

get_ip-reversed :
    (a b c d : ℕ)
    → a < 256
    → b < 256
    → c < 256
    → d < 256
    → get_ip (some (address_of a b c d)) ≡ address_of d c b a
unfolding get_ip htonl
get_ip-reversed a b c d ha hb hc hd = omega (arith, ha, hb, hc, hd)

octets-address_of :
    (a b c d : ℕ)
    → a < 256
    → b < 256
    → c < 256
    → d < 256
    → let ip = address_of d c b a in
      octet ip 0 ∷ octet ip 8 ∷ octet ip 16 ∷ octet ip 24 ∷ [] ≡ a ∷ b ∷ c ∷ d ∷ []
octets-address_of a b c d ha hb hc hd =
    let ip = address_of d c b a in
    let e0 : octet ip 0 ≡ a = omega (arith, ha, hb, hc, hd) in
    let e8 : octet ip 8 ≡ b = omega (arith, ha, hb, hc, hd) in
    let e16 : octet ip 16 ≡ c = omega (arith, ha, hb, hc, hd) in
    let e24 : octet ip 24 ≡ d = omega (arith, ha, hb, hc, hd) in cc (e0, e8, e16, e24)

-- The text that `convertIPToString` makes of `getIP` for a connection from the address a.b.c.d reads
-- back as the octets a, b, c and d in this order, and with the terminating zero it fits the buffer of
-- 17 characters.
pub get_ip-octets :
    (a b c d : ℕ)
    → a < 256
    → b < 256
    → c < 256
    → d < 256
    → (read_octets 0 (convert_ip_to_string (get_ip (some (address_of a b c d))))
        ≡ a ∷ b ∷ c ∷ d ∷ [])
      × (length (convert_ip_to_string (get_ip (some (address_of a b c d)))) + 1 ≤ 17)
get_ip-octets a b c d ha hb hc hd =
    let e = get_ip-reversed a b c d ha hb hc hd in
    let (read, short) =
      convert_ip_to_string-octets (address_of d c b a) (omega (arith, ha, hb, hc, hd)) in
    (
      ap (λ ip. read_octets 0 (convert_ip_to_string ip)) e
          ∙ read
          ∙ octets-address_of a b c d ha hb hc hd,
      omega (arith, ap (λ ip. length (convert_ip_to_string ip)) e, short),
    )
