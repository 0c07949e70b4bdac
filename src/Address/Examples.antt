-- ===== src/Address/Examples.antt =====
-- The text of a concrete address.
use juggernaut_server.Base.{some, ◌+◌, ◌≤◌, ◌≡◌, refl, [], ◌∷◌, length, codes, decimal, arith}
use juggernaut_server.Address.{convert_ip_to_string, get_ip}
use juggernaut_server.Address.Text.{read_octets}
use juggernaut_server.Address.Peer.{address_of, get_ip-octets}

get_ip-octets_example :
    (read_octets 0 (convert_ip_to_string (get_ip (some (address_of 127 0 0 1))))
      ≡ 127 ∷ 0 ∷ 0 ∷ 1 ∷ [])
    × (length (convert_ip_to_string (get_ip (some (address_of 127 0 0 1)))) + 1 ≤ 17)
get_ip-octets_example =
    get_ip-octets 127 0 0 1 (omega arith) (omega arith) (omega arith) (omega arith)

local_host : convert_ip_to_string 0x0100007f ≡ codes "127.0.0.1"
unfolding convert_ip_to_string decimal
local_host = refl
